-- ===== src/Vtab/Functions.antt =====
-- src/vtab/function.rs: the functions that a virtual table overloads, and what SQLite is told of
-- them in src/vtab/stubs.rs. `F` stands for the closures.
pub mod Overloads
use sqlite3_ext.Prelude.{
  ℕ, Bool, true, false, ◌&&◌, List, [], ◌∷◌, ◌++◌, ◌==◌, if◌then◌else◌, Outcome, ok, err, panic,
  bind, map_ok, Option, none, some, Text, text_eq, Error,
}
use sqlite3_ext.Prelude.Int.{ℤ, pos, negsuc, leb_ℤ, ltb_ℤ, eqb_ℤ}
use sqlite3_ext.IndexInfo.Ops.{ConstraintOp, function, assert_valid_function_constraint}

-- `vtab` is the table that the function was bound to.
pub record VtabFunction (F V : Type 0) : Type 0 where
  pub n_args : ℤ
  pub name : Text
  pub constraint : Option ConstraintOp
  pub vtab : Option V
  pub func : F

abbrev pub assert_constraint : Option ConstraintOp → Outcome (Unit {0})
assert_constraint none = ok tt
assert_constraint (some c) = assert_valid_function_constraint c

-- The number by which `vtab_find_function` answers.
abbrev pub overload_code : Option ConstraintOp → ℕ
overload_code (some (function x)) = x
overload_code c = 1

module _ {F V : Type 0} where
  -- `_add`, to which `add` and `add_method` pass on.
  unfoldable pub add :
      ℤ
      → Text
      → Option ConstraintOp
      → F
      → List (VtabFunction F V)
      → Outcome (List (VtabFunction F V))
  add n_args name constraint func list =
      if leb_ℤ (negsuc 0) n_args && ltb_ℤ n_args (pos 128)
      then map_ok
          (λ _.
            list
            ++ record {
              n_args = n_args;
              name = name;
              constraint = constraint;
              vtab = none;
              func = func;
            }
              ∷ [])
          (assert_constraint constraint)
      else panic

  -- `f.n_args == n_args && f.name == name`
  abbrev pub matches : ℤ → Text → VtabFunction F V → Bool
  matches n_args name f = eqb_ℤ f.n_args n_args && text_eq f.name name

  -- The first function of the list that matches, with the list in which it is bound to `vtab`.
  unfoldable pub find_bind :
      V → ℤ → Text → List (VtabFunction F V) → Option (VtabFunction F V × List (VtabFunction F V))
  find_bind vtab n_args name [] = none
  find_bind vtab n_args name (f ∷ list) =
      if matches n_args name f
      then some (record f { vtab = some vtab }, record f { vtab = some vtab } ∷ list)
      else elim (find_bind vtab n_args name list) [
        | some (g, list') ↦ some (g, f ∷ list')
        | none ↦ none
      ]

  -- `find`: first the number of arguments that is asked for, then -1.
  unfoldable pub find :
      V → ℤ → Text → List (VtabFunction F V) → Option (VtabFunction F V × List (VtabFunction F V))
  find vtab n_args name list = elim (find_bind vtab n_args name list) [
    | some r ↦ some r
    | none ↦ find_bind vtab (negsuc 0) name list
  ]

  -- `vtab_find_function`: the name is a C string, `to_str` std's check for UTF-8, and `failed` the
  -- answer of `handle_error`. The function is the one that `*p_func` and `*p_user_data` lead to.
  unfoldable pub vtab_find_function :
      (Text → Option Text)
      → ℕ
      → V
      → ℤ
      → Text
      → List (VtabFunction F V)
      → ℕ × Option (VtabFunction F V × List (VtabFunction F V))
  vtab_find_function to_str failed vtab n_args name list = elim (to_str name) [
    | some s ↦ elim (find vtab n_args s list) [
      | some (f, list') ↦ (overload_code f.constraint, some (f, list'))
      | none ↦ (0, none)
    ]
    | none ↦ (failed, none)
  ]

-- `vtab_shadow_name`
unfoldable pub vtab_shadow_name : List Text → Text → ℕ
vtab_shadow_name [] name = 0
vtab_shadow_name (candidate ∷ rest) name =
    if text_eq candidate name then 1 else vtab_shadow_name rest name
