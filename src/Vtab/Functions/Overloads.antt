-- ===== src/Vtab/Functions/Overloads.antt =====
-- Which overload is found, and how SQLite is told of it.
use sqlite3_ext.Prelude.{
  ℕ, ◌≤◌, ◌≡◌, refl, ◌⊎◌, inl, inr, true, false, List, [], ◌∷◌, ◌++◌, All, ok, Option, none, some,
  Text, arith, Option-cases, Bool-cases, ◌&&◌, leb, leb→le, panic,
}
use sqlite3_ext.Prelude.Int.{ℤ, pos, negsuc, leb_ℤ, ltb_ℤ}
use sqlite3_ext.IndexInfo.Ops.{ConstraintOp, function, assert_valid_function_constraint}
use sqlite3_ext.Vtab.Functions.{
  VtabFunction, assert_constraint, overload_code, add, matches, find_bind, find, vtab_find_function,
}

-- The operators that an overload may have.
abbrev pub IsOverload : Option ConstraintOp → Type 0
IsOverload none = Unit {0}
IsOverload (some (function x)) = 150 ≤ x
IsOverload (some c) = ⊥

overload-asserted : (c : Option ConstraintOp) → IsOverload c → assert_constraint c ≡ ok tt
unfolding assert_valid_function_constraint
overload-asserted none h = refl
overload-asserted (some (function x)) h = ground arith
overload-asserted (some c) h = absurd h

asserted_or :
    (c : Option ConstraintOp) → IsOverload c ⊎ ((¬ IsOverload c) × (assert_constraint c ≡ panic))
unfolding assert_valid_function_constraint
asserted_or none = inl tt
asserted_or (some (function x)) = elim (Bool-cases (leb 150 x)) [
  | inl t ↦ inl (leb→le 150 x t)
  | inr f ↦ inr (λ h. ground (arith, h, f), ground arith)
]
asserted_or (some c) = inr (λ h. h, refl)

-- The answer to SQLite for a function that may be an overload.
overload_code-cases :
    (c : Option ConstraintOp) → IsOverload c → (overload_code c ≡ 1) ⊎ (150 ≤ overload_code c)
overload_code-cases none h = inl refl
overload_code-cases (some (function x)) h = inr h
overload_code-cases (some c) h = inl refl

module _ {F V : Type 0} (vtab : V) (name : Text) where
  abbrev pub bound : VtabFunction F V → VtabFunction F V
  bound f = record f { vtab = some vtab }

  -- None of the functions matches a number of arguments.
  abbrev pub NoneMatch : ℤ → List (VtabFunction F V) → Type 0
  NoneMatch n list = All (λ f. matches n name f ≡ false) list

  find_bind-first :
      (n : ℤ) (xs ys : List (VtabFunction F V)) (f : VtabFunction F V)
      → NoneMatch n xs
      → matches n name f ≡ true
      → find_bind vtab n name (xs ++ f ∷ ys) ≡ some (bound f, xs ++ bound f ∷ ys)
  unfolding find_bind
  find_bind-first n [] ys f h k = rw (find_bind, k) refl
  find_bind-first n (x ∷ xs) ys f h k = rw (find_bind, h.0, find_bind-first n xs ys f h.1 k) refl

  find_bind-none :
      (n : ℤ) (xs : List (VtabFunction F V)) → NoneMatch n xs → find_bind vtab n name xs ≡ none
  unfolding find_bind
  find_bind-none n [] h = refl
  find_bind-none n (x ∷ xs) h = rw (find_bind, h.0, find_bind-none n xs h.1) refl

  -- A function with the number of arguments that is asked for is found before any that takes
  -- every number, wherever it stands in the list, and of several the one that was added first. It
  -- is bound to the table, and the others are left as they are.
  find-exact :
      (n : ℤ) (xs ys : List (VtabFunction F V)) (f : VtabFunction F V)
      → NoneMatch n xs
      → matches n name f ≡ true
      → find vtab n name (xs ++ f ∷ ys) ≡ some (bound f, xs ++ bound f ∷ ys)
  unfolding find
  find-exact n xs ys f h k = rw (find, find_bind-first n xs ys f h k) refl

  -- When no function has the number of arguments that is asked for, the first one that takes
  -- every number is found, and when there is none of those either, none is.
  find-variadic :
      (n : ℤ) (xs ys : List (VtabFunction F V)) (f : VtabFunction F V)
      → NoneMatch n (xs ++ f ∷ ys)
      → NoneMatch n xs
      → NoneMatch (negsuc 0) xs
      → matches (negsuc 0) name f ≡ true
      → (find vtab n name (xs ++ f ∷ ys) ≡ some (bound f, xs ++ bound f ∷ ys))
        × (find vtab n name xs ≡ none)
  unfolding find
  find-variadic n xs ys f h i v k = (
    rw (find, find_bind-none n (xs ++ f ∷ ys) h, find_bind-first (negsuc 0) xs ys f v k) refl,
    rw (find, find_bind-none n xs i, find_bind-none (negsuc 0) xs v) refl,
  )

-- What `add` takes: from -1 to 127 arguments, and an operator that an overload may have.
abbrev pub IsAddable : ℤ → Option ConstraintOp → Type 0
IsAddable n c = (leb_ℤ (negsuc 0) n && ltb_ℤ n (pos 128) ≡ true) × IsOverload c

module _ {F V : Type 0} where
  abbrev pub AreOverloads : List (VtabFunction F V) → Type 0
  AreOverloads list = All (λ f. IsOverload f.constraint) list

  AreOverloads-append :
      (xs : List (VtabFunction F V)) (f : VtabFunction F V)
      → AreOverloads xs
      → IsOverload f.constraint
      → AreOverloads (xs ++ f ∷ [])
  AreOverloads-append [] f h k = (k, tt)
  AreOverloads-append (x ∷ xs) f h k = (h.0, AreOverloads-append xs f h.1 k)

  added :
      (n : ℤ) (name : Text) (c : Option ConstraintOp) (func : F) (list : List (VtabFunction F V))
      → IsAddable n c
      → add n name c func list
        ≡ ok (
            list
            ++ record { n_args = n; name = name; constraint = c; vtab = none; func = func } ∷ [])
  unfolding add
  added n name c func list h = rw (add, h.0, overload-asserted c h.1) refl

  refused :
      (n : ℤ) (name : Text) (c : Option ConstraintOp) (func : F) (list : List (VtabFunction F V))
      → (leb_ℤ (negsuc 0) n && ltb_ℤ n (pos 128) ≡ false) ⊎ (assert_constraint c ≡ panic)
      → add n name c func list ≡ panic
  unfolding add
  refused n name c func list (inl h) = rw (add, h) refl
  refused n name c func list (inr h) = elim (Bool-cases (leb_ℤ (negsuc 0) n && ltb_ℤ n (pos 128))) [
    | inl t ↦ rw (add, t, h) refl
    | inr f ↦ rw (add, f) refl
  ]

  -- To a list of overloads, `add` appends a function that takes from -1 to 127 arguments and whose
  -- operator is none or a function that SQLite numbers from 150 on, not bound to a table, and the
  -- list stays one of overloads. It panics on any other.
  pub add-AreOverloads :
      (n : ℤ) (name : Text) (c : Option ConstraintOp) (func : F) (list : List (VtabFunction F V))
      → AreOverloads list
      → let list' : List (VtabFunction F V) =
          list
          ++ record { n_args = n; name = name; constraint = c; vtab = none; func = func } ∷ [] in
        (IsAddable n c × (add n name c func list ≡ ok list') × AreOverloads list')
        ⊎ ((¬ IsAddable n c) × (add n name c func list ≡ panic))
  add-AreOverloads n name c func list h =
      let f : VtabFunction F V = record {
        n_args = n;
        name = name;
        constraint = c;
        vtab = none;
        func = func;
      } in
      elim (Bool-cases (leb_ℤ (negsuc 0) n && ltb_ℤ n (pos 128))) [
        | inl t ↦ elim (asserted_or c) [
          | inl o ↦ inl ((t, o), added n name c func list (t, o), AreOverloads-append list f h o)
          | inr (denied, p) ↦ inr (λ a. denied a.1, refused n name c func list (inr p))
        ]
        | inr e ↦ inr (λ a. ground (arith, a.0, e), refused n name c func list (inl e))
      ]

  -- What is found has an operator of the list.
  abbrev FindsOverload : Option (VtabFunction F V × List (VtabFunction F V)) → Type 0
  FindsOverload none = Unit {0}
  FindsOverload (some (f, list)) = IsOverload f.constraint

  find_bind-overload :
      (vtab : V) (n : ℤ) (name : Text) (list : List (VtabFunction F V))
      → AreOverloads list
      → FindsOverload (find_bind vtab n name list)
  unfolding find_bind
  find_bind-overload vtab n name [] h = tt
  find_bind-overload vtab n name (f ∷ list) h =
      let rest = find_bind-overload vtab n name list h.1 in
      elim (Bool-cases (matches n name f)) [
        | inl e ↦ rw (find_bind, e) h.0
        | inr e ↦ elim (Option-cases (find_bind vtab n name list)) [
          | inl r ↦ rw (find_bind, e, r) tt
          | inr ((g, list'), r) ↦ rw (find_bind, e, r) (rw r at rest)
        ]
      ]

  find-overload :
      (vtab : V) (n : ℤ) (name : Text) (list : List (VtabFunction F V))
      → AreOverloads list
      → FindsOverload (find vtab n name list)
  unfolding find
  find-overload vtab n name list h = elim (Option-cases (find_bind vtab n name list)) [
    | inl r ↦ rw (find, r) (find_bind-overload vtab (negsuc 0) name list h)
    | inr (g, r) ↦ rw (find, r) (rw r at (find_bind-overload vtab n name list h))
  ]

  -- For a list of overloads and a name that is UTF-8, SQLite is told 0 exactly when nothing is
  -- found. Otherwise it gets the function that is found, and is told 1 or a number from 150 on,
  -- which is what it takes for an operator.
  vtab_find_function-code :
      (to_str : Text → Option Text) (failed : ℕ) (vtab : V) (n : ℤ) (c_name name : Text)
      (list : List (VtabFunction F V))
      → to_str c_name ≡ some name
      → AreOverloads list
      → let (rc, found) = vtab_find_function to_str failed vtab n c_name list in
        (found ≡ find vtab n name list)
        × (((rc ≡ 0) × (found ≡ none))
            ⊎ (((rc ≡ 1) ⊎ (150 ≤ rc))
                × (f : VtabFunction F V) × (list' : List (VtabFunction F V)) × (found
                    ≡ some (f, list'))))
  unfolding vtab_find_function
  vtab_find_function-code to_str failed vtab n c_name name list e h =
      let o = find-overload vtab n name list h in
      elim (Option-cases (find vtab n name list)) [
        | inl r ↦ rw (vtab_find_function, e, r) (refl, inl (refl, refl))
        | inr ((f, list'), r) ↦
            let k : IsOverload f.constraint = (rw r at o) in
            rw (vtab_find_function, e, r)
              (refl, inr (overload_code-cases f.constraint k, f, list', refl))
      ]
