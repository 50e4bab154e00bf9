-- ===== src/IndexInfo/Constraints.antt =====
-- The constraints and the sort order of a query plan, and the iterators over them.
use sqlite3_ext.Prelude.{
  ℕ, zero, suc, ◌+◌, ◌-◌, ◌%◌, ◌^◌, Bool, false, not, List, [], ◌∷◌, ◌==◌, ltb, if◌then◌else◌,
  Outcome, ok, err, panic, bind, map_ok, Option, none, some, get_elem?, set, Text,
}
use sqlite3_ext.Prelude.Int.{ℤ, pos, negsuc, ◌-ℤ◌, fits}
use sqlite3_ext.Version.{Build, match_version, require_version}
use sqlite3_ext.Types.{from_sqlite}
use sqlite3_ext.Types.Codes.{sqlite_notfound}
use sqlite3_ext.IndexInfo.{Usage, IndexInfo, to_i32, to_unsigned, as_flag}

-- What is read past the end of a C array is undefined.
abbrev pub at {ℓ} : {A : Type ℓ} → List A → ℕ → Outcome A
at xs i = elim (get_elem? xs i) [ some x ↦ ok x | none ↦ panic ]

-- `IndexInfoConstraint` is a position in the plan.
abbrev pub column : IndexInfo → ℕ → Outcome ℤ
column info i = map_ok (λ c. c.i_column) (at info.a_constraint i)

abbrev pub usable : IndexInfo → ℕ → Outcome Bool
usable info i = map_ok (λ c. not (c.usable == 0)) (at info.a_constraint i)

-- `x - 1` overflows at i32::MIN.
abbrev pub decoded : ℤ → Outcome (Option ℕ)
decoded x = if fits 31 (x -ℤ pos 1) then ok (some (to_unsigned 32 (x -ℤ pos 1))) else panic

abbrev pub decoded_argv : ℤ → Outcome (Option ℕ)
decoded_argv (pos zero) = ok none
decoded_argv (pos (suc n)) = decoded (pos (suc n))
decoded_argv (negsuc n) = decoded (negsuc n)

unfoldable pub argv_index : IndexInfo → ℕ → Outcome (Option ℕ)
argv_index info i = bind (at info.a_constraint_usage i) λ u. decoded_argv u.argv_index

-- `i + 1` overflows at u32::MAX.
abbrev pub encoded : Option ℕ → Outcome ℤ
encoded none = ok (pos 0)
encoded (some i) = if ltb (i + 1) (2 ^ 32) then ok (to_i32 (i + 1)) else panic

abbrev pub set_usage : ℕ → Usage → IndexInfo → IndexInfo
set_usage i u info = record info { a_constraint_usage = set info.a_constraint_usage i u }

unfoldable pub set_argv_index : ℕ → Option ℕ → IndexInfo → Outcome IndexInfo
set_argv_index i idx info =
    bind (at info.a_constraint_usage i)
      λ u. bind (encoded idx) λ x. ok (set_usage i (record u { argv_index = x }) info)

unfoldable pub omit : IndexInfo → ℕ → Outcome Bool
omit info i = map_ok (λ u. not (u.omit == 0)) (at info.a_constraint_usage i)

unfoldable pub set_omit : ℕ → Bool → IndexInfo → Outcome IndexInfo
set_omit i val info =
    map_ok (λ u. set_usage i (record u { omit = as_flag val }) info) (at info.a_constraint_usage i)

abbrev pub order_column : IndexInfo → ℕ → Outcome ℤ
order_column info i = map_ok (λ o. o.i_column) (at info.a_order_by i)

abbrev pub order_desc : IndexInfo → ℕ → Outcome Bool
order_desc info i = map_ok (λ o. not (o.desc == 0)) (at info.a_order_by i)

-- sqlite3_vtab_rhs_value, sqlite3_vtab_collation and sqlite3_vtab_in answer for a constraint of
-- the plan: a code with a value, a C string, and whether the values can come all at once.
unfoldable pub rhs : {V : Type 0} → Build → (ℕ → ℕ × V) → ℕ → Outcome V
rhs b vtab_rhs_value i =
    let found = bind (from_sqlite (vtab_rhs_value i).0) (λ _. ok (vtab_rhs_value i).1) in
    match_version b ((3038000, found) ∷ []) (err sqlite_notfound)

unfoldable pub collation : Build → (ℕ → Text) → (Text → Outcome Text) → ℕ → Outcome Text
collation b vtab_collation to_str i = require_version b 3022000 (to_str (vtab_collation i))

-- The last argument of sqlite3_vtab_in: ask only, 1 to want the values, 0 not to.
unfoldable pub value_list_available : Build → (ℕ → ℤ → Bool) → ℕ → Bool
value_list_available b vtab_in i = match_version b ((3038000, vtab_in i (negsuc 0)) ∷ []) false

unfoldable pub set_value_list_wanted : Build → (ℕ → ℤ → Bool) → ℕ → Bool → Bool
set_value_list_wanted b vtab_in i val =
    match_version b ((3038000, vtab_in i (pos (as_flag val))) ∷ []) false

-- An iterator is the position it is at; `n` is `nConstraint` or `nOrderBy`.
abbrev pub start_position : ℕ
start_position = 2 ^ 64 - 1

unfoldable pub next : ℕ → ℕ → Option ℕ × ℕ
next n position =
    let pos = (position + 1) % 2 ^ 64 in if ltb pos n then (some pos, pos) else (none, position)

-- `remaining` is a usize, and a subtraction that overflows panics.
unfoldable pub size_hint : ℕ → ℕ → Outcome ℕ
size_hint n position =
    if ltb n ((position + 1) % 2 ^ 64) then panic else ok (n - (position + 1) % 2 ^ 64)

-- `.collect()`: `none` means that the fuel ran out.
unfoldable pub positions : ℕ → ℕ → ℕ → Option (List ℕ)
positions n zero p = none
positions n (suc fuel) p =
    let (item, p') = next n p in
    let rest = positions n fuel p' in
    elim item [ none ↦ some [] | some x ↦ elim rest [ some xs ↦ some (x ∷ xs) | none ↦ none ] ]
