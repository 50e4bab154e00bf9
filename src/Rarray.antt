-- ===== src/Rarray.antt =====
-- examples/rarray.rs: the table-valued function rarray, whose rows are the values of an array that
-- is passed behind a pointer. An i64 that overflows is a panic.
pub mod Rows
use sqlite3_ext.Prelude.{
  ℕ, zero, suc, ◌-◌, ◌^◌, Bool, List, [], ◌∷◌, leb, if◌then◌else◌, length, get_elem?, Option, none,
  some, Outcome, ok, err, panic, bind, map_ok, unwrap,
}
use sqlite3_ext.Prelude.Int.{ℤ, pos, negsuc, ◌+ℤ◌, eqb_ℤ, as_i32}
use sqlite3_ext.Version.{Build}
use sqlite3_ext.Value.Passed.{PassedRef, get_ref}
use sqlite3_ext.Series.{checked}

-- `struct Cursor`; `P` is ArrayPointer.
pub record Cursor (P : Type 0) : Type 0 where
  pub rowid : ℤ
  pub array : Option P

-- `Cursor::default()`, by `open`
abbrev pub default_cursor : {P : Type 0} → Cursor P
default_cursor = record { rowid = pos 0; array = none }

-- `rowid as usize`
abbrev as_usize : ℤ → ℕ
as_usize (pos n) = n
as_usize (negsuc n) = 2 ^ 64 - suc n

-- `t` is the TypeId of ArrayPointer, and `items` the slice to which such a pointer leads.
module _ (Val : ℕ → Type 0) (t : ℕ) {A : Type 0} (items : Val t → List A) where
  abbrev first_array : Build → List (Option (PassedRef Val)) → Outcome (Option (Val t))
  first_array b [] = ok none
  first_array b (arg ∷ args) = get_ref Val b t arg

  -- An argument is what sqlite3_value_pointer returns for it.
  unfoldable pub filter :
      Build → List (Option (PassedRef Val)) → Cursor (Val t) → Outcome (Cursor (Val t))
  filter b args c = map_ok (λ a. record { rowid = pos 0; array = a }) (first_array b args)

  unfoldable pub next : Cursor (Val t) → Outcome (Cursor (Val t))
  next c = map_ok (λ r. record c { rowid = r }) (checked (c.rowid +ℤ pos 1))

  abbrev len : Option (Val t) → ℕ
  len (some a) = length (items a)
  len none = 0

  unfoldable pub eof : Cursor (Val t) → Bool
  eof c = leb (len c.array) (as_usize c.rowid)

  abbrev element : ℕ → Option (Val t) → Outcome (Option A)
  element i (some a) = map_ok some (unwrap (get_elem? (items a) i))
  element i none = ok none

  -- The value that `set_result` gets, if it is called.
  unfoldable pub column : ℕ → Cursor (Val t) → Outcome (Option (Option A))
  column idx c =
      if eqb_ℤ (as_i32 idx) (pos 1)
      then ok none
      else map_ok some (element (as_usize c.rowid) c.array)

  -- SQLite's loop over a cursor after `filter`: it reads the value of each row until `eof`. `none`
  -- means that the fuel ran out.
  unfoldable pub scan : ℕ → Cursor (Val t) → Option (Outcome (List (Option (Option A))))
  unfolding eof
  scan zero c = none
  scan (suc fuel) c =
      let rest : Option (Outcome (List (Option (Option A)))) = elim (next c) [
        | ok c' ↦ scan fuel c'
        | err e ↦ some (err e)
        | panic ↦ some panic
      ] in
      if eof c
      then some (ok [])
      else elim rest [ some r ↦ some (bind (column 0 c) λ x. map_ok (◌∷◌ x) r) | none ↦ none ]

  -- `open` and `filter`, then the loop.
  unfoldable pub run :
      ℕ → Build → List (Option (PassedRef Val)) → Option (Outcome (List (Option (Option A))))
  run fuel b args = elim (filter b args default_cursor) [
    | ok c ↦ scan fuel c
    | err e ↦ some (err e)
    | panic ↦ some panic
  ]
