-- ===== src/Value/Passed.antt =====
-- src/value/passed_ref.rs and the auxiliary data of src/function/context.rs: a Rust value behind a
-- pointer that SQLite holds, with the TypeId by which its type is checked before it is read.
-- A TypeId is a number, and `Val t` are the values of the type with the id t.
pub mod Checking
use mathlib.Core.Path.{subst}
use native.Mathlib.Decide.{ℕ_discrete}
use sqlite3_ext.Prelude.{
  ℕ, List, [], ◌∷◌, ◌==◌, if◌then◌else◌, Option, none, some, Outcome, ok, panic, bind, map_ok,
}
use sqlite3_ext.Prelude.Int.{ℤ, as_i32}
use sqlite3_ext.Version.{Build, match_version}

module _ (Val : ℕ → Type 0) where
  -- `PassedRef<T>` and `AuxData<T>`: both begin with the id, and `stored` is the T of the value that
  -- lies behind it.
  pub record PassedRef : Type 0 where
    pub type_id : ℕ
    pub stored : ℕ
    pub value : Val stored

  -- `PassedRef::new`, and the `AuxData` of `set_aux_data`.
  unfoldable pub new : (t : ℕ) → Val t → PassedRef
  new t value = record { type_id = t; stored = t; value = value }

  -- Reading the value as one of type t; a value of another type is undefined behaviour.
  abbrev pub read_as : (t : ℕ) → PassedRef → Outcome (Val t)
  read_as t p = elim (ℕ_discrete p.stored t) [ yes e ↦ ok (subst Val e p.value) | no _ ↦ panic ]

  -- `PassedRef::get`, and the test of `aux_data`.
  unfoldable pub get : (t : ℕ) → PassedRef → Outcome (Option (Val t))
  get t p = if t == p.type_id then map_ok some (read_as t p) else ok none

  -- `ValueRef::get_ref`, where `pointer` is what sqlite3_value_pointer returns.
  unfoldable pub get_ref : Build → (t : ℕ) → Option PassedRef → Outcome (Option (Val t))
  get_ref b t pointer = elim (match_version b ((3020000, pointer) ∷ []) none) [
    | some p ↦ get t p
    | none ↦ ok none
  ]

  -- SQLite's auxiliary data of the context `C`, by the number of the argument.
  pub record AuxApi (C : Type 0) : Type 0 where
    pub get_auxdata : ℤ → C → Option PassedRef
    pub set_auxdata : ℤ → PassedRef → C → C

  module _ {C : Type 0} (api : AuxApi C) where
    unfoldable pub aux_data : (t : ℕ) → ℕ → C → Outcome (Option (Val t))
    aux_data t idx ctx = elim (api.get_auxdata (as_i32 idx) ctx) [
      | some p ↦ get t p
      | none ↦ ok none
    ]

    unfoldable pub set_aux_data : (t : ℕ) → ℕ → Val t → C → C
    set_aux_data t idx val ctx = api.set_auxdata (as_i32 idx) (new t val) ctx
