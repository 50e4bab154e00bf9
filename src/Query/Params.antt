-- ===== src/Query/Params.antt =====
-- src/query/params.rs: how a value of each type is bound to a parameter of a statement (ToParam),
-- by position or by name.
pub mod Bound
use sqlite3_ext.Prelude.{
  ℕ, Bool, List, [], ◌∷◌, ◌==◌, if◌then◌else◌, length, Option, none, some, Outcome, ok, err, panic,
  version_not_satisfied, Text,
}
use sqlite3_ext.Prelude.Int.{ℤ, pos, as_i32}
use sqlite3_ext.Version.{Build, match_version}
use sqlite3_ext.Types.{from_sqlite}
use sqlite3_ext.Types.Codes.{sqlite_range}
use sqlite3_ext.Value.Blob.{Blob, RawPtr, into_raw, len}
use sqlite3_ext.Value.Access.{Value, integer, float, text, blob, null}
use sqlite3_ext.Function.Results.{Destructor, transient, drop_blob, slice_ptr, contains_nul}

-- The functions sqlite3_bind_* on a statement in the state `S`: the code, and the statement
-- afterwards. `D` stands for f64, `V` for a value of SQLite, `P` for what a PassedRef holds.
pub record BindApi (S D V P : Type 0) : Type 0 where
  pub bind_null : ℕ → S → ℕ × S
  pub bind_int : ℕ → ℤ → S → ℕ × S
  pub bind_int64 : ℕ → ℤ → S → ℕ × S
  pub bind_double : ℕ → D → S → ℕ × S
  pub bind_text64 : ℕ → List ℕ → ℕ → Destructor → S → ℕ × S
  pub bind_text : ℕ → List ℕ → ℤ → Destructor → S → ℕ × S
  pub bind_blob64 : ℕ → RawPtr → ℕ → Destructor → S → ℕ × S
  pub bind_blob : ℕ → RawPtr → ℤ → Destructor → S → ℕ × S
  pub bind_value : ℕ → V → S → ℕ × S
  pub bind_pointer : ℕ → P → S → ℕ × S
  -- sqlite3_bind_parameter_index, which is 0 for a name that the statement does not have
  pub parameter_index : Text → S → ℕ

-- `Error::from_sqlite` of a code, beside the statement.
abbrev pub checked_code : {S : Type 0} → ℕ × S → Outcome (Unit {0}) × S
checked_code (rc, s) = (from_sqlite rc, s)

module _ {S D V P : Type 0} (api : BindApi S D V P) (b : Build) where
  unfoldable pub bind_unit : ℕ → S → Outcome (Unit {0}) × S
  bind_unit position s = checked_code (api.bind_null position s)

  unfoldable pub bind_bool : Bool → ℕ → S → Outcome (Unit {0}) × S
  bind_bool val position s = checked_code (api.bind_int position (pos (if val then 1 else 0)) s)

  unfoldable pub bind_i64 : ℤ → ℕ → S → Outcome (Unit {0}) × S
  bind_i64 val position s = checked_code (api.bind_int64 position val s)

  unfoldable pub bind_f64 : D → ℕ → S → Outcome (Unit {0}) × S
  bind_f64 val position s = checked_code (api.bind_double position val s)

  -- The length of the BLOB is read first; a BLOB whose allocation is too short panics there.
  unfoldable pub bind_blob : Blob → ℕ → S → Outcome (Unit {0}) × S
  bind_blob val position s = elim (len val) [
    | ok n ↦ checked_code (
        match_version b ((3008007, api.bind_blob64 position (into_raw val) n drop_blob s) ∷ [])
          (api.bind_blob position (into_raw val) (as_i32 n) drop_blob s))
    | err e ↦ (err e, s)
    | panic ↦ (panic, s)
  ]

  -- `&str`, to which a String passes on.
  unfoldable pub bind_str : Text → ℕ → S → Outcome (Unit {0}) × S
  bind_str val position s = checked_code (
      match_version b ((3008007, api.bind_text64 position val (length val) transient s) ∷ [])
        (api.bind_text position val (as_i32 (length val)) transient s))

  -- `&ValueRef` and `&mut ValueRef`
  unfoldable pub bind_value_ref : V → ℕ → S → Outcome (Unit {0}) × S
  bind_value_ref val position s = checked_code (api.bind_value position val s)

  -- `&[u8]`, to which arrays pass on.
  unfoldable pub bind_slice : List ℕ → ℕ → S → Outcome (Unit {0}) × S
  bind_slice val position s = checked_code (
      match_version b
        ((3008007, api.bind_blob64 position (slice_ptr val) (length val) transient s) ∷ [])
        (api.bind_blob position (slice_ptr val) (as_i32 (length val)) transient s))

  unfoldable pub bind_value : Value D → ℕ → S → Outcome (Unit {0}) × S
  bind_value (integer x) position s = bind_i64 x position s
  bind_value (float x) position s = bind_f64 x position s
  bind_value (text x) position s = bind_str x position s
  bind_value (blob x) position s = bind_blob x position s
  bind_value null position s = bind_unit position s

  -- What binding a value of some type does.
  abbrev pub ToParam : Type 0 → Type 0
  ToParam T = T → ℕ → S → Outcome (Unit {0}) × S

  unfoldable pub bind_option : {T : Type 0} → ToParam T → ToParam (Option T)
  bind_option bind_param (some x) position s = bind_param x position s
  bind_option bind_param none position s = bind_unit position s

  unfoldable pub bind_passed_ref : ToParam P
  bind_passed_ref val position s =
      match_version b ((3020000, checked_code (api.bind_pointer position val s)) ∷ [])
        (err (version_not_satisfied 3020000), s)

  -- `Statement::parameter_position`: `CString::new(name).ok()`, then NonZeroI32.
  unfoldable pub parameter_position : Text → S → Option ℕ
  parameter_position name s =
      if contains_nul name
      then none
      else let index = api.parameter_index name s in if index == 0 then none else some index

  -- `(K, V)`; the position that it is called with is not looked at.
  unfoldable pub bind_named : {T : Type 0} → ToParam T → ToParam (Text × T)
  bind_named bind_param (name, val) position s = elim (parameter_position name s) [
    | some found ↦ bind_param val found s
    | none ↦ (err sqlite_range, s)
  ]
