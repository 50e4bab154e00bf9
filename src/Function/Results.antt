-- ===== src/Function/Results.antt =====
-- src/function/context.rs: what each type of result asks of SQLite (ToContextResult).
pub mod Storing
pub mod Pointing
use sqlite3_ext.Prelude.{
  ℕ, ◌+◌, ◌-◌, ◌%◌, ◌^◌, Bool, true, false, ◌||◌, List, [], ◌∷◌, ◌==◌, ltb, if◌then◌else◌, length,
  Option, none, some, Outcome, ok, err, panic, bind, map_ok, Error, sqlite, no_change, Text,
}
use sqlite3_ext.Prelude.Int.{ℤ, pos, as_i32}
use sqlite3_ext.Version.{Build, match_version}
use sqlite3_ext.Value.Blob.{Blob, RawPtr, into_raw, len}
use sqlite3_ext.Value.Pointers.{UnsafePtr, to_bytes}
use sqlite3_ext.Value.Access.{Value, integer, float, text, blob, null}

-- What SQLite is told about the memory behind a pointer: it is static, to be copied, or to be
-- freed by one of the crate's functions.
pub data Destructor : Type 0 where
  static transient drop_cstring drop_blob : Destructor

-- The functions that set the result of a context, whose state is a `C`. Text and BLOBs are given
-- as the memory behind the pointer, with their length. `D` stands for f64, `V` for a value.
pub record ContextApi (C D V : Type 0) : Type 0 where
  pub result_null : C → C
  pub result_int : ℤ → C → C
  pub result_int64 : ℤ → C → C
  pub result_double : D → C → C
  pub result_text64 : List ℕ → ℕ → Destructor → C → C
  pub result_text : List ℕ → ℤ → Destructor → C → C
  pub result_blob64 : RawPtr → ℕ → Destructor → C → C
  pub result_blob : RawPtr → ℤ → Destructor → C → C
  pub result_error : List ℕ → ℤ → C → C
  pub result_error_code : ℕ → C → C
  pub result_subtype : ℕ → C → C
  pub result_value : V → C → C

abbrev pub contains_nul : List ℕ → Bool
contains_nul [] = false
contains_nul (x ∷ xs) = x == 0 || contains_nul xs

abbrev pub append_nul : List ℕ → List ℕ
append_nul [] = 0 ∷ []
append_nul (x ∷ xs) = x ∷ append_nul xs

-- `CString::new(val).unwrap().into_raw()`
unfoldable pub cstring_new : List ℕ → Outcome (List ℕ)
cstring_new val = if contains_nul val then panic else ok (append_nul val)

abbrev pub slice_ptr : List ℕ → RawPtr
slice_ptr val = record { block = val; offset = 0 }

module _ {C D V : Type 0} (api : ContextApi C D V) (b : Build) where
  unfoldable pub assign_unit : C → C
  assign_unit ctx = api.result_null ctx

  -- `val as i32`
  unfoldable pub assign_bool : Bool → C → C
  assign_bool val ctx = api.result_int (pos (if val then 1 else 0)) ctx

  unfoldable pub assign_i32 : ℤ → C → C
  assign_i32 val ctx = api.result_int val ctx

  unfoldable pub assign_i64 : ℤ → C → C
  assign_i64 val ctx = api.result_int64 val ctx

  unfoldable pub assign_f64 : D → C → C
  assign_f64 val ctx = api.result_double val ctx

  -- `&'static str`
  unfoldable pub assign_str : Text → C → C
  assign_str val ctx =
      match_version b ((3008007, api.result_text64 val (length val) static ctx) ∷ [])
        (api.result_text val (as_i32 (length val)) static ctx)

  unfoldable pub assign_string : Text → C → Outcome C
  assign_string val ctx = bind (cstring_new val) λ cstring. ok (
      match_version b ((3008007, api.result_text64 cstring (length val) drop_cstring ctx) ∷ [])
        (api.result_text cstring (as_i32 (length val)) drop_cstring ctx))

  unfoldable pub assign_blob : Blob → C → Outcome C
  assign_blob val ctx = bind (len val) λ n. ok (
      match_version b ((3008007, api.result_blob64 (into_raw val) n drop_blob ctx) ∷ [])
        (api.result_blob (into_raw val) (as_i32 n) drop_blob ctx))

  unfoldable pub assign_error : (Error → Text) → Error → C → C
  assign_error show_error (sqlite code (some desc)) ctx =
      api.result_error desc (as_i32 (length desc)) ctx
  assign_error show_error (sqlite code none) ctx = api.result_error_code code ctx
  assign_error show_error no_change ctx = ctx
  assign_error show_error e ctx =
      let msg = show_error e in api.result_error msg (as_i32 (length msg)) ctx

  -- `&ValueRef` and `&mut ValueRef`
  unfoldable pub assign_value_ref : V → C → C
  assign_value_ref val ctx = api.result_value val ctx

  -- `&[u8]`, to which arrays pass on.
  unfoldable pub assign_slice : List ℕ → C → C
  assign_slice val ctx =
      match_version b ((3008007, api.result_blob64 (slice_ptr val) (length val) transient ctx) ∷ [])
        (api.result_blob (slice_ptr val) (as_i32 (length val)) transient ctx)

  unfoldable pub assign_option : {T : Type 0} → (T → C → Outcome C) → Option T → C → Outcome C
  assign_option assign (some x) ctx = assign x ctx
  assign_option assign none ctx = ok (assign_unit ctx)

  -- `Result<T>`, with the message of an error; a call that panicked has no result.
  unfoldable pub assign_result :
      {T : Type 0} → (Error → Text) → (T → C → Outcome C) → Outcome T → C → Outcome C
  assign_result show_error assign (ok x) ctx = assign x ctx
  assign_result show_error assign (err x) ctx = ok (assign_error show_error x ctx)
  assign_result show_error assign panic ctx = panic

  unfoldable pub assign_value : Value D → C → Outcome C
  assign_value (integer x) ctx = ok (assign_i64 x ctx)
  assign_value (float x) ctx = ok (assign_f64 x ctx)
  assign_value (text x) ctx = assign_string x ctx
  assign_value (blob x) ctx = assign_blob x ctx
  assign_value null ctx = ok (assign_unit ctx)

  -- `UnsafePtr<T>`, where `size` is the size of a reference.
  unfoldable pub assign_ptr : ℕ → UnsafePtr → C → C
  assign_ptr size p ctx =
      let stored = assign_slice (to_bytes size p) ctx in
      match_version b ((3009000, api.result_subtype p.subtype stored) ∷ []) stored

  -- `PassedRef<T>`, where `result_pointer` is sqlite3_result_pointer with the boxed value.
  unfoldable pub assign_passed_ref : {P : Type 0} → (P → C → C) → P → C → C
  assign_passed_ref result_pointer p ctx =
      match_version b ((3020000, result_pointer p ctx) ∷ []) ctx
