-- ===== src/Function/Registration.antt =====
-- src/function/mod.rs: how functions and collations are given to a connection, and src/vtab/module.rs:
-- create_module. Each hands SQLite a Rust object, behind a pointer that SQLite is to free.
pub mod Ownership
use sqlite3_ext.Prelude.{
  ℕ, Bool, true, false, List, [], ◌∷◌, ◌++◌, ◌==◌, if◌then◌else◌, Option, none, some, Outcome, ok,
  err, panic, bind, Text,
}
use sqlite3_ext.Prelude.Int.{ℤ}
use sqlite3_ext.Version.{Build, match_version}
use sqlite3_ext.Ffi.{to_bytes}
use sqlite3_ext.Types.{from_sqlite_desc}
use sqlite3_ext.Types.Codes.{sqlite_ok}
use sqlite3_ext.Function.Options.{FunctionOptions}
use sqlite3_ext.Function.Results.{contains_nul}
use sqlite3_ext.Vtab.Modules.{Module}

-- The callbacks of a function, by the name of the function of stubs.rs behind each pointer.
pub data Callbacks : Type 0 where
  scalar : Callbacks
  aggregate : Callbacks
  window : Callbacks

-- SQLite's functions on a connection in the state `S`, which is the whole of the memory that they
-- and the crate change: the code, and the state afterwards. The object `T` that is handed over is
-- on the heap. Where there is a destructor, it is the crate's drop_boxed.
pub record RegisterApi (S T : Type 0) : Type 0 where
  pub create_function_v2 : Text → FunctionOptions → Callbacks → T → S → ℕ × S
  pub create_function : Text → FunctionOptions → Callbacks → T → S → ℕ × S
  -- sqlite3_create_function with no callbacks and no object
  pub remove_function : Text → ℤ → S → ℕ × S
  pub create_window_function : Text → FunctionOptions → Callbacks → T → S → ℕ × S
  pub create_collation_v2 : Text → T → S → ℕ × S
  pub collation_needed : T → S → ℕ × S
  pub create_module_v2 : Text → Module → T → S → ℕ × S
  pub overload_function : Text → ℤ → S → ℕ × S
  pub errmsg : S → Text
  -- std's check for UTF-8
  pub to_str : Text → Option Text
  -- `drop(Box::from_raw(object))`
  pub drop_box : T → S → S

-- `CString::from_vec_unchecked(name.as_bytes().into())`: SQLite reads the name up to a nul.
abbrev pub c_name : Text → Text
c_name name = to_bytes (name ++ (0 ∷ []))

module _ {S T : Type 0} (api : RegisterApi S T) where
  -- `Error::from_sqlite_desc(rc, guard)`
  abbrev pub answer : ℕ × S → Outcome (Unit {0}) × S
  answer (rc, s) = (from_sqlite_desc api.to_str rc (api.errmsg s), s)

  unfoldable pub create_overloaded_function : Text → FunctionOptions → S → Outcome (Unit {0}) × S
  create_overloaded_function name opts s =
      answer (api.overload_function (c_name name) opts.n_args s)

  unfoldable pub create_scalar_function_object :
      Build → Text → FunctionOptions → T → S → Outcome (Unit {0}) × S
  create_scalar_function_object b name opts func s = answer (
      match_version b ((3007003, api.create_function_v2 (c_name name) opts scalar func s) ∷ [])
        (api.create_function (c_name name) opts scalar func s))

  unfoldable pub create_legacy_aggregate_function :
      Build → Text → FunctionOptions → T → S → Outcome (Unit {0}) × S
  create_legacy_aggregate_function b name opts user_data s = answer (
      match_version b
        ((3007003, api.create_function_v2 (c_name name) opts aggregate user_data s) ∷ [])
        (api.create_function (c_name name) opts aggregate user_data s))

  unfoldable pub create_aggregate_function :
      Build → Text → FunctionOptions → T → S → Outcome (Unit {0}) × S
  create_aggregate_function b name opts user_data s =
      match_version b
        ((3025000, answer (api.create_window_function (c_name name) opts window user_data s)) ∷ [])
        (create_legacy_aggregate_function b name opts user_data s)

  unfoldable pub remove_function : Text → ℤ → S → Outcome (Unit {0}) × S
  remove_function name n_args s = answer (api.remove_function (c_name name) n_args s)

  -- When the call fails, the code itself drops the closure.
  abbrev pub dropped_on_failure : T → ℕ × S → ℕ × S
  dropped_on_failure func (rc, s) = (rc, if rc == sqlite_ok then s else api.drop_box func s)

  unfoldable pub create_collation : Text → T → S → Outcome (Unit {0}) × S
  create_collation name func s =
      answer (dropped_on_failure func (api.create_collation_v2 (c_name name) func s))

  unfoldable pub set_collation_needed_func : T → S → Outcome (Unit {0}) × S
  set_collation_needed_func func s = answer (api.collation_needed func s)

  -- `Connection::create_module`, where `CString::new(name).unwrap()` panics at a nul.
  unfoldable pub create_module : Text → Module → T → S → Outcome (Unit {0}) × S
  create_module name vtab handle s =
      if contains_nul name
      then (panic, s)
      else answer (api.create_module_v2 (c_name name) vtab handle s)
