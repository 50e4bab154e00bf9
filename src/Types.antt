-- ===== src/Types.antt =====
-- src/types.rs: SQLite's result codes as the crate's errors and back, and src/ffi/mod.rs:
-- handle_error and handle_result, by which every callback answers SQLite. Result codes are
-- never negative, so they are naturals.
pub mod Codes
pub mod Conversion
pub mod Results
use sqlite3_ext.Prelude.{
  ℕ, ◌*◌, ◌/◌, ◌%◌, Bool, ◌||◌, ◌++◌, Option, none, some, ◌==◌, if◌then◌else◌, Outcome, ok, err,
  panic, bind, Error, sqlite, utf8_error, nul_error, version_not_satisfied, module_msg, no_change,
  Text, text,
}
use Codes.{sqlite_ok, sqlite_row, sqlite_done, sqlite_error}

-- The patterns `ffi::SQLITE_OK | ffi::SQLITE_ROW | ffi::SQLITE_DONE`.
abbrev pub is_success : ℕ → Bool
is_success rc = rc == sqlite_ok || rc == sqlite_row || rc == sqlite_done

unfoldable pub from_sqlite : ℕ → Outcome (Unit {0})
from_sqlite rc = if is_success rc then ok tt else err (sqlite rc none)

-- `errmsg` is what sqlite3_errmsg gives for the connection; `to_str` is std's check for UTF-8.
unfoldable pub from_sqlite_desc : (Text → Option Text) → ℕ → Text → Outcome (Unit {0})
from_sqlite_desc to_str rc errmsg =
    if is_success rc
    then ok tt
    else elim (to_str errmsg) [ some msg ↦ err (sqlite rc (some msg)) | none ↦ err utf8_error ]

-- `errstr` is sqlite3_errstr behind its version guard, `show` prints a number in decimal, and
-- `utf8` and `nul` are the messages of the two errors of std.
module _ (errstr : ℕ → Option Text) (show : ℕ → Text) (utf8 nul : Text) where
  -- `impl Display for Error`
  unfoldable pub display : Error → Text
  display (sqlite rc (some desc)) = desc
  display (sqlite rc none) = elim (errstr rc) [
    | some s ↦ s
    | none ↦ text "SQLite error " ++ show rc
  ]
  display utf8_error = utf8
  display nul_error = nul
  display (module_msg s) = s
  display (version_not_satisfied v) =
      text "requires SQLite version "
      ++ (show (v / 1000000)
          ++ (text "."
              ++ (show ((v / 1000) % 1000) ++ (text "." ++ (show (v % 1000) ++ text " or above")))))
  display no_change = text "invalid Error::NoChange"

-- What `msg: *mut *mut c_char` points to: the C string that SQLite will print, or null. The
-- pointer itself may be null, and writing through it then is undefined behaviour.
abbrev pub Slot : Type 0
Slot = Option (Option Text)

abbrev pub write : Slot → Option Text → Outcome Slot
write none s = panic
write (some old) s = ok (some s)

-- `show_error` is `display`, `to_c` is `str_to_sqlite3`.
module _ (show_error : Error → Text) (to_c : Text → Outcome (Option Text)) where
  -- `if let Ok(s) = ffi::str_to_sqlite3(..) { *msg = s }`
  abbrev store : Slot → Text → Outcome Slot
  store msg s = elim (to_c s) [ ok p ↦ write msg p | err _ ↦ ok msg | panic ↦ panic ]

  -- `if !msg.is_null() { .. }`
  abbrev store_checked : Slot → Text → Outcome Slot
  store_checked none s = ok none
  store_checked (some old) s = store (some old) s

  abbrev reply : ℕ → Outcome Slot → Outcome (ℕ × Slot)
  reply code r = bind r λ msg. ok (code, msg)

  unfoldable pub into_sqlite : Error → Slot → Outcome (ℕ × Slot)
  into_sqlite (sqlite code (some s)) msg = reply code (store msg s)
  into_sqlite (sqlite code none) msg = ok (code, msg)
  into_sqlite e msg = reply sqlite_error (store_checked msg (show_error e))

  unfoldable pub handle_error : Error → Slot → Outcome (ℕ × Slot)
  unfolding into_sqlite
  handle_error e msg = into_sqlite e msg

  unfoldable pub handle_result : Outcome (Unit {0}) → Slot → Outcome (ℕ × Slot)
  unfolding handle_error
  handle_result (ok _) msg = ok (sqlite_ok, msg)
  handle_result (err e) msg = handle_error e msg
  handle_result panic msg = panic
