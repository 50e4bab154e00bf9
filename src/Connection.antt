-- ===== src/Connection.antt =====
-- src/connection.rs: opening and closing a database, and loading an extension. `Db` is the state
-- of SQLite behind the pointer, and the functions of SQLite are parameters on it.
pub mod Loading
pub mod Opening
pub mod Flags
use sqlite3_ext.Prelude.{
  ℕ, Bool, true, false, not, ◌||◌, List, [], ◌∷◌, ◌==◌, if◌then◌else◌, Outcome, ok, err, panic,
  bind, map_ok, ok_or, unwrap, Option, none, some, Error, sqlite, nul_error, Method, ◌>>=◌, ◌>>◌,
  pure, throw, lift, gets, attempt, Text,
}
use sqlite3_ext.Version.{Build, match_version, require_version, supports}
use sqlite3_ext.Types.{from_sqlite, from_sqlite_desc}

-- `CString::new`: a nul inside is an error.
unfoldable pub has_nul : Text → Bool
has_nul [] = false
has_nul (c ∷ s) = c == 0 || has_nul s

unfoldable pub c_string : Text → Outcome Text
c_string s = if has_nul s then err nul_error else ok s

abbrev pub c_string_opt : Option Text → Outcome (Option Text)
c_string_opt none = ok none
c_string_opt (some s) = map_ok some (c_string s)

-- The pointer to the name of the entry point. In `entry.map_or_else(|| null(), |s| s.as_ptr())` the
-- closure owns the CString and drops it, so the pointer is one to memory that is freed.
pub data Entry : Type 0 where
  null_entry dangling_entry : Entry

abbrev pub entry_pointer : Option Text → Entry
entry_pointer none = null_entry
entry_pointer (some s) = dangling_entry

-- sqlite3_db_config for SQLITE_DBCONFIG_ENABLE_LOAD_EXTENSION, to ask (-1) and to set, and for
-- SQLITE_DBCONFIG_DEFENSIVE; sqlite3_load_extension with the code, the message and what became of
-- the database; `to_str` is std's check for UTF-8.
pub record LoadApi (Db : Type 0) : Type 0 where
  pub ask_enabled : Db → ℕ × ℕ
  pub set_enabled : ℕ → Method Db ℕ
  pub load : Text → Entry → Db → ℕ × Option Text × Db
  pub set_defensive : ℕ → Db → ℕ × Db
  pub errmsg : Db → Text
  pub to_str : Text → Option Text

module _ {Db : Type 0} (b : Build) (api : LoadApi Db) where
  -- `Error::from_sqlite(..)?` on a call that sets the option.
  unfoldable pub config : ℕ → Method Db (Unit {0})
  config v = api.set_enabled v >>= λ rc. lift (from_sqlite rc)

  -- `LoadExtensionGuard::new`: whether loading was enabled before.
  abbrev guard_on : Method Db Bool
  guard_on = do
    was ← gets api.ask_enabled
    lift (from_sqlite was.0)
    config 1
    pure (not (was.1 == 0))

  unfoldable pub guard_new : Method Db Bool
  guard_new = match_version b ((3013000, guard_on) ∷ []) (pure true)

  -- `.unwrap()`
  abbrev unwrapped : Outcome (Unit {0}) → Method Db (Unit {0})
  unwrapped (ok _) = pure tt
  unwrapped r = lift panic

  -- `drop` of the guard
  unfoldable pub guard_drop : Bool → Method Db (Unit {0})
  guard_drop was_enabled =
      if was_enabled
      then pure tt
      else match_version b ((3013000, attempt (config 0) unwrapped) ∷ []) (pure tt)

  -- The answer of sqlite3_load_extension; its message is dropped when it is not UTF-8.
  abbrev load_answer : ℕ → Option Text → Outcome (Unit {0})
  load_answer rc message =
      if rc == 0
      then ok tt
      else err (sqlite rc (elim message [ some m ↦ api.to_str m | none ↦ none ]))

  abbrev load_with : Text → Entry → Method Db (Unit {0})
  load_with path entry db =
      let (rc, message, db') = api.load path entry db in (load_answer rc message, db')

  -- The statement `LoadExtensionGuard::new(&guard)?;` binds no variable, so the guard is dropped
  -- at its end.
  abbrev load_body : Text → Option Text → Method Db (Unit {0})
  load_body path entry = do
    was_enabled ← guard_new
    guard_drop was_enabled
    p ← lift (c_string path)
    e ← lift (c_string_opt entry)
    load_with p (entry_pointer e)

  unfoldable pub load_extension : Text → Option Text → Method Db (Unit {0})
  load_extension path entry db =
      if supports b 3008007
      then load_body path entry db
      else (require_version b 3008007 (ok tt), db)

  unfoldable pub db_config_defensive : Bool → Method Db (Unit {0})
  db_config_defensive enable db =
      let (rc, db') = api.set_defensive (if enable then 1 else 0) db in
      match_version b ((3026000, (from_sqlite_desc api.to_str rc (api.errmsg db'), db')) ∷ [])
        (ok tt, db)

-- The pointer to a database: sqlite3_open_v2 sets it also when it fails, and to null when it
-- has no memory. sqlite3_close of null does nothing and succeeds.
pub record OpenApi (Db : Type 0) : Type 0 where
  pub open_v2 : Text → ℕ → ℕ × Option Db
  pub close : Db → ℕ

module _ {Db : Type 0} (api : OpenApi Db) where
  abbrev pub sqlite3_close : Option Db → ℕ
  sqlite3_close none = 0
  sqlite3_close (some db) = api.close db

  -- `Err(e)` of `_open`: the half open database is closed, and a failure of that panics.
  abbrev give_up : Error → Option Db → Outcome (Option Db)
  give_up e db = elim (from_sqlite (sqlite3_close db)) [
    | ok _ ↦ err e
    | err _ ↦ panic
    | panic ↦ panic
  ]

  -- `_open`. A `Database` is its pointer.
  unfoldable pub open_filename : Text → ℕ → Outcome (Option Db)
  open_filename filename flags =
      let (rc, db) = api.open_v2 filename flags in
      elim (from_sqlite rc) [ ok _ ↦ ok db | err e ↦ give_up e db | panic ↦ panic ]

  -- `path_to_cstring` panics on a nul.
  unfoldable pub open_with_flags : Text → ℕ → Outcome (Option Db)
  open_with_flags path flags = elim (c_string path) [
    | ok filename ↦ open_filename filename flags
    | err e ↦ panic
    | panic ↦ panic
  ]

  -- `_close`: the pointer is null afterwards, if that succeeded.
  unfoldable pub close_mut : Method (Option Db) (Unit {0})
  close_mut db = elim (from_sqlite (sqlite3_close db)) [
    | ok _ ↦ (ok tt, none)
    | err e ↦ (err e, db)
    | panic ↦ (panic, db)
  ]

  -- `drop` of a Database; while the thread unwinds, the error is only printed.
  unfoldable pub drop_database : Bool → Method (Option Db) (Unit {0})
  drop_database panicking = attempt close_mut λ r. elim r [
    | ok _ ↦ pure tt
    | err e ↦ if panicking then pure tt else lift panic
    | panic ↦ lift panic
  ]

  -- `close` consumes the database. On success it is dropped; on an error it is given back.
  unfoldable pub close : Option Db → Outcome (Unit {0}) × Option (Option Db)
  close db =
      let (r, db') = close_mut db in
      elim r [
        | ok _ ↦ ((drop_database false db').0, none)
        | err e ↦ (err e, some db')
        | panic ↦ (panic, none)
      ]
