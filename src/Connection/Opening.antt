-- ===== src/Connection/Opening.antt =====
-- The life of a database pointer.
use sqlite3_ext.Prelude.{
  ℕ, ◌≡◌, true, false, Outcome, ok, err, panic, Option, none, some, arith, sqlite, Text,
  if◌then◌else◌,
}
use sqlite3_ext.Types.{from_sqlite, is_success}
use sqlite3_ext.Connection.{
  OpenApi, sqlite3_close, open_filename, open_with_flags, close_mut, close, drop_database, c_string,
  has_nul,
}

module _ {Db : Type 0} (api : OpenApi Db) where
  -- What `open_with_flags` does for each answer of SQLite: the path has no nul.
  abbrev opened : ℕ → Option Db → Outcome (Option Db)
  opened rc db =
      if is_success rc
      then ok db
      else if is_success (sqlite3_close api db)
      then err (sqlite rc none)
      else panic

  -- Closing a database succeeds exactly when SQLite's close does, and then the drop that follows
  -- does nothing. When it fails, the caller has the same database back, and can close it again;
  -- dropping it instead panics, except while the thread unwinds.
  pub close-drop_database :
      (db : Option Db) (rc : ℕ)
      → sqlite3_close api db ≡ rc
      → (close api db ≡ (if is_success rc then (ok tt, none) else (err (sqlite rc none), some db)))
        × (drop_database api true db ≡ (ok tt, if is_success rc then none else db))
        × (drop_database api false db ≡ (if is_success rc then (ok tt, none) else (panic, db)))
  unfolding close close_mut drop_database from_sqlite
  close-drop_database db rc h = (ground arith, ground arith, ground arith)

  -- A path with no nul opens as SQLite answers. When the answer is an error the pointer that
  -- SQLite gave, if any, is closed before the error is returned, and a failure of that panics.
  open_with_flags-outcome :
      (path : Text) (flags rc : ℕ) (db : Option Db)
      → has_nul path ≡ false
      → api.open_v2 path flags ≡ (rc, db)
      → open_with_flags api path flags ≡ opened rc db
  unfolding open_with_flags open_filename c_string from_sqlite
  open_with_flags-outcome path flags rc db h r = ground arith
