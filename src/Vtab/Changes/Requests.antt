-- ===== src/Vtab/Changes/Requests.antt =====
-- That ChangeInfo reads back what SQLite asks of a table.
use sqlite3_ext.Prelude.{
  ℕ, ◌≡◌, Bool, true, false, List, [], ◌∷◌, arith, length, take-length, Outcome, ok, if◌then◌else◌,
}
use sqlite3_ext.Version.{Build, match_version, supports}
use sqlite3_ext.Vtab.Changes.{
  ChangeType, insert, delete, update, ConflictMode, rollback, ignore, fail, abort, replace,
  ChangeInfo, rowid, args, change_type, from_sqlite, conflict_mode,
}

-- The requests that the documentation of xUpdate lists: the new rowid comes before the columns, and
-- a row is inserted by an old rowid that is NULL.
pub data Request (V : Type 0) : Type 0 where
  remove : V → Request V
  add : V → List V → Request V
  change : V → V → List V → Request V

module _ {V : Type 0} (null : V) where
  abbrev pub arguments : Request V → List V
  arguments (remove id) = id ∷ []
  arguments (add new_id columns) = null ∷ new_id ∷ columns
  arguments (change id new_id columns) = id ∷ new_id ∷ columns

  abbrev pub change_info : Request V → ChangeInfo V
  change_info r = record { argc = length (arguments r); argv = arguments r }

  -- The rowid that the request names, the new row, and the kind of change.
  abbrev pub meaning : Request V → Outcome V × Outcome (List V) × Outcome ChangeType
  meaning (remove id) = (ok id, ok [], ok delete)
  meaning (add new_id columns) = (ok null, ok (new_id ∷ columns), ok insert)
  meaning (change id new_id columns) = (ok id, ok (new_id ∷ columns), ok update)

  -- A change has an old rowid, which is not NULL.
  abbrev pub HasRowid : (V → Bool) → Request V → Type 0
  HasRowid is_null (change id new_id columns) = is_null id ≡ false
  HasRowid is_null r = Unit

  -- ChangeInfo tells the three requests of SQLite apart, and reads back their rowid and row.
  pub change_info-meaning :
      (is_null : V → Bool) (r : Request V)
      → is_null null ≡ true
      → HasRowid is_null r
      → (let c = change_info r in (rowid c, args c, change_type is_null c)) ≡ meaning r
  unfolding rowid args change_type
  change_info-meaning is_null (remove id) e h = ground arith
  change_info-meaning is_null (add new_id columns) e h = ground (arith, take-length columns)
  change_info-meaning is_null (change id new_id columns) e h = ground (arith, take-length columns)

-- The codes that SQLite documents for sqlite3_vtab_on_conflict.
abbrev pub code : ConflictMode → ℕ
code rollback = 1
code ignore = 2
code fail = 3
code abort = 4
code replace = 5

-- The conflict mode is the one whose code SQLite gives, from 3.7.7 on, and Abort before.
pub conflict_mode-code :
    (b : Build) (mode : ConflictMode)
    → conflict_mode b (code mode) ≡ ok (if supports b 3007007 then mode else abort)
unfolding conflict_mode from_sqlite match_version
conflict_mode-code b rollback = ground arith
conflict_mode-code b ignore = ground arith
conflict_mode-code b fail = ground arith
conflict_mode-code b abort = ground arith
conflict_mode-code b replace = ground arith
