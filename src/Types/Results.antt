-- ===== src/Types/Results.antt =====
-- src/ffi/sqlite3.h: the result codes of SQLite, and how the crate tells success from failure.
use Prim.Native.String.{String}
use sqlite3_ext.Prelude.{
  ℕ, ◌+◌, ◌*◌, ◌%◌, ◌≡◌, refl, Bool, List, [], ◌∷◌, ◌++◌, map, get_elem?, some, zero, suc, false,
}
use sqlite3_ext.Types.{is_success}

pub record Code : Type 0 where
  pub name : String
  pub code : ℕ

abbrev primary : String → ℕ → Code
primary n v = record { name = n; code = v }

-- `(SQLITE_ERROR | (1<<8))`
abbrev extended : String → ℕ → ℕ → Code
extended n v k = record { name = n; code = v + 256 * k }

abbrev pub result_codes : List Code
result_codes =
    primary "SQLITE_OK" 0
    ∷ primary "SQLITE_ERROR" 1
    ∷ primary "SQLITE_INTERNAL" 2
    ∷ primary "SQLITE_PERM" 3
    ∷ primary "SQLITE_ABORT" 4
    ∷ primary "SQLITE_BUSY" 5
    ∷ primary "SQLITE_LOCKED" 6
    ∷ primary "SQLITE_NOMEM" 7
    ∷ primary "SQLITE_READONLY" 8
    ∷ primary "SQLITE_INTERRUPT" 9
    ∷ primary "SQLITE_IOERR" 10
    ∷ primary "SQLITE_CORRUPT" 11
    ∷ primary "SQLITE_NOTFOUND" 12
    ∷ primary "SQLITE_FULL" 13
    ∷ primary "SQLITE_CANTOPEN" 14
    ∷ primary "SQLITE_PROTOCOL" 15
    ∷ primary "SQLITE_EMPTY" 16
    ∷ primary "SQLITE_SCHEMA" 17
    ∷ primary "SQLITE_TOOBIG" 18
    ∷ primary "SQLITE_CONSTRAINT" 19
    ∷ primary "SQLITE_MISMATCH" 20
    ∷ primary "SQLITE_MISUSE" 21
    ∷ primary "SQLITE_NOLFS" 22
    ∷ primary "SQLITE_AUTH" 23
    ∷ primary "SQLITE_FORMAT" 24
    ∷ primary "SQLITE_RANGE" 25
    ∷ primary "SQLITE_NOTADB" 26
    ∷ primary "SQLITE_NOTICE" 27
    ∷ primary "SQLITE_WARNING" 28
    ∷ primary "SQLITE_ROW" 100
    ∷ primary "SQLITE_DONE" 101
    ∷ []

abbrev pub extended_to_ioerr : List Code
extended_to_ioerr =
    extended "SQLITE_ERROR_MISSING_COLLSEQ" 1 1
    ∷ extended "SQLITE_ERROR_RETRY" 1 2
    ∷ extended "SQLITE_ERROR_SNAPSHOT" 1 3
    ∷ extended "SQLITE_IOERR_READ" 10 1
    ∷ extended "SQLITE_IOERR_SHORT_READ" 10 2
    ∷ extended "SQLITE_IOERR_WRITE" 10 3
    ∷ extended "SQLITE_IOERR_FSYNC" 10 4
    ∷ extended "SQLITE_IOERR_DIR_FSYNC" 10 5
    ∷ extended "SQLITE_IOERR_TRUNCATE" 10 6
    ∷ extended "SQLITE_IOERR_FSTAT" 10 7
    ∷ extended "SQLITE_IOERR_UNLOCK" 10 8
    ∷ extended "SQLITE_IOERR_RDLOCK" 10 9
    ∷ extended "SQLITE_IOERR_DELETE" 10 10
    ∷ extended "SQLITE_IOERR_BLOCKED" 10 11
    ∷ extended "SQLITE_IOERR_NOMEM" 10 12
    ∷ extended "SQLITE_IOERR_ACCESS" 10 13
    ∷ extended "SQLITE_IOERR_CHECKRESERVEDLOCK" 10 14
    ∷ extended "SQLITE_IOERR_LOCK" 10 15
    ∷ extended "SQLITE_IOERR_CLOSE" 10 16
    ∷ extended "SQLITE_IOERR_DIR_CLOSE" 10 17
    ∷ extended "SQLITE_IOERR_SHMOPEN" 10 18
    ∷ extended "SQLITE_IOERR_SHMSIZE" 10 19
    ∷ extended "SQLITE_IOERR_SHMLOCK" 10 20
    ∷ extended "SQLITE_IOERR_SHMMAP" 10 21
    ∷ extended "SQLITE_IOERR_SEEK" 10 22
    ∷ extended "SQLITE_IOERR_DELETE_NOENT" 10 23
    ∷ extended "SQLITE_IOERR_MMAP" 10 24
    ∷ extended "SQLITE_IOERR_GETTEMPPATH" 10 25
    ∷ extended "SQLITE_IOERR_CONVPATH" 10 26
    ∷ extended "SQLITE_IOERR_VNODE" 10 27
    ∷ extended "SQLITE_IOERR_AUTH" 10 28
    ∷ extended "SQLITE_IOERR_BEGIN_ATOMIC" 10 29
    ∷ extended "SQLITE_IOERR_COMMIT_ATOMIC" 10 30
    ∷ extended "SQLITE_IOERR_ROLLBACK_ATOMIC" 10 31
    ∷ extended "SQLITE_IOERR_DATA" 10 32
    ∷ extended "SQLITE_IOERR_CORRUPTFS" 10 33
    ∷ []

abbrev pub extended_from_locked : List Code
extended_from_locked =
    extended "SQLITE_LOCKED_SHAREDCACHE" 6 1
    ∷ extended "SQLITE_LOCKED_VTAB" 6 2
    ∷ extended "SQLITE_BUSY_RECOVERY" 5 1
    ∷ extended "SQLITE_BUSY_SNAPSHOT" 5 2
    ∷ extended "SQLITE_BUSY_TIMEOUT" 5 3
    ∷ extended "SQLITE_CANTOPEN_NOTEMPDIR" 14 1
    ∷ extended "SQLITE_CANTOPEN_ISDIR" 14 2
    ∷ extended "SQLITE_CANTOPEN_FULLPATH" 14 3
    ∷ extended "SQLITE_CANTOPEN_CONVPATH" 14 4
    ∷ extended "SQLITE_CANTOPEN_DIRTYWAL" 14 5
    ∷ extended "SQLITE_CANTOPEN_SYMLINK" 14 6
    ∷ extended "SQLITE_CORRUPT_VTAB" 11 1
    ∷ extended "SQLITE_CORRUPT_SEQUENCE" 11 2
    ∷ extended "SQLITE_CORRUPT_INDEX" 11 3
    ∷ extended "SQLITE_READONLY_RECOVERY" 8 1
    ∷ extended "SQLITE_READONLY_CANTLOCK" 8 2
    ∷ extended "SQLITE_READONLY_ROLLBACK" 8 3
    ∷ extended "SQLITE_READONLY_DBMOVED" 8 4
    ∷ extended "SQLITE_READONLY_CANTINIT" 8 5
    ∷ extended "SQLITE_READONLY_DIRECTORY" 8 6
    ∷ extended "SQLITE_ABORT_ROLLBACK" 4 2
    ∷ extended "SQLITE_CONSTRAINT_CHECK" 19 1
    ∷ extended "SQLITE_CONSTRAINT_COMMITHOOK" 19 2
    ∷ extended "SQLITE_CONSTRAINT_FOREIGNKEY" 19 3
    ∷ extended "SQLITE_CONSTRAINT_FUNCTION" 19 4
    ∷ extended "SQLITE_CONSTRAINT_NOTNULL" 19 5
    ∷ extended "SQLITE_CONSTRAINT_PRIMARYKEY" 19 6
    ∷ extended "SQLITE_CONSTRAINT_TRIGGER" 19 7
    ∷ extended "SQLITE_CONSTRAINT_UNIQUE" 19 8
    ∷ extended "SQLITE_CONSTRAINT_VTAB" 19 9
    ∷ extended "SQLITE_CONSTRAINT_ROWID" 19 10
    ∷ extended "SQLITE_CONSTRAINT_PINNED" 19 11
    ∷ extended "SQLITE_CONSTRAINT_DATATYPE" 19 12
    ∷ extended "SQLITE_NOTICE_RECOVER_WAL" 27 1
    ∷ extended "SQLITE_NOTICE_RECOVER_ROLLBACK" 27 2
    ∷ extended "SQLITE_WARNING_AUTOINDEX" 28 1
    ∷ extended "SQLITE_AUTH_USER" 23 1
    ∷ []

abbrev pub extended_ok : List Code
extended_ok = extended "SQLITE_OK_LOAD_PERMANENTLY" 0 1 ∷ extended "SQLITE_OK_SYMLINK" 0 2 ∷ []

abbrev pub error_codes : List Code
error_codes = result_codes ++ (extended_to_ioerr ++ extended_from_locked)

same_success :
    map (λ (c : Code). is_success c.code) error_codes
    ≡ map (λ (c : Code). is_success (c.code % 256)) error_codes
same_success = refl

equal_at :
    (f g : Code → Bool) (cs : List Code) (i : ℕ) (c : Code)
    → map f cs ≡ map g cs
    → get_elem? cs i ≡ some c
    → f c ≡ g c
equal_at f g [] i c h e = absurd (cc)
equal_at f g (x ∷ cs) zero c h e = cc
equal_at f g (x ∷ cs) (suc i) c h e = equal_at f g cs i c (cc) e

ok_codes : map (λ (c : Code). is_success c.code) extended_ok ≡ false ∷ false ∷ []
ok_codes = refl

-- Every result code that the header names, but the two extended codes of SQLITE_OK, is a success
-- for the crate exactly if its primary code is.
error_codes-is_success :
    (i : ℕ) (c : Code)
    → get_elem? error_codes i ≡ some c
    → is_success c.code ≡ is_success (c.code % 256)
error_codes-is_success i c e =
    equal_at (λ (c : Code). is_success c.code) (λ (c : Code). is_success (c.code % 256)) error_codes
      i c same_success e
