-- ===== src/Types/Codes.antt =====
-- The result codes that the crate names (src/types.rs and the constants that it takes from
-- SQLite).
use sqlite3_ext.Prelude.{ℕ, none, Error, sqlite}

abbrev pub sqlite_ok : ℕ
sqlite_ok = 0

abbrev pub sqlite_error : ℕ
sqlite_error = 1

abbrev pub sqlite_row : ℕ
sqlite_row = 100

abbrev pub sqlite_done : ℕ
sqlite_done = 101

abbrev pub sqlite_nomem : Error
sqlite_nomem = sqlite 7 none

abbrev pub sqlite_notfound : Error
sqlite_notfound = sqlite 12 none

abbrev pub sqlite_empty : Error
sqlite_empty = sqlite 16 none

abbrev pub sqlite_constraint : Error
sqlite_constraint = sqlite 19 none

abbrev pub sqlite_mismatch : Error
sqlite_mismatch = sqlite 20 none

abbrev pub sqlite_misuse : Error
sqlite_misuse = sqlite 21 none

abbrev pub sqlite_range : Error
sqlite_range = sqlite 25 none
