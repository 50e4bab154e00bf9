-- ===== src/Connection/Flags.antt =====
-- src/connection.rs: the flags for opening a database, and what src/ffi/sqlite3.h says of them.
use Prim.Native.String.{String}
use text.Mathlib.Text.{◌==◌ as str_eq}
use sqlite3_ext.Prelude.{ℕ, ◌+◌, ◌≡◌, refl, List, [], ◌∷◌, map, if◌then◌else◌}

-- What the comment behind a flag says: whether sqlite3_open_v2 takes it.
pub data Use : Type 0 where
  ok_for_open_v2 vfs_only extended_result_codes : Use

pub record Flag : Type 0 where
  pub name : String
  pub bits : ℕ
  pub comment : Use

abbrev flag : String → ℕ → Use → Flag
flag n v c = record { name = n; bits = v; comment = c }

abbrev pub open_flags : List Flag
open_flags =
    flag "SQLITE_OPEN_READONLY" 0x00000001 ok_for_open_v2
    ∷ flag "SQLITE_OPEN_READWRITE" 0x00000002 ok_for_open_v2
    ∷ flag "SQLITE_OPEN_CREATE" 0x00000004 ok_for_open_v2
    ∷ flag "SQLITE_OPEN_DELETEONCLOSE" 0x00000008 vfs_only
    ∷ flag "SQLITE_OPEN_EXCLUSIVE" 0x00000010 vfs_only
    ∷ flag "SQLITE_OPEN_AUTOPROXY" 0x00000020 vfs_only
    ∷ flag "SQLITE_OPEN_URI" 0x00000040 ok_for_open_v2
    ∷ flag "SQLITE_OPEN_MEMORY" 0x00000080 ok_for_open_v2
    ∷ flag "SQLITE_OPEN_MAIN_DB" 0x00000100 vfs_only
    ∷ flag "SQLITE_OPEN_TEMP_DB" 0x00000200 vfs_only
    ∷ flag "SQLITE_OPEN_TRANSIENT_DB" 0x00000400 vfs_only
    ∷ flag "SQLITE_OPEN_MAIN_JOURNAL" 0x00000800 vfs_only
    ∷ flag "SQLITE_OPEN_TEMP_JOURNAL" 0x00001000 vfs_only
    ∷ flag "SQLITE_OPEN_SUBJOURNAL" 0x00002000 vfs_only
    ∷ flag "SQLITE_OPEN_SUPER_JOURNAL" 0x00004000 vfs_only
    ∷ flag "SQLITE_OPEN_NOMUTEX" 0x00008000 ok_for_open_v2
    ∷ flag "SQLITE_OPEN_FULLMUTEX" 0x00010000 ok_for_open_v2
    ∷ flag "SQLITE_OPEN_SHAREDCACHE" 0x00020000 ok_for_open_v2
    ∷ flag "SQLITE_OPEN_PRIVATECACHE" 0x00040000 ok_for_open_v2
    ∷ flag "SQLITE_OPEN_WAL" 0x00080000 vfs_only
    ∷ flag "SQLITE_OPEN_NOFOLLOW" 0x01000000 ok_for_open_v2
    ∷ flag "SQLITE_OPEN_EXRESCODE" 0x02000000 extended_result_codes
    ∷ []

-- The bits of the flag of that name, if sqlite3_open_v2 takes it.
abbrev taken : String → List Flag → ℕ
taken n [] = 0
taken n (f ∷ fs) =
    if str_eq f.name n then elim f.comment [ vfs_only ↦ 0 | _ ↦ f.bits ] else taken n fs

-- `OpenFlags`: the constants of the crate, and the flags that they stand for.
abbrev pub named : List (String × ℕ)
named =
    ("SQLITE_OPEN_READONLY", 0x00000001)
    ∷ ("SQLITE_OPEN_READWRITE", 0x00000002)
    ∷ ("SQLITE_OPEN_CREATE", 0x00000004)
    ∷ ("SQLITE_OPEN_MEMORY", 0x00000080)
    ∷ ("SQLITE_OPEN_NOMUTEX", 0x00008000)
    ∷ ("SQLITE_OPEN_FULLMUTEX", 0x00010000)
    ∷ ("SQLITE_OPEN_SHAREDCACHE", 0x00020000)
    ∷ ("SQLITE_OPEN_PRIVATECACHE", 0x00040000)
    ∷ ("SQLITE_OPEN_EXRESCODE", 0x02000000)
    ∷ ("SQLITE_OPEN_NOFOLLOW", 0x01000000)
    ∷ []

abbrev pub default : ℕ
default = 0x2 + 0x4

-- Each constant of OpenFlags has the value of its flag, which sqlite3_open_v2 takes.
named-taken :
    map (λ (c : String × ℕ). taken c.0 open_flags) named ≡ map (λ (c : String × ℕ). c.1) named
named-taken = refl
