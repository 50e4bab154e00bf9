-- ===== src/Ffi.antt =====
-- src/ffi/mod.rs: strings handed to SQLite.
pub mod Strings
use sqlite3_ext.Prelude.{
  ℕ, ◌+◌, ◌^◌, Bool, Option, none, some, List, [], ◌∷◌, ltb, leb, ◌==◌, if◌then◌else◌, length, set,
  take, Outcome, ok, err, panic, bind, sqlite, Text,
}

abbrev pub usize_mod : ℕ
usize_mod = 2 ^ 64

-- `ptr::copy_nonoverlapping`: the first n bytes of what can be read from the source on. Reading
-- past the end of it is undefined behaviour.
abbrev pub copy_nonoverlapping : List ℕ → ℕ → Outcome (List ℕ)
copy_nonoverlapping memory n = if leb n (length memory) then ok (take n memory) else panic

-- `len.checked_add(1)`
abbrev pub checked_add_one : ℕ → Outcome ℕ
checked_add_one n = if ltb (n + 1) usize_mod then ok (n + 1) else err (sqlite 7 none)

-- `val` is `len` bytes at the start of `memory`, the bytes that can be read from its address on.
-- `malloc` says which requests sqlite3_malloc64 grants. The result is the new C string with its
-- nul, or the null pointer.
unfoldable pub str_to_sqlite3 : (ℕ → Bool) → List ℕ → ℕ → Outcome (Option (List ℕ))
str_to_sqlite3 malloc memory len =
    if len == 0
    then ok none
    else bind (checked_add_one len) λ n.
      if malloc n
      then bind (copy_nonoverlapping memory n) (λ bytes. ok (some (set bytes len 0)))
      else err (sqlite 7 none)

-- `CStr::from_ptr(p).to_bytes()`: the bytes up to the first nul.
unfoldable pub to_bytes : List ℕ → Text
to_bytes [] = []
to_bytes (x ∷ xs) = if x == 0 then [] else x ∷ to_bytes xs
