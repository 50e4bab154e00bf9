-- ===== src/Value/Pointers.antt =====
-- src/value/unsafe_ptr.rs: a pointer that passes through SQLite as the bytes of its address, with a
-- subtype. An address is a number; `size` is the size of a reference, 8 or 16 bytes.
use sqlite3_ext.Prelude.{
  ℕ, ◌%◌, Bool, true, not, ◌||◌, List, [], ◌∷◌, ◌==◌, if◌then◌else◌, Option, Outcome, ok, panic,
  bind, Method, ◌>>=◌, pure, throw, lift,
}
use sqlite3_ext.Version.{Build, match_version}
use sqlite3_ext.Types.Codes.{sqlite_mismatch}
use sqlite3_ext.Value.Bytes.{to_le, from_le}
use sqlite3_ext.Value.Access.{ValueApi, value_bytes, value_blob, from_raw_parts}

pub record UnsafePtr : Type 0 where
  pub subtype : ℕ
  pub ptr : ℕ

unfoldable pub new : ℕ → ℕ → Outcome UnsafePtr
new ptr subtype = if subtype == 0 then panic else ok (record { subtype = subtype; ptr = ptr })

unfoldable pub to_bytes : ℕ → UnsafePtr → List ℕ
to_bytes size p = to_le size p.ptr

abbrev pub unsafe_ptr : ℕ → ℕ → UnsafePtr
unsafe_ptr subtype ptr = record { subtype = subtype; ptr = ptr }

-- `ptr::read_unaligned` of a reference
abbrev pub read_unaligned : Option (List ℕ) → ℕ → Outcome ℕ
read_unaligned bits size = bind (from_raw_parts bits size) λ bytes. ok (from_le bytes)

module _ {V D R : Type 0} (api : ValueApi V D R) (b : Build) (size : ℕ) where
  abbrev pub subtype_match : ℕ → V → Bool
  subtype_match subtype v =
      match_version b ((3009000, (api.value_subtype v % 256) == subtype) ∷ []) true

  unfoldable pub from_value_ref : ℕ → Method V UnsafePtr
  from_value_ref subtype = value_bytes api >>= λ len. (λ v.
      (if len == 0
          then pure (unsafe_ptr subtype 0)
          else if not (len == size) || not (subtype_match subtype v)
          then throw sqlite_mismatch
          else (value_blob api >>= λ bits.
              lift (bind (read_unaligned bits size) λ ptr. ok (unsafe_ptr subtype ptr))))
        v)
