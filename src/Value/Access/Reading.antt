-- ===== src/Value/Access/Reading.antt =====
-- What reading a value gives: the laws of SQLite's functions on values, and the owned value.
use sqlite3_ext.Prelude.{
  ℕ, ◌≡◌, refl, ap, Bool, List, [], ◌∷◌, ◌++◌, arith, length, take-append, length-append, Option,
  none, some, Outcome, ok, map_ok,
}
use sqlite3_ext.Prelude.Int.{ℤ}
use sqlite3_ext.Value.Blob.{from_slice}
use sqlite3_ext.Value.Access.{
  Value, integer, float, text, blob, null, ValueApi, to_owned, value_type, type_from_sqlite,
  get_str_unchecked, get_blob_unchecked, from_utf8,
}

-- The five kinds of values of SQL.
pub data Cell (D : Type 0) : Type 0 where
  int : ℤ → Cell D
  real : D → Cell D
  txt : List ℕ → Cell D
  blb : List ℕ → Cell D
  nul : Cell D

module _ {D : Type 0} where
  abbrev pub type_code : Cell D → ℕ
  type_code (int i) = 1
  type_code (real d) = 2
  type_code (txt s) = 3
  type_code (blb s) = 4
  type_code nul = 5

  abbrev pub payload : Cell D → Option (List ℕ)
  payload (txt s) = some s
  payload (blb s) = some s
  payload c = none

  -- The owned value that the crate makes of a value of SQL, or its error.
  abbrev pub owned : (List ℕ → Bool) → (ℕ → List ℕ) → Cell D → Outcome (Value D)
  owned is_utf8 fresh (int i) = ok (integer i)
  owned is_utf8 fresh (real d) = ok (float d)
  owned is_utf8 fresh (txt s) = map_ok text (from_utf8 is_utf8 s)
  owned is_utf8 fresh (blb s) = map_ok blob (from_slice fresh s)
  owned is_utf8 fresh nul = ok null

-- What SQLite documents for reading a value, which is `cell` of it. The bytes of a text or a BLOB
-- lie at the start of the memory behind the pointer, which is null if there are none, and asking for
-- their number keeps them.
pub record IsReader {V D R : Type 0} (api : ValueApi V D R) (cell : V → Cell D) : Type 0 where
  pub type : (v : V) → api.value_type v ≡ type_code (cell v)
  pub int64 : (v : V) (i : ℤ) → cell v ≡ int i → api.value_int64 v ≡ i
  pub double : (v : V) (d : D) → cell v ≡ real d → api.value_double v ≡ d
  pub bytes : (v : V) (s : List ℕ) → payload (cell v) ≡ some s → (api.value_bytes v).0 ≡ length s
  pub kept :
      (v : V) (s : List ℕ)
      → payload (cell v) ≡ some s
      → payload (cell (api.value_bytes v).1) ≡ some s
  pub memory : V → List ℕ
  pub pointer :
      (v : V) (x : ℕ) (s : List ℕ)
      → payload (cell v) ≡ some (x ∷ s)
      → (api.value_blob v).0 ≡ some (x ∷ s ++ memory v)
  pub no_bytes : (v : V) → payload (cell v) ≡ some [] → (api.value_blob v).0 ≡ none

module _ {V D R : Type 0} (api : ValueApi V D R) (cell : V → Cell D)
    (laws : IsReader api cell) where
  pub payload-get_blob_unchecked :
      (v : V) (s : List ℕ) → payload (cell v) ≡ some s → (get_blob_unchecked api v).0 ≡ ok s
  unfolding get_blob_unchecked
  payload-get_blob_unchecked v [] h = ground (arith, laws.bytes v [] h)
  payload-get_blob_unchecked v (x ∷ s) h = ground (
    arith,
    laws.bytes v (x ∷ s) h,
    laws.pointer (api.value_bytes v).1 x s (laws.kept v (x ∷ s) h),
    take-append (x ∷ s) (laws.memory (api.value_bytes v).1),
    length-append (x ∷ s) (laws.memory (api.value_bytes v).1),
  )

  typed_as : (v : V) (c : Cell D) → cell v ≡ c → api.value_type v ≡ type_code c
  typed_as v c h = rw (laws.type v, h) refl

  pub to_owned-owned :
      (is_utf8 : List ℕ → Bool) (fresh : ℕ → List ℕ) (v : V) (c : Cell D)
      → cell v ≡ c
      → (to_owned api is_utf8 fresh v).0 ≡ owned is_utf8 fresh c
  unfolding to_owned value_type type_from_sqlite get_str_unchecked
  to_owned-owned is_utf8 fresh v (int i) h = ground (arith, typed_as v (int i) h, laws.int64 v i h)
  to_owned-owned is_utf8 fresh v (real d) h =
      ground (arith, typed_as v (real d) h, laws.double v d h)
  to_owned-owned is_utf8 fresh v (txt s) h =
      ground (arith, typed_as v (txt s) h, payload-get_blob_unchecked v s (ap payload h))
  to_owned-owned is_utf8 fresh v (blb s) h =
      ground (arith, typed_as v (blb s) h, payload-get_blob_unchecked v s (ap payload h))
  to_owned-owned is_utf8 fresh v nul h = ground (arith, typed_as v nul h)
