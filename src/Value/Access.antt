-- ===== src/Value/Access.antt =====
-- src/value/mod.rs, src/value/passed_ref.rs: how a value of SQLite is read, and the owned values.
pub mod Reading
use sqlite3_ext.Prelude.{
  ℕ, Bool, true, false, not, List, [], ◌∷◌, ◌==◌, leb, if◌then◌else◌, length, take, Option, none,
  some, Outcome, ok, err, panic, bind, map_ok, Method, ◌>>=◌, pure, throw, lift, gets, Error,
  utf8_error, text_eq, Text,
}
use sqlite3_ext.Prelude.Int.{ℤ, eqb_ℤ}
use sqlite3_ext.Version.{Build, match_version}
use sqlite3_ext.Types.Codes.{sqlite_nomem, sqlite_mismatch}
use sqlite3_ext.Value.Blob.{Blob, from_slice}

pub data ValueType : Type 0 where
  integer_type float_type text_type blob_type null_type : ValueType

-- `ValueType::from_sqlite`
unfoldable pub type_from_sqlite : ℕ → Outcome ValueType
type_from_sqlite val =
    if val == 1
    then ok integer_type
    else if val == 2
    then ok float_type
    else if val == 3
    then ok text_type
    else if val == 4
    then ok blob_type
    else if val == 5
    then ok null_type
    else panic

-- `Value`, where `D` stands for f64.
pub data Value (D : Type 0) : Type 0 where
  integer : ℤ → Value D
  float : D → Value D
  text : Text → Value D
  blob : Blob → Value D
  null : Value D

-- What SQLite says of a value of its own, a `V`. Asking for the bytes may convert the value, so
-- that gives the value afterwards too; a pointer is null or the bytes that can be read from it.
-- `R` stands for what a PassedRef holds behind its pointer.
pub record ValueApi (V D R : Type 0) : Type 0 where
  pub value_type : V → ℕ
  pub value_numeric_type : V → ℕ × V
  pub value_int64 : V → ℤ
  pub value_double : V → D
  pub value_bytes : V → ℕ × V
  pub value_blob : V → Option (List ℕ) × V
  pub value_subtype : V → ℕ
  pub value_frombind : V → ℕ
  pub value_nochange : V → ℕ
  pub value_pointer : V → Option R

-- `slice::from_raw_parts(data, len)`
abbrev pub from_raw_parts : Option (List ℕ) → ℕ → Outcome (List ℕ)
from_raw_parts none len = panic
from_raw_parts (some memory) len = if leb len (length memory) then ok (take len memory) else panic

abbrev pub is_null_ptr {ℓ} : {A : Type ℓ} → Option A → Bool
is_null_ptr none = true
is_null_ptr (some x) = false

module _ {V D R : Type 0} (api : ValueApi V D R) where
  unfoldable pub value_type : V → Outcome ValueType
  value_type v = type_from_sqlite (api.value_type v)

  unfoldable pub numeric_type : Method V ValueType
  numeric_type v = let (t, v') = api.value_numeric_type v in (type_from_sqlite t, v')

  unfoldable pub is_from_bind : Build → V → Bool
  is_from_bind b v = match_version b ((3028000, not (api.value_frombind v == 0)) ∷ []) false

  unfoldable pub nochange : Build → V → Bool
  nochange b v = match_version b ((3022000, not (api.value_nochange v == 0)) ∷ []) false

  abbrev pub value_bytes : Method V ℕ
  value_bytes v = let (n, v') = api.value_bytes v in (ok n, v')

  abbrev pub value_blob : Method V (Option (List ℕ))
  value_blob v = let (p, v') = api.value_blob v in (ok p, v')

  unfoldable pub get_blob_unchecked : Method V (List ℕ)
  get_blob_unchecked = value_bytes >>= λ len.
      if len == 0 then pure [] else (value_blob >>= λ p. lift (from_raw_parts p len))

  unfoldable pub get_blob : Method V (List ℕ)
  get_blob = value_bytes >>= λ len.
      if len == 0
      then pure []
      else (value_blob >>= λ p.
          if is_null_ptr p then throw sqlite_nomem else lift (from_raw_parts p len))

  abbrev pub typed : Method V ValueType
  typed v = (value_type v, v)

  unfoldable pub try_get_blob : Method V (List ℕ)
  try_get_blob =
      typed >>= λ t. elim t [ blob_type ↦ get_blob_unchecked | _ ↦ throw sqlite_mismatch ]

  abbrev same_type : ValueType → ValueType → Bool
  same_type integer_type integer_type = true
  same_type float_type float_type = true
  same_type text_type text_type = true
  same_type blob_type blob_type = true
  same_type null_type null_type = true
  same_type _ _ = false

  unfoldable pub is_null : V → Outcome Bool
  is_null v = map_ok (same_type null_type) (value_type v)

  -- `PartialEq for ValueRef`, where `d_eq` compares two f64. The values are those before the call.
  unfoldable pub eq : (D → D → Bool) → V → V → Outcome Bool
  eq d_eq x y = bind (value_type x) λ s. bind (value_type y) λ t.
      if same_type s t
      then elim s [
        | integer_type ↦ ok (eqb_ℤ (api.value_int64 x) (api.value_int64 y))
        | float_type ↦ ok (d_eq (api.value_double x) (api.value_double y))
        | null_type ↦ ok false
        | _ ↦ bind (get_blob_unchecked x).0 λ a. bind (get_blob_unchecked y).0 λ c. ok (text_eq a c)
      ]
      else ok false

-- `str::from_utf8(bytes)?`
abbrev pub from_utf8 : (List ℕ → Bool) → List ℕ → Outcome Text
from_utf8 is_utf8 bytes = if is_utf8 bytes then ok bytes else err utf8_error

-- `is_utf8` is std's check.
module _ {V D R : Type 0} (api : ValueApi V D R) (is_utf8 : List ℕ → Bool) where
  unfoldable pub get_str_unchecked : Method V Text
  get_str_unchecked = get_blob_unchecked api >>= λ bytes. lift (from_utf8 is_utf8 bytes)

  unfoldable pub get_str : Method V Text
  get_str = get_blob api >>= λ bytes. lift (from_utf8 is_utf8 bytes)

  unfoldable pub try_get_str : Method V Text
  try_get_str =
      typed api >>= λ t. elim t [ text_type ↦ get_str_unchecked | _ ↦ throw sqlite_mismatch ]

  -- `fresh` is what std's allocator returns.
  unfoldable pub to_owned : (ℕ → List ℕ) → Method V (Value D)
  to_owned fresh = typed api >>= λ t. elim t [
    | integer_type ↦ gets (λ v. integer (api.value_int64 v))
    | float_type ↦ gets (λ v. float (api.value_double v))
    | text_type ↦ get_str_unchecked >>= λ s. pure (text s)
    | blob_type ↦ get_blob_unchecked api >>= λ s. lift (map_ok blob (from_slice fresh s))
    | null_type ↦ pure null
  ]
