-- ===== src/Ffi/Strings.antt =====
-- What str_to_sqlite3 copies, and what it reads to do so.
use native.Mathlib.Numerals.{add-one}
use sqlite3_ext.Prelude.{
  ℕ, suc, ◌+◌, ◌<◌, ◌≡◌, refl, ap, Bool, true, some, List, [], ◌∷◌, ◌++◌, All, arith, length, set,
  take, ok, panic, Text, Outcome, err, Option, none, sqlite, ltb, ◌&&◌, ◌==◌, if◌then◌else◌, ◌≢◌,
}
use sqlite3_ext.Ffi.{usize_mod, str_to_sqlite3, to_bytes}

copied :
    (s : Text) (x : ℕ) (rest : List ℕ)
    → set (take (suc (length s)) (s ++ x ∷ rest)) (length s) 0 ≡ s ++ 0 ∷ []
copied [] x rest = refl
copied (c ∷ s) x rest = ap (◌∷◌ c) (copied s x rest)

copied_one :
    (s : Text) (x : ℕ) (rest : List ℕ)
    → set (take (length s + 1) (s ++ x ∷ rest)) (length s) 0 ≡ s ++ 0 ∷ []
copied_one s x rest = rw add-one (copied s x rest)

length-more : (s : Text) (x : ℕ) (rest : List ℕ) → length s < length (s ++ x ∷ rest)
length-more [] x rest = omega arith
length-more (c ∷ s) x rest = omega (arith, length-more s x rest)

to_bytes-nul : (s : Text) → All (λ c. 0 < c) s → to_bytes (s ++ 0 ∷ []) ≡ s
unfolding to_bytes
to_bytes-nul [] h = refl
to_bytes-nul (c ∷ s) h = ground (arith, to_bytes-nul s h.1)

-- A text that is not empty, has no nul inside and leaves room for one comes out as the C string
-- with the same bytes when malloc grants its length plus one. To do so the function reads one
-- byte past the end of the text: where nothing can be read there, its behaviour is undefined.
pub str_to_sqlite3_lem :
    (malloc : ℕ → Bool) (c : ℕ) (s : Text) (x : ℕ) (rest : List ℕ)
    → All (λ b. 0 < b) (c ∷ s)
    → length (c ∷ s) + 1 < usize_mod
    → malloc (length (c ∷ s) + 1) ≡ true
    → (str_to_sqlite3 malloc (c ∷ s ++ x ∷ rest) (length (c ∷ s)) ≡ ok (some (c ∷ s ++ 0 ∷ [])))
      × (to_bytes (c ∷ s ++ 0 ∷ []) ≡ c ∷ s)
      × (str_to_sqlite3 malloc (c ∷ s) (length (c ∷ s)) ≡ panic)
unfolding str_to_sqlite3
str_to_sqlite3_lem malloc c s x rest nonzero room granted = (
  ground (arith, length-more (c ∷ s) x rest, copied_one (c ∷ s) x rest),
  to_bytes-nul (c ∷ s) nonzero,
  ground arith,
)

-- `str_to_sqlite3(s)` for a text of which `memory s` can be read, from its address on.
abbrev pub copy : (ℕ → Bool) → (Text → List ℕ) → Text → Outcome (Option Text)
copy malloc memory s = str_to_sqlite3 malloc (memory s) (length s)

-- The byte behind a text can be read, as str_to_sqlite3 does.
abbrev pub IsReadable : (Text → List ℕ) → Text → Type 0
IsReadable memory s = (x : ℕ) × (rest : List ℕ) × (memory s ≡ s ++ x ∷ rest)

-- Whether the copy is made.
abbrev pub is_granted : (ℕ → Bool) → Text → Bool
is_granted malloc s = ltb (length s + 1) usize_mod && malloc (length s + 1)

copy-granted :
    (malloc : ℕ → Bool) (memory : Text → List ℕ) (s : Text)
    → IsReadable memory s
    → copy malloc memory s ≡ (
        if length s == 0
        then ok none
        else if is_granted malloc s
        then ok (some (s ++ 0 ∷ []))
        else err (sqlite 7 none))
unfolding str_to_sqlite3
copy-granted malloc memory s (x, rest, e) =
    rw e (ground (arith, length-more s x rest, copied_one s x rest))

-- What stands at the place of a message once the text was to be copied there: nothing for an empty
-- text, its C string, or what stood there before if there is no memory.
abbrev pub placed : (ℕ → Bool) → Text → Option Text → Option Text
placed malloc s old =
    if length s == 0 then none else if is_granted malloc s then some (s ++ 0 ∷ []) else old

pub copy-placed :
    (malloc : ℕ → Bool) (memory : Text → List ℕ) (s : Text) (old : Option Text)
    → IsReadable memory s
    → (copy malloc memory s ≢ panic)
      × (elim (copy malloc memory s) [ ok p ↦ p | err e ↦ old | panic ↦ old ] ≡ placed malloc s old)
copy-placed malloc memory s old h = ground (arith, copy-granted malloc memory s h)
