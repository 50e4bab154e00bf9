-- ===== src/Version/Selection.antt =====
-- Which arm a version guard takes.
use mathlib.Core.List.{append-nil}
use sqlite3_ext.Prelude.{
  ℕ, ◌≤◌, ◌<◌, ◌≡◌, refl, false, List, [], ◌∷◌, ◌++◌, All, arith, Bool-cases, inl, inr,
  if◌then◌else◌,
}
use sqlite3_ext.Version.{Build, match_version}

module _ {ℓ} {A : Type ℓ} (b : Build) (fallback : A) where
  match_version-newer :
      (xs ys : List (ℕ × A))
      → All (λ x. b.version < x.0) xs
      → match_version b (xs ++ ys) fallback ≡ match_version b ys fallback
  unfolding match_version
  match_version-newer [] ys h = refl
  match_version-newer (x ∷ xs) ys h = ground (arith, match_version-newer xs ys h.1)

  match_version-old :
      (xs : List (ℕ × A)) → b.modern ≡ false → match_version b xs fallback ≡ fallback
  unfolding match_version
  match_version-old [] h = refl
  match_version-old (x ∷ xs) h = ground (arith, match_version-old xs h)

  -- The first arm whose version the library has is taken in a build of modern SQLite: the arms
  -- before it ask for a newer version, and those after it are not looked at. A build of old
  -- SQLite takes the fallback all the same, and so does any build when every arm asks for more.
  match_version-first :
      (xs ys : List (ℕ × A)) (v : ℕ) (a : A)
      → All (λ x. b.version < x.0) xs
      → v ≤ b.version
      → (match_version b (xs ++ (v, a) ∷ ys) fallback ≡ (if b.modern then a else fallback))
        × (match_version b xs fallback ≡ fallback)
  unfolding match_version
  match_version-first xs ys v a newer h =
      (first, rw (← append-nil xs) (match_version-newer xs [] newer))
    where
      first : match_version b (xs ++ (v, a) ∷ ys) fallback ≡ (if b.modern then a else fallback)
      first = elim (Bool-cases b.modern) [
        | inl m ↦ rw (match_version-newer xs ((v, a) ∷ ys) newer) (ground arith)
        | inr m ↦ rw (match_version-old (xs ++ (v, a) ∷ ys) m) (ground arith)
      ]
