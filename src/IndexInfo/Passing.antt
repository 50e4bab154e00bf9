-- ===== src/IndexInfo/Passing.antt =====
-- What SQLite passes to the `filter` of a table for a query plan, as src/ffi/sqlite3.h documents
-- argvIndex: the value on the right of the constraint with index k is the k-th argument.
use sqlite3_ext.Prelude.{
  ℕ, zero, suc, ◌+◌, ◌<◌, ◌≡◌, refl, true, false, List, [], ◌∷◌, if◌then◌else◌, arith, Option, none,
  some, get_elem?, set, length, Bool-cases, inl, inr,
}
use sqlite3_ext.Prelude.Int.{pos, ltb_ℤ, eqb_ℤ}
use sqlite3_ext.IndexInfo.{Usage}

-- How many constraints have an index.
abbrev pub uses : List Usage → ℕ
uses [] = 0
uses (u ∷ us) = if ltb_ℤ (pos 0) u.argv_index then 1 + uses us else uses us

module _ {V : Type 0} where
  -- The argument of index k, for the values on the right of the constraints.
  abbrev pub entry : ℕ → List Usage → List V → Option V
  entry k [] vs = none
  entry k (u ∷ us) [] = none
  entry k (u ∷ us) (v ∷ vs) = if eqb_ℤ u.argv_index (pos k) then some v else entry k us vs

  -- n arguments from index k on, unless one is missing.
  abbrev pub passed : ℕ → ℕ → List Usage → List V → Option (List V)
  passed zero k us vs = some []
  passed (suc n) k us vs = elim (entry k us vs) [
    | none ↦ none
    | some v ↦ elim (passed n (k + 1) us vs) [ none ↦ none | some rest ↦ some (v ∷ rest) ]
  ]

  abbrev pub argv : List Usage → List V → Option (List V)
  argv us vs = passed (uses us) 1 us vs

  pub entry-set_self :
      (k : ℕ) (us : List Usage) (vs : List V) (i : ℕ) (u' : Usage) (v : V)
      → i < length us
      → get_elem? vs i ≡ some v
      → entry k us vs ≡ none
      → eqb_ℤ u'.argv_index (pos k) ≡ true
      → entry k (set us i u') vs ≡ some v
  entry-set_self k [] vs i u' v l e h t = absurd (omega arith)
  entry-set_self k (u ∷ us) [] i u' v l e h t = absurd (ground arith)
  entry-set_self k (u ∷ us) (x ∷ vs) zero u' v l e h t = rw t e
  entry-set_self k (u ∷ us) (x ∷ vs) (suc i) u' v l e h t =
      elim (Bool-cases (eqb_ℤ u.argv_index (pos k))) [
        | inl q ↦ absurd (ground arith)
        | inr q ↦ rw q (entry-set_self k us vs i u' v (omega arith) e (ground arith) t)
      ]

  pub entry-set_ne :
      (k : ℕ) (us : List Usage) (vs : List V) (i : ℕ) (u u' : Usage)
      → get_elem? us i ≡ some u
      → eqb_ℤ u.argv_index (pos k) ≡ false
      → eqb_ℤ u'.argv_index (pos k) ≡ false
      → entry k (set us i u') vs ≡ entry k us vs
  entry-set_ne k [] vs i u u' e a b = refl
  entry-set_ne k (w ∷ us) [] zero u u' e a b = refl
  entry-set_ne k (w ∷ us) [] (suc i) u u' e a b = refl
  entry-set_ne k (w ∷ us) (x ∷ vs) zero u u' e a b = ground arith
  entry-set_ne k (w ∷ us) (x ∷ vs) (suc i) u u' e a b = rw (entry-set_ne k us vs i u u' e a b) refl

pub uses-set :
    (us : List Usage) (i : ℕ) (u u' : Usage)
    → get_elem? us i ≡ some u
    → ltb_ℤ (pos 0) u.argv_index ≡ false
    → ltb_ℤ (pos 0) u'.argv_index ≡ true
    → uses (set us i u') ≡ 1 + uses us
uses-set [] i u u' e a b = absurd (ground arith)
uses-set (w ∷ us) zero u u' e a b = ground arith
uses-set (w ∷ us) (suc i) u u' e a b = ground (arith, uses-set us i u u' e a b)
