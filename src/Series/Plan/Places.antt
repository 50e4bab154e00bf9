-- ===== src/Series/Plan/Places.antt =====
-- The constraints that best_index finds are different ones, and each has a value and a usage.
use sqlite3_ext.Prelude.{
  ℕ, zero, suc, ◌<◌, ◌≡◌, ◌≢◌, refl, List, [], ◌∷◌, arith, Option, none, some, get_elem?, length,
  Outcome, ok, All, map_ok, ap, false,
}
use sqlite3_ext.Prelude.Int.{ℤ, pos, eqb_ℤ}
use sqlite3_ext.IndexInfo.{Usage, IndexInfo, Constraint}
use sqlite3_ext.IndexInfo.Constraints.{at, column}
use sqlite3_ext.IndexInfo.Passing.{entry, uses}
use sqlite3_ext.Series.Plan.Found.{Found}
use sqlite3_ext.Series.Plan.Passing.{Absent, AreFree, ArePresent}

-- No argument is asked for yet.
abbrev pub IsClear : List Usage → Type 0
IsClear us = All (λ u. u.argv_index ≡ pos 0) us

pub uses-clear : (us : List Usage) → IsClear us → uses us ≡ 0
uses-clear [] h = refl
uses-clear (u ∷ us) h = rw (h.0) (uses-clear us h.1)

clear_at :
    (us : List Usage) (i : ℕ) (u : Usage)
    → IsClear us
    → get_elem? us i ≡ some u
    → u.argv_index ≡ pos 0
clear_at [] i u h e = absurd (ground arith)
clear_at (x ∷ us) zero u h e = ground (arith, h.0)
clear_at (x ∷ us) (suc i) u h e = clear_at us i u h.1 e

elem_at : {A : Type 0} → (xs : List A) (i : ℕ) → i < length xs → (x : A) × (get_elem? xs i ≡ some x)
elem_at [] i h = absurd (omega arith)
elem_at (x ∷ xs) zero h = (x, refl)
elem_at (x ∷ xs) (suc i) h = elem_at xs i (omega arith)

pub column_lt :
    (info : IndexInfo) (j : ℕ) (c : ℤ) → column info j ≡ ok c → j < length info.a_constraint
column_lt info j c e = at_lt info.a_constraint j c e
  where
    at_lt :
        (cs : List Constraint) (j : ℕ) (c : ℤ)
        → map_ok (λ d. d.i_column) (at cs j) ≡ ok c
        → j < length cs
    at_lt [] j c e = absurd (ground arith)
    at_lt (d ∷ cs) zero c e = omega arith
    at_lt (d ∷ cs) (suc j) c e = omega (arith, at_lt cs j c e)

different :
    (f : ℕ → Outcome ℤ) (j i k m : ℕ)
    → f j ≡ ok (pos (suc k))
    → f i ≡ ok (pos (suc m))
    → k < m
    → j ≢ i
different f j i k m a b h q = ground (arith, ap f q)

Found-Absent :
    (info : IndexInfo) (j k m : ℕ) (slots : List (Option ℕ))
    → column info j ≡ ok (pos (suc k))
    → k < m
    → Found info m slots
    → Absent j slots
Found-Absent info j k m [] e h f = tt
Found-Absent info j k m (none ∷ slots) e h f =
    Found-Absent info j k (suc m) slots e (omega arith) f.1
Found-Absent info j k m (some i ∷ slots) e h f = (
  different (column info) j i k m e f.0.0 h,
  Found-Absent info j k (suc m) slots e (omega arith) f.1,
)

module _ (info : IndexInfo) where
  pub Found-AreFree :
      (us : List Usage) (k : ℕ) (slots : List (Option ℕ))
      → length us ≡ length info.a_constraint
      → IsClear us
      → Found info k slots
      → AreFree us slots
  Found-AreFree us k [] l h f = tt
  Found-AreFree us k (none ∷ slots) l h f = Found-AreFree us (suc k) slots l h f.1
  Found-AreFree us k (some j ∷ slots) l h f =
      let (u, e) = elem_at us j (omega (arith, column_lt info j (pos (suc k)) f.0.0)) in
      (
        (u, e, clear_at us j u h e),
        Found-Absent info j k (suc k) slots f.0.0 (omega arith) f.1,
        Found-AreFree us (suc k) slots l h f.1,
      )

  pub Found-ArePresent :
      {V : Type 0}
      → (vs : List V) (k : ℕ) (slots : List (Option ℕ)) → length vs ≡ length info.a_constraint
      → Found info k slots
      → ArePresent slots vs
  Found-ArePresent vs k [] l f = tt
  Found-ArePresent vs k (none ∷ slots) l f = Found-ArePresent vs (suc k) slots l f.1
  Found-ArePresent vs k (some j ∷ slots) l f = (
    elem_at vs j (omega (arith, column_lt info j (pos (suc k)) f.0.0)),
    Found-ArePresent vs (suc k) slots l f.1,
  )

zero_ne : (m : ℕ) → eqb_ℤ (pos 0) (pos (suc m)) ≡ false
zero_ne m = ground arith

pub entry-clear :
    {V : Type 0}
    → (m : ℕ) (us : List Usage) (vs : List V) → 0 < m
    → IsClear us
    → entry m us vs ≡ none
entry-clear m [] vs h k = refl
entry-clear m (u ∷ us) [] h k = refl
entry-clear (suc m) (u ∷ us) (v ∷ vs) h k = rw (k.0, zero_ne m) (entry-clear (suc m) us vs h k.1)
entry-clear zero (u ∷ us) (v ∷ vs) h k = absurd (omega arith)
