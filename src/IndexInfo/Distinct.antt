-- ===== src/IndexInfo/Distinct.antt =====
-- src/vtab/index_info.rs: what the planner allows the output of a table to be, DistinctMode. A row
-- is the rank of its values in the columns of the sort order: rows with the same values in all of
-- them are the same number.
use sqlite3_ext.Prelude.{
  ℕ, zero, suc, sym, ◌+◌, ◌≤◌, ◌<◌, ◌≡◌, refl, arith, List, [], ◌∷◌, ◌==◌, if◌then◌else◌, All,
  Outcome, ok, panic, ◌⊎◌, inl, inr, Bool-cases,
}
use mathlib.Core.Path.{subst}
use sqlite3_ext.Version.{Build, match_version, supports}

pub data DistinctMode : Type 0 where
  ordered grouped distinct : DistinctMode

abbrev mode : ℕ → Outcome DistinctMode
mode val =
    if val == 0
    then ok ordered
    else if val == 1
    then ok grouped
    else if val == 2
    then ok distinct
    else panic

-- `DistinctMode::from_sqlite`
unfoldable pub from_sqlite : ℕ → Outcome DistinctMode
from_sqlite val = mode val

-- `vtab_distinct` is what sqlite3_vtab_distinct returns.
unfoldable pub distinct_mode : Build → ℕ → Outcome DistinctMode
distinct_mode b vtab_distinct =
    match_version b ((3038000, from_sqlite vtab_distinct) ∷ []) (ok ordered)

abbrev pub count : ℕ → List ℕ → ℕ
count k [] = 0
count k (x ∷ xs) = if x == k then 1 + count k xs else count k xs

abbrev pub IsSorted : List ℕ → Type 0
IsSorted [] = Unit
IsSorted (x ∷ xs) = All (λ y. x ≤ y) xs × IsSorted xs

-- The next row is the same, or the row does not come again.
abbrev Leaves : ℕ → List ℕ → Type 0
Leaves x [] = Unit
Leaves x (y ∷ ys) = (y ≡ x) ⊎ (count x (y ∷ ys) ≡ 0)

abbrev pub IsAdjacent : List ℕ → Type 0
IsAdjacent [] = Unit
IsAdjacent (x ∷ xs) = Leaves x xs × IsAdjacent xs

abbrev Same : List ℕ → List ℕ → Type 0
Same rows out = (k : ℕ) → count k out ≡ count k rows

-- A row that is there is there at least once, and not more often than it is.
abbrev Covers : List ℕ → List ℕ → Type 0
Covers rows out = (k : ℕ) → (count k out ≤ count k rows) × (count k rows ≡ 0 ⊎ 0 < count k out)

-- What the modes stand for: which outputs a table with these rows may have when it consumes the
-- sort order.
abbrev pub Meets : DistinctMode → List ℕ → List ℕ → Type 0
Meets ordered rows out = IsSorted out × Same rows out
Meets grouped rows out = IsAdjacent out × Same rows out
Meets distinct rows out = IsAdjacent out × Covers rows out

-- What SQLite documents for the values 0, 1 and 2 of sqlite3_vtab_distinct.
abbrev pub Allows : ℕ → List ℕ → List ℕ → Type 0
Allows zero rows out = IsSorted out × Same rows out
Allows (suc zero) rows out = IsAdjacent out × Same rows out
Allows (suc (suc zero)) rows out = IsAdjacent out × Covers rows out
Allows (suc (suc (suc n))) rows out = ⊥

count-above : (x y : ℕ) (ys : List ℕ) → x < y → All (λ z. y ≤ z) ys → count x ys ≡ 0
count-above x y [] h k = refl
count-above x y (z ∷ ys) h k = ground (arith, count-above x y ys h k.1)

leaves : (x : ℕ) (xs : List ℕ) → IsSorted (x ∷ xs) → Leaves x xs
leaves x [] h = tt
leaves x (y ∷ ys) h = elim (Bool-cases (y == x)) [
  | inl e ↦ inl (ground arith)
  | inr e ↦ inr (ground (arith, count-above x y ys))
]

IsSorted-IsAdjacent : (out : List ℕ) → IsSorted out → IsAdjacent out
IsSorted-IsAdjacent [] h = tt
IsSorted-IsAdjacent (x ∷ xs) h = (leaves x xs h, IsSorted-IsAdjacent xs h.1)

zero_or_more : (n m : ℕ) → m ≡ n → (n ≡ 0) ⊎ (0 < m)
zero_or_more n m e = ground arith

Same-Covers : (rows out : List ℕ) → Same rows out → Covers rows out
Same-Covers rows out h k = (omega (arith, h k), zero_or_more (count k rows) (count k out) (h k))

ordered-Allows : (n : ℕ) (rows out : List ℕ) → n ≤ 2 → Meets ordered rows out → Allows n rows out
ordered-Allows zero rows out h k = k
ordered-Allows (suc zero) rows out h k = (IsSorted-IsAdjacent out k.0, k.1)
ordered-Allows (suc (suc zero)) rows out h k =
    (IsSorted-IsAdjacent out k.0, Same-Covers rows out k.1)
ordered-Allows (suc (suc (suc n))) rows out h k = absurd (omega arith)

same_mode : {m m' : DistinctMode} → ok m ≡ ok m' → m ≡ m'
same_mode e = cc

from_sqlite-Allows :
    (n : ℕ) (m : DistinctMode) (rows out : List ℕ)
    → from_sqlite n ≡ ok m
    → Meets m rows out
    → Allows n rows out
unfolding from_sqlite
from_sqlite-Allows zero m rows out e h = subst (λ m. Meets m rows out) (sym (same_mode e)) h
from_sqlite-Allows (suc zero) m rows out e h = subst (λ m. Meets m rows out) (sym (same_mode e)) h
from_sqlite-Allows (suc (suc zero)) m rows out e h =
    subst (λ m. Meets m rows out) (sym (same_mode e)) h
from_sqlite-Allows (suc (suc (suc n))) m rows out e h = absurd (ground arith)

-- A table that consumes the sort order only where its output meets the mode that it is told may do
-- so: SQLite allows that output for its answer, 0, 1 or 2, also in a build that cannot ask and is
-- told the strictest mode.
pub distinct_mode-Allows :
    (b : Build) (answer : ℕ) (m : DistinctMode) (rows out : List ℕ)
    → answer ≤ 2
    → distinct_mode b answer ≡ ok m
    → Meets m rows out
    → Allows answer rows out
unfolding distinct_mode match_version
distinct_mode-Allows b n m rows out l e h = elim (Bool-cases (supports b 3038000)) [
  | inl t ↦ from_sqlite-Allows n m rows out (ground (arith, e, t)) h
  | inr f ↦ ordered-Allows n rows out l (
      subst (λ m. Meets m rows out) (sym (same_mode {m = ordered} {m' = m} (ground (arith, e, f))))
        h)
]
