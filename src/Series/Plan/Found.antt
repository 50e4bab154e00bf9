-- ===== src/Series/Plan/Found.antt =====
-- The constraints that best_index finds for start, stop and step.
use sqlite3_ext.Prelude.{
  ℕ, ◌+◌, zero, suc, ◌≡◌, refl, ◌⊎◌, inl, inr, true, List, [], ◌∷◌, ok, set, Option, none, some,
  arith, Bool-cases, Outcome-cases, sym, ◌==◌, ◌||◌,
}
use mathlib.Core.Path.{subst}
use sqlite3_ext.Prelude.Int.{pos}
use sqlite3_ext.IndexInfo.{IndexInfo}
use sqlite3_ext.IndexInfo.Constraints.{column, usable}
use sqlite3_ext.Series.Plan.Agreement.{see-cases, same}
use sqlite3_ext.Series.Plan.{Seen, tests_equality, see_column, see, see_all}

-- Constraint j is a usable test for equality on column k + 1.
abbrev pub Asked : IndexInfo → ℕ → ℕ → Type 0
Asked info k j =
    (column info j ≡ ok (pos (suc k)))
    × (usable info j ≡ ok true)
    × (tests_equality info j ≡ ok true)

abbrev pub Slot : IndexInfo → ℕ → Option ℕ → Type 0
Slot info k none = Unit
Slot info k (some j) = Asked info k j

-- The places from column k + 1 on.
abbrev pub Found : IndexInfo → ℕ → List (Option ℕ) → Type 0
Found info k [] = Unit
Found info k (o ∷ os) = Slot info k o × Found info (suc k) os

set-Found :
    (info : IndexInfo) (os : List (Option ℕ)) (k bit col i : ℕ)
    → bit + k ≡ col
    → Found info k os
    → Asked info col i
    → Found info k (set os bit (some i))
set-Found info [] k bit col i e f a = tt
set-Found info (o ∷ os) k zero col i e f a =
    (let q : k ≡ col = omega arith in subst (λ n. Asked info n i) (sym q) a, f.1)
set-Found info (o ∷ os) k (suc bit) col i e f a =
    (f.0, set-Found info os (suc k) bit col i (omega arith) f.1 a)

pub see_column-arg_index :
    (info : IndexInfo) (i bit : ℕ) (s s' : Seen)
    → see_column info i bit s ≡ ok s'
    → ((s'.arg_index ≡ set s.arg_index bit (some i))
        × (usable info i ≡ ok true)
        × (tests_equality info i ≡ ok true))
      ⊎ (s'.arg_index ≡ s.arg_index)
see_column-arg_index info i bit s s' e = elim (Outcome-cases (usable info i)) [
  | inl (u, q) ↦ elim (Outcome-cases (tests_equality info i)) [
    | inl (t, r) ↦ elim (Bool-cases u) [
      | inl a ↦ elim (Bool-cases t) [
        | inl b ↦ inl (ground arith, rw q (rw a refl), rw r (rw b refl))
        | inr b ↦ inr (ground arith)
      ]
      | inr a ↦ inr (ground arith)
    ]
    | inr (inl r) ↦ inr (ground arith)
    | inr (inr r) ↦ inr (ground arith)
  ]
  | inr (inl q) ↦ absurd (ground arith)
  | inr (inr q) ↦ absurd (ground arith)
]

see-Found :
    (info : IndexInfo) (i : ℕ) (s s' : Seen)
    → Found info 0 s.arg_index
    → see info i s ≡ ok s'
    → Found info 0 s'.arg_index
see-Found info i s s' f e = elim (see-cases info i s s' e) [
  | inl q ↦ rw (← q) f
  | inr (bit, h, c, q) ↦
      elim (see_column-arg_index info i bit (record s { has_start = bit == 0 || s.has_start }) s'
        q) [
          | inl (r, u, t) ↦ rw r (set-Found info s.arg_index 0 bit bit i (omega arith) f (c, u, t))
          | inr r ↦ rw r f
        ]
]

-- When the loop ends, each argument that was found is that of a usable test for equality on its
-- column.
pub see_all-Found :
    (info : IndexInfo) (is : List ℕ) (s s' : Seen)
    → Found info 0 s.arg_index
    → see_all info is s ≡ ok s'
    → Found info 0 s'.arg_index
unfolding see_all
see_all-Found info [] s s' f e = rw (← (same s s' e)) f
see_all-Found info (i ∷ is) s s' f e = elim (Outcome-cases (see info i s)) [
  | inl (t, q) ↦ see_all-Found info is t s' (see-Found info i s t f q) (ground arith)
  | inr (inl q) ↦ absurd (ground arith)
  | inr (inr q) ↦ absurd (ground arith)
]
