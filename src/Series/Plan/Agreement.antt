-- ===== src/Series/Plan/Agreement.antt =====
-- The plan and the arguments that are asked for.
use sqlite3_ext.Prelude.{
  ℕ, ◌+◌, ◌≤◌, zero, suc, ◌*◌, ◌≡◌, refl, ◌⊎◌, inl, inr, Bool, true, false, List, [], ◌∷◌, ◌==◌,
  ◌||◌, leb, ok, set, ◌^◌, Option, none, some, arith, Bool-cases, Outcome-cases, leb→le,
}
use sqlite3_ext.Prelude.Int.{ℤ, pos, negsuc, ◌-ℤ◌, ltb_ℤ}
use sqlite3_ext.IndexInfo.{IndexInfo}
use sqlite3_ext.IndexInfo.Constraints.{column}
use sqlite3_ext.Series.{has_bit, with_bit, magnitude}
use sqlite3_ext.Series.Plan.{Seen, nothing_seen, see_column, see, see_all}

abbrev pub bit_of : Option ℕ → ℕ
bit_of none = 0
bit_of (some i) = 1

abbrev pub is_some : Option ℕ → Bool
is_some none = false
is_some (some i) = true

-- The plan of three arguments.
abbrev pub plan_of : Option ℕ → Option ℕ → Option ℕ → ℕ
plan_of a b c = bit_of a + 2 * bit_of b + 4 * bit_of c

-- The plan has the bits of the arguments that are there.
abbrev pub Agrees : Seen → Type 0
Agrees s =
    (a : Option ℕ) × (b : Option ℕ) × (c : Option ℕ) × (s.arg_index ≡ a ∷ b ∷ c ∷ [])
    × (s.query_plan ≡ plan_of a b c)

bit_of_le : (a : Option ℕ) → bit_of a ≤ 1
bit_of_le none = omega arith
bit_of_le (some i) = omega arith

with_bit-plan_of :
    (a b c : Option ℕ) (i : ℕ)
    → (with_bit (plan_of a b c) 1 ≡ plan_of (some i) b c)
      × (with_bit (plan_of a b c) 2 ≡ plan_of a (some i) c)
      × (with_bit (plan_of a b c) 4 ≡ plan_of a b (some i))
with_bit-plan_of a b c i = ground (arith, bit_of_le a, bit_of_le b, bit_of_le c)

pub has_bit-plan_of :
    (a b c : Option ℕ)
    → (has_bit (plan_of a b c) 1 ≡ is_some a)
      × (has_bit (plan_of a b c) 2 ≡ is_some b)
      × (has_bit (plan_of a b c) 4 ≡ is_some c)
has_bit-plan_of none none none = (refl, refl, refl)
has_bit-plan_of none none (some k) = (refl, refl, refl)
has_bit-plan_of none (some j) none = (refl, refl, refl)
has_bit-plan_of none (some j) (some k) = (refl, refl, refl)
has_bit-plan_of (some i) none none = (refl, refl, refl)
has_bit-plan_of (some i) none (some k) = (refl, refl, refl)
has_bit-plan_of (some i) (some j) none = (refl, refl, refl)
has_bit-plan_of (some i) (some j) (some k) = (refl, refl, refl)

with_bit-Agrees :
    (s : Seen) (bit i : ℕ)
    → Agrees s
    → bit ≤ 2
    → Agrees (record s {
      query_plan = with_bit s.query_plan (2 ^ bit);
      arg_index = set s.arg_index bit (some i);
    })
with_bit-Agrees s zero i (a, b, c, e, p) h =
    (some i, b, c, rw e refl, rw p (with_bit-plan_of a b c i).0)
with_bit-Agrees s (suc zero) i (a, b, c, e, p) h =
    (a, some i, c, rw e refl, rw p (with_bit-plan_of a b c i).1)
with_bit-Agrees s (suc (suc zero)) i (a, b, c, e, p) h =
    (a, b, some i, rw e refl, rw p (with_bit-plan_of a b c i).2)
with_bit-Agrees s (suc (suc (suc n))) i o h = absurd (omega arith)

see_column-cases :
    (info : IndexInfo) (i bit : ℕ) (s s' : Seen)
    → see_column info i bit s ≡ ok s'
    → (record s {
      query_plan = with_bit s.query_plan (2 ^ bit);
      arg_index = set s.arg_index bit (some i);
    }
        ≡ s')
      ⊎ (record s { unusable_mask = with_bit s.unusable_mask (2 ^ bit) } ≡ s')
      ⊎ (s ≡ s')
see_column-cases info i bit s s' e = ground arith

see_column-Agrees :
    (info : IndexInfo) (i bit : ℕ) (s s' : Seen)
    → Agrees s
    → bit ≤ 2
    → see_column info i bit s ≡ ok s'
    → Agrees s'
see_column-Agrees info i bit s s' o h e = elim (see_column-cases info i bit s s' e) [
  | inl q ↦ rw (← q) (with_bit-Agrees s bit i o h)
  | inr (inl q) ↦ rw (← q) o
  | inr (inr q) ↦ rw (← q) o
]

magnitude_minus : (c : ℤ) → ltb_ℤ c (pos 1) ≡ false → c ≡ pos (suc (magnitude (c -ℤ pos 1)))
unfolding ◌-ℤ◌
magnitude_minus (pos n) h = ground arith
magnitude_minus (negsuc n) h = absurd (ground arith)

-- A round leaves what was seen, or looks at a constraint on start, stop or step.
pub see-cases :
    (info : IndexInfo) (i : ℕ) (s s' : Seen)
    → see info i s ≡ ok s'
    → (s ≡ s')
      ⊎ ((bit : ℕ) × (bit ≤ 2)
          × (column info i ≡ ok (pos (suc bit)))
          × (see_column info i bit (record s { has_start = bit == 0 || s.has_start }) ≡ ok s'))
unfolding see
see-cases info i s s' e = elim (Outcome-cases (column info i)) [
  | inl (c, q) ↦
      let bit = magnitude (c -ℤ pos 1) in
      elim (Bool-cases (ltb_ℤ c (pos 1))) [
        | inl l ↦ inl (ground arith)
        | inr l ↦ elim (Bool-cases (leb bit 2)) [
          | inl m ↦ inr (bit, leb→le bit 2 m, rw (← (magnitude_minus c l)) q, ground arith)
          | inr m ↦ absurd (ground arith)
        ]
      ]
  | inr (inl q) ↦ absurd (ground arith)
  | inr (inr q) ↦ absurd (ground arith)
]

see-Agrees : (info : IndexInfo) (i : ℕ) (s s' : Seen) → Agrees s → see info i s ≡ ok s' → Agrees s'
see-Agrees info i s s' o e = elim (see-cases info i s s' e) [
  | inl q ↦ rw (← q) o
  | inr (bit, h, a, q) ↦
      see_column-Agrees info i bit (record s { has_start = bit == 0 || s.has_start }) s' o h q
]

pub same : (s s' : Seen) → ok s ≡ ok s' → s ≡ s'
same s s' e = ground arith

pub see_all-Agrees :
    (info : IndexInfo) (is : List ℕ) (s s' : Seen)
    → Agrees s
    → see_all info is s ≡ ok s'
    → Agrees s'
unfolding see_all
see_all-Agrees info [] s s' o e = rw (← (same s s' e)) o
see_all-Agrees info (i ∷ is) s s' o e = elim (Outcome-cases (see info i s)) [
  | inl (t, q) ↦ see_all-Agrees info is t s' (see-Agrees info i s t o q) (ground arith)
  | inr (inl q) ↦ absurd (ground arith)
  | inr (inr q) ↦ absurd (ground arith)
]

-- Whatever the constraints are, when the loop over them ends, the plan has the bit of start, stop
-- and step exactly if a constraint was found to give that argument: these are the bits by which
-- `filter` takes its arguments, in the same order.
see_all-plan :
    (info : IndexInfo) (is : List ℕ) (s : Seen)
    → see_all info is nothing_seen ≡ ok s
    → (a : Option ℕ) × (b : Option ℕ) × (c : Option ℕ) × (s.arg_index ≡ a ∷ b ∷ c ∷ [])
      × (has_bit s.query_plan 1 ≡ is_some a)
      × (has_bit s.query_plan 2 ≡ is_some b)
      × (has_bit s.query_plan 4 ≡ is_some c)
see_all-plan info is s e =
    let (a, b, c, q, p) = see_all-Agrees info is nothing_seen s (none, none, none, refl, refl) e in
    let (x, y, z) = has_bit-plan_of a b c in (a, b, c, q, rw p x, rw p y, rw p z)
