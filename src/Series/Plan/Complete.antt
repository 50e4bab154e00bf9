-- ===== src/Series/Plan/Complete.antt =====
-- No usable test for equality on start, stop or step is overlooked.
use sqlite3_ext.Prelude.{
  ℕ, zero, suc, ◌+◌, ◌≤◌, ◌<◌, ◌≡◌, refl, true, false, List, [], ◌∷◌, arith, Option, none, some,
  length, set, length-set, ok, ◌==◌, ◌||◌, Outcome-cases, inl, inr, ap, ◌∙◌, sym, leb, Bool-cases,
  ◌^◌,
}
use sqlite3_ext.Prelude.Int.{pos, ltb_ℤ}
use sqlite3_ext.IndexInfo.{IndexInfo}
use sqlite3_ext.IndexInfo.Fields.{range, pos_minus}
use sqlite3_ext.Series.{with_bit}
use sqlite3_ext.Series.Plan.{Seen, see, see_all}
use sqlite3_ext.Series.Plan.Agreement.{see-cases, same}
use sqlite3_ext.Series.Plan.Found.{Asked, see_column-arg_index}

abbrev pub IsFilled : ℕ → List (Option ℕ) → Type 0
IsFilled k [] = ⊥
IsFilled zero (none ∷ os) = ⊥
IsFilled zero (some j ∷ os) = Unit
IsFilled (suc k) (o ∷ os) = IsFilled k os

set-IsFilled :
    (k bit i : ℕ) (os : List (Option ℕ)) → IsFilled k os → IsFilled k (set os bit (some i))
set-IsFilled k bit i [] f = f
set-IsFilled zero zero i (o ∷ os) f = tt
set-IsFilled zero (suc bit) i (none ∷ os) f = f
set-IsFilled zero (suc bit) i (some j ∷ os) f = tt
set-IsFilled (suc k) zero i (o ∷ os) f = f
set-IsFilled (suc k) (suc bit) i (o ∷ os) f = set-IsFilled k bit i os f

set_self-IsFilled :
    (k i : ℕ) (os : List (Option ℕ)) → k < length os → IsFilled k (set os k (some i))
set_self-IsFilled k i [] l = absurd (omega arith)
set_self-IsFilled zero i (o ∷ os) l = tt
set_self-IsFilled (suc k) i (o ∷ os) l = set_self-IsFilled k i os (omega arith)

-- A round keeps the places, and those that are filled.
see-keeps :
    (info : IndexInfo) (i k : ℕ) (s s' : Seen)
    → see info i s ≡ ok s'
    → (length s'.arg_index ≡ length s.arg_index)
      × (IsFilled k s.arg_index → IsFilled k s'.arg_index)
see-keeps info i k s s' e = elim (see-cases info i s s' e) [
  | inl q ↦ (ap (λ x. length x.arg_index) (sym q), λ f. rw (← q) f)
  | inr (bit, h, c, q) ↦
      elim (see_column-arg_index info i bit (record s { has_start = bit == 0 || s.has_start }) s'
        q) [
          | inl (r, u, t) ↦ (
            ap length r ∙ length-set s.arg_index bit (some i),
            λ f. rw r (set-IsFilled k bit i s.arg_index f),
          )
          | inr r ↦ (ap length r, λ f. rw r f)
        ]
]

low : (k : ℕ) → ltb_ℤ (pos (suc k)) (pos 1) ≡ false
low k = ground arith

small : (k : ℕ) → k ≤ 2 → leb k 2 ≡ true
small k h = ground arith

see-Asked :
    (info : IndexInfo) (i k : ℕ) (s s' : Seen)
    → Asked info k i
    → k ≤ 2
    → see info i s ≡ ok s'
    → s'.arg_index ≡ set s.arg_index k (some i)
unfolding see
see-Asked info i k s s' a h e =
    let seen : see info i s
        ≡ ok (record s {
          has_start = k == 0 || s.has_start;
          query_plan = with_bit s.query_plan (2 ^ k);
          arg_index = set s.arg_index k (some i);
        }) =
      rw (a.0, pos_minus k, low k, small k h, a.1, a.2) refl in
    ap (λ x. x.arg_index) (same s' _ (sym e ∙ seen))

see_all-keeps :
    (info : IndexInfo) (is : List ℕ) (k : ℕ) (s s' : Seen)
    → IsFilled k s.arg_index
    → see_all info is s ≡ ok s'
    → IsFilled k s'.arg_index
unfolding see_all
see_all-keeps info [] k s s' f e = rw (← (same s s' e)) f
see_all-keeps info (i ∷ is) k s s' f e = elim (Outcome-cases (see info i s)) [
  | inl (t, q) ↦ see_all-keeps info is k t s' ((see-keeps info i k s t q).1 f) (ground arith)
  | inr (inl q) ↦ absurd (ground arith)
  | inr (inr q) ↦ absurd (ground arith)
]

-- A usable test for equality on start, stop or step among n constraints fills the place.
pub see_all-IsFilled :
    (info : IndexInfo) (n m i k : ℕ) (s s' : Seen)
    → Asked info k i
    → k ≤ 2
    → length s.arg_index ≡ 3
    → m ≤ i
    → i < m + n
    → see_all info (range m n) s ≡ ok s'
    → IsFilled k s'.arg_index
unfolding see_all
see_all-IsFilled info zero m i k s s' a h l x y e = absurd (omega arith)
see_all-IsFilled info (suc n) m i k s s' a h l x y e = elim (Outcome-cases (see info m s)) [
  | inl (t, q) ↦
      let rest : see_all info (range (m + 1) n) t ≡ ok s' = ground (arith, e, q) in
      elim (Bool-cases (m == i)) [
        | inl c ↦
            let here : m ≡ i = ground arith in
            let set_here = see-Asked info i k s t a h (rw (← here) q) in
            see_all-keeps info (range (m + 1) n) k t s'
              (rw set_here (set_self-IsFilled k i s.arg_index (omega arith))) rest
        | inr c ↦
            see_all-IsFilled info n (m + 1) i k t s' a h ((see-keeps info m k s t q).0 ∙ l)
              (ground arith) (omega arith) rest
      ]
  | inr (inl q) ↦ absurd (ground arith)
  | inr (inr q) ↦ absurd (ground arith)
]
