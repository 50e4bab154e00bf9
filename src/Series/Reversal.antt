-- ===== src/Series/Reversal.antt =====
-- Ascending and descending runs over the same bounds.
use native.Mathlib.Nat.{div-add-mod', mod-lt, zero-lt-suc}
use sqlite3_ext.Prelude.{
  ℕ, zero, suc, ◌+◌, ◌*◌, ◌/◌, ◌%◌, ◌^◌, ◌<◌, ◌≡◌, refl, ap, ◌∙◌, List, [], ◌∷◌, ◌++◌, arith, ok,
  some, inl, inr, ◌⊎◌,
}
use sqlite3_ext.Prelude.Int.{
  ℤ, pos, negsuc, pos_part, neg_part, ◌+ℤ◌, ◌-ℤ◌, rem_ℤ, +ℤ_parts, -ℤ_parts, eq_of_parts,
}
use sqlite3_ext.Series.{Cursor, run}
use sqlite3_ext.Series.Enumeration.{upward, downward, CountUp, CountDown, InI64, one_part}
use sqlite3_ext.Series.Arguments.{run-ascending, run-descending}

mul_suc : (q s : ℕ) → suc q * s ≡ s + q * s
mul_suc q s = omega arith

-- The last of the values, q steps of s above v.
abbrev last : ℤ → ℕ → ℕ → ℤ
last v s zero = v
last v s (suc q) = last (v +ℤ pos s) s q

last_parts :
    (v : ℤ) (s q : ℕ)
    → pos_part (last v s q) + neg_part v ≡ neg_part (last v s q) + pos_part v + q * s
last_parts v s zero = omega arith
last_parts v s (suc q) =
    let p = +ℤ_parts v (pos s) in omega (arith, last_parts (v +ℤ pos s) s q, mul_suc q s)

CountUp_lem :
    (q : ℕ) (v m : ℤ) (s r : ℕ)
    → r < s
    → pos_part m + neg_part v ≡ neg_part m + pos_part v + (q * s + r)
    → CountUp v s m (suc q)
CountUp_lem zero v m s r h e = let p = +ℤ_parts v (pos s) in (omega arith, omega arith)
CountUp_lem (suc q) v m s r h e =
    let p = +ℤ_parts v (pos s) in
    (omega (arith, mul_suc q s), CountUp_lem q (v +ℤ pos s) m s r h (omega (arith, mul_suc q s)))

CountDown_lem :
    (q : ℕ) (w v : ℤ) (s : ℕ)
    → 0 < s
    → pos_part w + neg_part v ≡ neg_part w + pos_part v + q * s
    → CountDown w s v (suc q)
CountDown_lem zero w v s h e = let p = -ℤ_parts w (pos s) in (omega arith, omega arith)
CountDown_lem (suc q) w v s h e =
    let p = -ℤ_parts w (pos s) in
    (omega (arith, mul_suc q s), CountDown_lem q (w -ℤ pos s) v s h (omega (arith, mul_suc q s)))

abbrev pub reverse : List ℤ → List ℤ
reverse [] = []
reverse (x ∷ xs) = reverse xs ++ (x ∷ [])

downward-snoc :
    (n : ℕ) (w v : ℤ) (s : ℕ)
    → pos_part w + neg_part v ≡ neg_part w + pos_part v + n * s
    → downward w s (suc n) ≡ downward w s n ++ (v ∷ [])
downward-snoc zero w v s e = ap (λ x. x ∷ []) (eq_of_parts w v (omega arith))
downward-snoc (suc n) w v s e =
    let p = -ℤ_parts w (pos s) in
    ap (◌∷◌ w) (downward-snoc n (w -ℤ pos s) v s (omega (arith, mul_suc n s)))

downward-reverse :
    (n : ℕ) (v : ℤ) (s : ℕ) → downward (last v s n) s (suc n) ≡ reverse (upward v s (suc n))
downward-reverse zero v s = refl
downward-reverse (suc n) v s =
    let w = last (v +ℤ pos s) s n in
    let e = last_parts v s (suc n) in
    downward-snoc (suc n) w v s (omega arith)
    ∙ ap (λ xs. xs ++ (v ∷ [])) (downward-reverse n (v +ℤ pos s) s)

-- The distance from start to stop, and what `filter` makes of it.
module _ (start stop : ℤ) (s d : ℕ)
    (apart : pos_part stop + neg_part start ≡ neg_part stop + pos_part start + d) where
  abbrev steps : ℕ
  steps = d / suc s

  split : steps * suc s + d % suc s ≡ d
  split = div-add-mod' d (suc s)

  span : stop -ℤ start ≡ pos d
  span = let p = -ℤ_parts stop start in eq_of_parts (stop -ℤ start) (pos d) (omega arith)

  last_value_lem : stop -ℤ rem_ℤ (stop -ℤ start) (suc s) ≡ last start (suc s) steps
  unfolding rem_ℤ
  last_value_lem =
      let p = -ℤ_parts stop (pos (d % suc s)) in
      let q = last_parts start (suc s) steps in
      rw (span, rem_ℤ)
        (eq_of_parts (stop -ℤ pos (d % suc s)) (last start (suc s) steps) (omega (arith, split)))

  last-InI64 : InI64 start → InI64 stop → InI64 (last start (suc s) steps)
  last-InI64 i j =
      let q = last_parts start (suc s) steps in
      elim (one_part (last start (suc s) steps)) [
        | inl e ↦ (omega (arith, split), omega (arith, split))
        | inr e ↦ (omega (arith, split), omega (arith, split))
      ]

  -- A descending run over the same bounds, by the step -s or by the step s with a descending order,
  -- gives the rows of the ascending run in the opposite order, and both end: with d = stop - start,
  -- each has d / s + 1 rows, from start on in steps of s, and one round more is enough. It is asked
  -- that the values one step outside of the bounds, and d, are i64, and that the rows can be counted
  -- in one.
  pub run-reverse :
      (fuel up_plan down_plan : ℕ) (step : ℤ) (c c' : Cursor)
      → (up_plan ≡ 7) ⊎ (up_plan ≡ 23)
      → ((down_plan ≡ 7) × (step ≡ negsuc s)) ⊎ ((down_plan ≡ 15) × (step ≡ pos (suc s)))
      → suc s < 2 ^ 63
      → InI64 start
      → InI64 stop
      → d < 2 ^ 63
      → InI64 (stop +ℤ pos (suc s))
      → InI64 (start -ℤ pos (suc s))
      → d / suc s + 2 < 2 ^ 63
      → d / suc s + 1 < fuel
      → let rows = upward start (suc s) (suc (d / suc s)) in
        (run fuel up_plan (some start ∷ some stop ∷ some (pos (suc s)) ∷ []) c ≡ some (ok rows))
        × (run fuel down_plan (some start ∷ some stop ∷ some step ∷ []) c'
            ≡ some (ok (reverse rows)))
  run-reverse fuel up_plan down_plan step c c' a b z i j k above below m f =
      let n = suc (d / suc s) in
      let small = mod-lt d (zero-lt-suc s) in
      let w = last start (suc s) steps in
      let up : CountUp start (suc s) stop n =
        CountUp_lem steps start stop (suc s) (d % suc s) small (omega (arith, split)) in
      let down : CountDown w (suc s) start n =
        CountDown_lem steps w start (suc s) (zero-lt-suc s)
          (omega (arith, last_parts start (suc s) steps)) in
      (
        run-ascending n fuel up_plan c start stop (suc s) a (zero-lt-suc s) i above (omega arith) up
            (omega arith),
        run-descending n fuel down_plan c' start stop step s b z (rw span (k, omega arith))
              (rw last_value_lem (last-InI64 i j)) below (omega arith) (rw last_value_lem down)
              (omega arith)
            ∙ rw (last_value_lem, downward-reverse steps start (suc s)) refl,
      )
