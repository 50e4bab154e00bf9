-- ===== src/Series/Arguments.antt =====
-- The values that a cursor goes through for the arguments start, stop and step.
use sqlite3_ext.Prelude.{
  ℕ, zero, suc, ◌+◌, ◌^◌, ◌<◌, ◌≡◌, refl, Bool, true, false, List, [], ◌∷◌, arith, ok, some, ◌∙◌,
  ◌⊎◌, inl, inr,
}
use sqlite3_ext.Prelude.Int.{ℤ, pos, negsuc, ◌+ℤ◌, ◌-ℤ◌, rem_ℤ}
use sqlite3_ext.Series.{Cursor, Arg, filter, scan, run, set_step, last_value}
use sqlite3_ext.Series.Enumeration.{
  upward, downward, CountUp, CountDown, InI64, checked-InI64, ltb_ℤ-true, scan-up, scan-down,
}

set_step-positive : (plan s : ℕ) → set_step plan (pos (suc s)) ≡ ok (pos (suc s), plan)
unfolding set_step
set_step-positive plan s = ground arith

neg_negsuc : (s : ℕ) → pos 0 -ℤ negsuc s ≡ pos (suc s)
unfolding ◌-ℤ◌
neg_negsuc s = ground arith

set_step-negative : (s : ℕ) → suc s < 2 ^ 63 → set_step 7 (negsuc s) ≡ ok (pos (suc s), 15)
unfolding set_step
set_step-negative s h =
    rw
      (
        ltb_ℤ-true (negsuc s) (pos 0) (omega arith),
        neg_negsuc s,
        checked-InI64 (pos (suc s)) (h, omega arith),
      )
      refl

last_value-positive :
    (c : Cursor) (s : ℕ)
    → c.step ≡ pos (suc s)
    → InI64 (c.max_value -ℤ c.min_value)
    → InI64 (c.max_value -ℤ rem_ℤ (c.max_value -ℤ c.min_value) (suc s))
    → last_value c ≡ ok (c.max_value -ℤ rem_ℤ (c.max_value -ℤ c.min_value) (suc s))
unfolding last_value
last_value-positive c s e g h =
    rw
      (
        e,
        ltb_ℤ-true (pos 0) (pos (suc s)) (omega arith),
        checked-InI64 (c.max_value -ℤ c.min_value) g,
        checked-InI64 (c.max_value -ℤ rem_ℤ (c.max_value -ℤ c.min_value) (suc s)) h,
      )
      refl

abbrev enumerate : Bool → ℤ → ℤ → ℤ → ℕ → Cursor
enumerate desc v start stop s = record {
  desc = desc;
  rowid = pos 1;
  value = v;
  min_value = start;
  max_value = stop;
  step = pos (suc s);
}

run-ok :
    (fuel plan : ℕ) (args : List Arg) (c c' : Cursor)
    → filter plan args c ≡ ok c'
    → run fuel plan args c ≡ scan fuel c'
unfolding run
run-ok fuel plan args c c' e = rw (run, e) refl

filter-ascending :
    (plan : ℕ) (c : Cursor) (start stop : ℤ) (s : ℕ)
    → (plan ≡ 7) ⊎ (plan ≡ 23)
    → filter plan (some start ∷ some stop ∷ some (pos (suc s)) ∷ []) c
      ≡ ok (enumerate false start start stop s)
unfolding filter
filter-ascending plan c start stop s p = elim p [
  | inl q ↦ rw (q, set_step-positive 7 s) refl
  | inr q ↦ rw (q, set_step-positive 23 s) refl
]

filter-descending :
    (plan : ℕ) (c : Cursor) (start stop step : ℤ) (s : ℕ)
    → ((plan ≡ 7) × (step ≡ negsuc s)) ⊎ ((plan ≡ 15) × (step ≡ pos (suc s)))
    → suc s < 2 ^ 63
    → InI64 (stop -ℤ start)
    → InI64 (stop -ℤ rem_ℤ (stop -ℤ start) (suc s))
    → filter plan (some start ∷ some stop ∷ some step ∷ []) c
      ≡ ok (enumerate true (stop -ℤ rem_ℤ (stop -ℤ start) (suc s)) start stop s)
unfolding filter
filter-descending plan c start stop step s p z g h =
    let b = enumerate c.desc c.value start stop s in
    let l = last_value-positive (record b { rowid = c.rowid }) s refl g h in
    elim p [
      | inl q ↦ rw (q.0, q.1, set_step-negative s z, l) refl
      | inr q ↦ rw (q.0, q.1, set_step-positive 15 s, l) refl
    ]

-- For the three arguments start, stop and a step s that is not 0, with no order asked for (or an
-- ascending one), the rows are start, start + s, start + 2 s and so on, all those that are at most
-- stop, whatever an earlier run left in the cursor. It is asked that stop + s is an i64: past the
-- last row, `next` computes one more value.
pub run-ascending :
    (n fuel plan : ℕ) (c : Cursor) (start stop : ℤ) (s : ℕ)
    → (plan ≡ 7) ⊎ (plan ≡ 23)
    → 0 < s
    → InI64 start
    → InI64 (stop +ℤ pos s)
    → n + 1 < 2 ^ 63
    → CountUp start s stop n
    → n < fuel
    → run fuel plan (some start ∷ some stop ∷ some (pos s) ∷ []) c ≡ some (ok (upward start s n))
run-ascending n fuel plan c start stop (suc s) p z i j k m f =
    let b = enumerate false start start stop s in
    run-ok fuel plan (some start ∷ some stop ∷ some (pos (suc s)) ∷ []) c b
      (filter-ascending plan c start stop s p)
    ∙ scan-up n fuel b start (suc s) 1 refl refl (i.1) j (omega arith) m f
run-ascending n fuel plan c start stop zero p z i j k m f = absurd (omega arith)

-- For start, stop and a negative step -s with no order asked for, and for start, stop and s with a
-- descending order, the rows go down from stop - ((stop - start) % s) in steps of s, all those that
-- are at least start.
pub run-descending :
    (n fuel plan : ℕ) (c : Cursor) (start stop step : ℤ) (s : ℕ)
    → ((plan ≡ 7) × (step ≡ negsuc s)) ⊎ ((plan ≡ 15) × (step ≡ pos (suc s)))
    → suc s < 2 ^ 63
    → InI64 (stop -ℤ start)
    → InI64 (stop -ℤ rem_ℤ (stop -ℤ start) (suc s))
    → InI64 (start -ℤ pos (suc s))
    → n + 1 < 2 ^ 63
    → CountDown (stop -ℤ rem_ℤ (stop -ℤ start) (suc s)) (suc s) start n
    → n < fuel
    → run fuel plan (some start ∷ some stop ∷ some step ∷ []) c
      ≡ some (ok (downward (stop -ℤ rem_ℤ (stop -ℤ start) (suc s)) (suc s) n))
run-descending n fuel plan c start stop step s p z g h j k m f =
    let v = stop -ℤ rem_ℤ (stop -ℤ start) (suc s) in
    let b = enumerate true v start stop s in
    run-ok fuel plan (some start ∷ some stop ∷ some step ∷ []) c b
      (filter-descending plan c start stop step s p z g h)
    ∙ scan-down n fuel b v (suc s) 1 refl refl (h.0) j (omega arith) m f
