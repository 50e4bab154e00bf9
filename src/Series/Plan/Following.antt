-- ===== src/Series/Plan/Following.antt =====
-- From the constraints of a query to the cursor of generate_series: best_index, then the arguments
-- that SQLite passes for the plan, then filter.
use sqlite3_ext.Prelude.{
  ℕ, ◌≤◌, ◌≡◌, refl, List, [], ◌∷◌, map, arith, Option, none, some, length, ok, bind, ap, sym, ◌∙◌,
  Outcome, Outcome-cases, inl, inr, suc,
}
use mathlib.Core.Path.{subst}
use sqlite3_ext.Prelude.Int.{ℤ, pos}
use sqlite3_ext.Version.{Build}
use sqlite3_ext.IndexInfo.{Usage, IndexInfo}
use sqlite3_ext.IndexInfo.Fields.{range}
use sqlite3_ext.IndexInfo.Passing.{uses, argv, passed}
use sqlite3_ext.Series.{Cursor, i64_max, has_bit, start_at, filter}
use sqlite3_ext.Series.Taking.{pick, stepped, filter-pick}
use sqlite3_ext.Series.Plan.{Seen, nothing_seen, see_all, assign, decide, best_index}
use sqlite3_ext.Series.Plan.Agreement.{see_all-Agrees, has_bit-plan_of}
use sqlite3_ext.Series.Plan.Found.{Asked, Slot, Found, see_all-Found}
use sqlite3_ext.Series.Plan.Complete.{IsFilled, see_all-IsFilled}
use sqlite3_ext.Series.Plan.Passing.{
  AreFree, ArePresent, chosen, count, usages, assign-usages, uses-usages, passed-usages,
}
use sqlite3_ext.Series.Plan.Places.{
  IsClear, uses-clear, entry-clear, column_lt, Found-AreFree, Found-ArePresent,
}
use sqlite3_ext.Series.Plan.Deciding.{decide-SameBits}

best_index-parts :
    (b : Build) (info info' : IndexInfo)
    → best_index b info ≡ (ok tt, info')
    → (s : Seen) × (info'' : IndexInfo) × (see_all info
          (range 0 (length info.a_constraint))
          nothing_seen
        ≡ ok s)
      × (assign s.arg_index 0 info ≡ ok info'')
      × (decide b s info'' ≡ (ok tt, info'))
unfolding best_index
best_index-parts b info info' e =
    elim (Outcome-cases (see_all info (range 0 (length info.a_constraint)) nothing_seen)) [
      | inl (s, q) ↦ elim (Outcome-cases (assign s.arg_index 0 info)) [
        | inl (info'', r) ↦ (s, info'', q, r, ground (arith, e, q, r))
        | inr (inl r) ↦ absurd (ground (arith, e, q, r))
        | inr (inr r) ↦ absurd (ground (arith, e, q, r))
      ]
      | inr (inl q) ↦ absurd (ground (arith, e, q))
      | inr (inr q) ↦ absurd (ground (arith, e, q))
    ]

-- The arguments that are passed once the places are assigned.
argv-usages :
    (slots : List (Option ℕ)) (us : List Usage) (values : List ℤ)
    → IsClear us
    → AreFree us slots
    → ArePresent slots values
    → argv (usages slots 0 us) values ≡ some (chosen slots values)
argv-usages slots us values h f p =
    let all : uses (usages slots 0 us) ≡ count slots =
      omega (arith, uses-usages slots 0 us f, uses-clear us h) in
    ap (λ n. passed n 1 (usages slots 0 us) values) all
    ∙ passed-usages slots 0 us values (λ m l. entry-clear m us values l h) p f

count_le : (slots : List (Option ℕ)) → count slots ≤ length slots
count_le [] = omega arith
count_le (none ∷ slots) = omega (arith, count_le slots)
count_le (some j ∷ slots) = omega (arith, count_le slots)

same_ok : {i i' : IndexInfo} → ok i ≡ ok i' → i ≡ i'
same_ok e = cc

-- The cursor that begins at the values of three places.
abbrev pub begun : ℕ → Option ℕ → Option ℕ → Option ℕ → List ℤ → Cursor → Outcome Cursor
begun plan start stop step values cur = bind (stepped plan step values) λ s.
    start_at s.1 (record cur {
      min_value = pick start values cur.min_value;
      max_value = pick stop values i64_max;
      step = s.0;
    })

-- A place names a usable test for equality on column k + 1, or there is none.
abbrev pub Gives : IndexInfo → ℕ → Option ℕ → Type 0
Gives info k none = (j : ℕ) → ¬ Asked info k j
Gives info k (some j) = Asked info k j

slot-Gives :
    (info : IndexInfo) (k : ℕ) (o : Option ℕ) (slots : List (Option ℕ))
    → Slot info k o
    → ((j : ℕ) → Asked info k j → IsFilled 0 (o ∷ slots))
    → Gives info k o
slot-Gives info k none slots found filled = filled
slot-Gives info k (some j) slots found filled = found

-- When best_index succeeds on the constraints of a query, none of which asks for an argument
-- before: if there are usable tests for equality on start, one of them is taken for it, and the
-- same for stop and for step; SQLite passes the values on their right, in this order and without a
-- gap, for the usages that best_index leaves; and with the plan and these arguments, if none of
-- them is NULL, filter begins at the values that were given for start, stop and step, or with
-- those that stand for a missing one.
pub best_index-filter :
    (b : Build) (info info' : IndexInfo) (values : List ℤ) (cur : Cursor)
    → length info.a_constraint_usage ≡ length info.a_constraint
    → length values ≡ length info.a_constraint
    → IsClear info.a_constraint_usage
    → best_index b info ≡ (ok tt, info')
    → (start : Option ℕ) × (stop : Option ℕ) × (step : Option ℕ) × (plan : ℕ) × Gives info 0 start
      × Gives info 1 stop
      × Gives info 2 step
      × (info'.idx_num ≡ pos plan)
      × (let args = chosen (start ∷ stop ∷ step ∷ []) values in
          (argv info'.a_constraint_usage values ≡ some args)
          × (filter plan (map some args) cur ≡ begun plan start stop step values cur))
best_index-filter b info info' values cur l m z e =
    let (s, info'', seen, assigned, decided) = best_index-parts b info info' e in
    let places = range 0 (length info.a_constraint) in
    let (start, stop, step, q, p) =
      see_all-Agrees info places nothing_seen s (none, none, none, refl, refl) seen in
    let slots = start ∷ stop ∷ step ∷ [] in
    let found : Found info 0 slots =
      subst (Found info 0) q (see_all-Found info places nothing_seen s (tt, (tt, (tt, tt))) seen) in
    let filled : (k j : ℕ) → k ≤ 2 → Asked info k j → IsFilled k slots = λ k j h a.
      subst (IsFilled k) q (
        see_all-IsFilled info (length info.a_constraint) 0 j k nothing_seen s a h refl (omega arith)
          (omega (arith, column_lt info j (pos (suc k)) a.0)) seen) in
    let us = info.a_constraint_usage in
    let free = Found-AreFree info us 0 slots l z found in
    let present = Found-ArePresent info values 0 slots m found in
    let (kept, (plan, num, bits)) = decide-SameBits b s info'' info' decided in
    let done : record info { a_constraint_usage = usages slots 0 us } ≡ info'' = same_ok (
      sym (assign-usages slots 0 info (omega (arith, count_le slots)) free)
      ∙ sym (ap (λ places. assign places 0 info) q)
      ∙ assigned) in
    let final = kept ∙ ap (λ i. i.a_constraint_usage) (sym done) in
    let (x, y, w) = has_bit-plan_of start stop step in
    (
      start,
      stop,
      step,
      plan,
      slot-Gives info 0 start (stop ∷ step ∷ []) found.0 (λ j. filled 0 j (omega arith)),
      slot-Gives info 1 stop (step ∷ []) found.1.0 (λ j. filled 1 j (omega arith)),
      slot-Gives info 2 step [] found.1.1.0 (λ j. filled 2 j (omega arith)),
      num,
      (
        ap (λ us. argv us values) final ∙ argv-usages slots us values z free present,
        filter-pick plan cur start stop step values (bits.0 ∙ ap (λ n. has_bit n 1) p ∙ x)
            (bits.1 ∙ ap (λ n. has_bit n 2) p ∙ y) (bits.2 ∙ ap (λ n. has_bit n 4) p ∙ w) present
            (Found-ArePresent info values 1 (stop ∷ step ∷ []) m found.1)
            (Found-ArePresent info values 2 (step ∷ []) m (found.1.1)),
      ),
    )
