-- ===== src/Series/Taking.antt =====
-- How `filter` takes the arguments that are there, by the bits of its plan.
use sqlite3_ext.Prelude.{
  ℕ, ◌≡◌, refl, false, List, [], ◌∷◌, map, Option, none, some, get_elem?, Outcome, ok, err, panic,
  bind,
}
use sqlite3_ext.Prelude.Int.{ℤ, pos}
use sqlite3_ext.Series.{
  Cursor, Arg, i64_max, has_bit, any_null, take_start, take_stop, take_step, set_step, start_at,
  filter,
}
use sqlite3_ext.Series.Plan.Agreement.{is_some}
use sqlite3_ext.Series.Plan.Passing.{chosen, ArePresent}

-- The value of the constraint that a place names, or what stands for a missing argument.
abbrev pub pick : Option ℕ → List ℤ → ℤ → ℤ
pick none vs d = d
pick (some j) vs d = elim (get_elem? vs j) [ some v ↦ v | none ↦ d ]

-- The step and the plan with the order.
abbrev pub stepped : ℕ → Option ℕ → List ℤ → Outcome (ℤ × ℕ)
stepped plan none vs = ok (pos 1, plan)
stepped plan (some j) vs = set_step plan (pick (some j) vs (pos 0))

abbrev args : List (Option ℕ) → List ℤ → List Arg
args slots vs = map some (chosen slots vs)

no_null : (vs : List ℤ) → any_null (map some vs) ≡ false
no_null [] = refl
no_null (v ∷ vs) = no_null vs

take_start-pick :
    (plan : ℕ) (c : Cursor) (o : Option ℕ) (slots : List (Option ℕ)) (vs : List ℤ)
    → has_bit plan 1 ≡ is_some o
    → ArePresent (o ∷ slots) vs
    → take_start plan c (args (o ∷ slots) vs)
      ≡ ok (record c { min_value = pick o vs c.min_value }, args slots vs)
take_start-pick plan c none slots vs h p = rw h refl
take_start-pick plan c (some j) slots vs h p = let (v, q) = p.0 in rw (h, chosen, pick, q) refl

take_stop-pick :
    (plan : ℕ) (c : Cursor) (o : Option ℕ) (slots : List (Option ℕ)) (vs : List ℤ)
    → has_bit plan 2 ≡ is_some o
    → ArePresent (o ∷ slots) vs
    → take_stop plan c (args (o ∷ slots) vs)
      ≡ ok (record c { max_value = pick o vs i64_max }, args slots vs)
take_stop-pick plan c none slots vs h p = rw h refl
take_stop-pick plan c (some j) slots vs h p = let (v, q) = p.0 in rw (h, chosen, pick, q) refl

take_step-stepped :
    (plan : ℕ) (c : Cursor) (o : Option ℕ) (vs : List ℤ)
    → has_bit plan 4 ≡ is_some o
    → ArePresent (o ∷ []) vs
    → take_step plan c (args (o ∷ []) vs)
      ≡ bind (stepped plan o vs) (λ s. ok (record c { step = s.0 }, s.1))
take_step-stepped plan c none vs h p = rw h refl
take_step-stepped plan c (some j) vs h p = let (v, q) = p.0 in rw (h, chosen, stepped, pick, q) refl

bind_assoc :
    {A B C : Type 0}
    → (o : Outcome A) (f : A → B) (g : B → Outcome C)
    → bind (bind o (λ x. ok (f x))) g ≡ bind o (λ x. g (f x))
bind_assoc (ok x) f g = refl
bind_assoc (err e) f g = refl
bind_assoc panic f g = refl

-- `filter` for the arguments that the plan says are there.
pub filter-pick :
    (plan : ℕ) (cur : Cursor) (a b c : Option ℕ) (vs : List ℤ)
    → has_bit plan 1 ≡ is_some a
    → has_bit plan 2 ≡ is_some b
    → has_bit plan 4 ≡ is_some c
    → ArePresent (a ∷ b ∷ c ∷ []) vs
    → ArePresent (b ∷ c ∷ []) vs
    → ArePresent (c ∷ []) vs
    → filter plan (map some (chosen (a ∷ b ∷ c ∷ []) vs)) cur
      ≡ bind (stepped plan c vs) (λ s. start_at s.1 (record cur {
        min_value = pick a vs cur.min_value;
        max_value = pick b vs i64_max;
        step = s.0;
      }))
unfolding filter
filter-pick plan cur a b c vs h k l p q r =
    let started = record cur { min_value = pick a vs cur.min_value } in
    let stopped = record started { max_value = pick b vs i64_max } in
    rw
      (
        no_null (chosen (a ∷ b ∷ c ∷ []) vs),
        take_start-pick plan cur a (b ∷ c ∷ []) vs h p,
        take_stop-pick plan started b (c ∷ []) vs k q,
        take_step-stepped plan stopped c vs l r,
      )
      (bind_assoc (stepped plan c vs) (λ s. (record stopped { step = s.0 }, s.1))
        (λ s. start_at s.1 s.0))
