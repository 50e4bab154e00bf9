-- ===== src/Series/Plan/Passing.antt =====
-- The arguments that SQLite passes for the plan of best_index: their numbers are consecutive, in
-- the order start, stop, step.
use sqlite3_ext.Prelude.{
  ℕ, zero, suc, ◌+◌, ◌<◌, ◌≤◌, ◌≡◌, ◌≢◌, refl, ap, sym, ◌∙◌, true, List, [], ◌∷◌, arith, Option,
  none, some, get_elem?, get_elem?-set_self, get_elem?-set_ne, set, length, ok,
}
use sqlite3_ext.Prelude.Int.{pos}
use sqlite3_ext.IndexInfo.{Usage, IndexInfo}
use sqlite3_ext.IndexInfo.Constraints.{set_usage, set_omit, encoded}
use sqlite3_ext.IndexInfo.Fields.{set_argv_index-ok}
use sqlite3_ext.IndexInfo.Passing.{entry, uses, passed, entry-set_self, entry-set_ne, uses-set}
use sqlite3_ext.Series.Plan.{assign}

-- The usage of the constraint that gives argument n.
abbrev pub filled : ℕ → Usage
filled n = record { argv_index = pos (suc n); omit = 1 }

set-set : (us : List Usage) (i : ℕ) (u u' : Usage) → set (set us i u) i u' ≡ set us i u'
set-set [] i u u' = refl
set-set (x ∷ us) zero u u' = refl
set-set (x ∷ us) (suc i) u u' = rw (set-set us i u u') refl

some_lt : (us : List Usage) (i : ℕ) (u : Usage) → get_elem? us i ≡ some u → i < length us
some_lt [] i u e = absurd (ground arith)
some_lt (x ∷ us) zero u e = omega arith
some_lt (x ∷ us) (suc i) u e = omega (arith, some_lt us i u e)

encoded-some : (n : ℕ) → n < 3 → encoded (some n) ≡ ok (pos (suc n))
encoded-some n l = ground arith

set_omit-ok :
    (i : ℕ) (info : IndexInfo) (u : Usage)
    → get_elem? info.a_constraint_usage i ≡ some u
    → set_omit i true info ≡ ok (set_usage i (record u { omit = 1 }) info)
unfolding set_omit
set_omit-ok i info u e = ground arith

-- One round of the assignment.
assign-some :
    (j n : ℕ) (rest : List (Option ℕ)) (info : IndexInfo) (u : Usage)
    → get_elem? info.a_constraint_usage j ≡ some u
    → n < 3
    → assign (some j ∷ rest) n info ≡ assign rest (n + 1) (set_usage j (filled n) info)
unfolding assign
assign-some j n rest info u e l =
    let us = info.a_constraint_usage in
    let with_index = record u { argv_index = pos (suc n) } in
    let there = get_elem?-set_self us j with_index (some_lt us j u e) in
    rw
      (
        assign,
        set_argv_index-ok j (some n) info u (pos (suc n)) e (encoded-some n l),
        set_omit-ok j (set_usage j with_index info) with_index there,
        set-set us j with_index (filled n),
      )
      refl

-- The places name different constraints, which no argument is taken from yet.
abbrev pub Absent : ℕ → List (Option ℕ) → Type 0
Absent j [] = Unit
Absent j (none ∷ slots) = Absent j slots
Absent j (some i ∷ slots) = (j ≢ i) × Absent j slots

abbrev pub AreFree : List Usage → List (Option ℕ) → Type 0
AreFree us [] = Unit
AreFree us (none ∷ slots) = AreFree us slots
AreFree us (some j ∷ slots) =
    ((u : Usage) × (get_elem? us j ≡ some u) × (u.argv_index ≡ pos 0))
    × Absent j slots
    × AreFree us slots

set-AreFree :
    (us : List Usage) (slots : List (Option ℕ)) (j : ℕ) (u' : Usage)
    → Absent j slots
    → AreFree us slots
    → AreFree (set us j u') slots
set-AreFree us [] j u' a f = tt
set-AreFree us (none ∷ slots) j u' a f = set-AreFree us slots j u' a f
set-AreFree us (some i ∷ slots) j u' a f =
    let (u, e, z) = f.0 in
    ((u, get_elem?-set_ne us u' a.0 ∙ e, z), f.1, set-AreFree us slots j u' a.1 f.2)

abbrev pub count : List (Option ℕ) → ℕ
count [] = 0
count (none ∷ slots) = count slots
count (some j ∷ slots) = suc (count slots)

-- The usages once the assignment is done.
abbrev pub usages : List (Option ℕ) → ℕ → List Usage → List Usage
usages [] n us = us
usages (none ∷ slots) n us = usages slots n us
usages (some j ∷ slots) n us = usages slots (n + 1) (set us j (filled n))

pub assign-usages :
    (slots : List (Option ℕ)) (n : ℕ) (info : IndexInfo)
    → n + count slots ≤ 3
    → AreFree info.a_constraint_usage slots
    → assign slots n info
      ≡ ok (record info { a_constraint_usage = usages slots n info.a_constraint_usage })
unfolding assign
assign-usages [] n info h f = refl
assign-usages (none ∷ slots) n info h f = assign-usages slots n info h f
assign-usages (some j ∷ slots) n info h f =
    let (u, e, z) = f.0 in
    assign-some j n slots info u e (omega arith)
    ∙ assign-usages slots (n + 1) (set_usage j (filled n) info) (omega arith)
        (set-AreFree info.a_constraint_usage slots j (filled n) f.1 f.2)

pub uses-usages :
    (slots : List (Option ℕ)) (n : ℕ) (us : List Usage)
    → AreFree us slots
    → uses (usages slots n us) ≡ count slots + uses us
uses-usages [] n us f = omega arith
uses-usages (none ∷ slots) n us f = uses-usages slots n us f
uses-usages (some j ∷ slots) n us f =
    let (u, e, z) = f.0 in
    omega (
      arith,
      uses-usages slots (n + 1) (set us j (filled n)) (set-AreFree us slots j (filled n) f.1 f.2),
      uses-set us j u (filled n) e (rw z refl) (ground arith),
    )

module _ {V : Type 0} where
  -- The values of the constraints that the places name.
  abbrev pub chosen : List (Option ℕ) → List V → List V
  chosen [] vs = []
  chosen (none ∷ slots) vs = chosen slots vs
  chosen (some j ∷ slots) vs = elim (get_elem? vs j) [
    | some v ↦ v ∷ chosen slots vs
    | none ↦ chosen slots vs
  ]

  abbrev pub ArePresent : List (Option ℕ) → List V → Type 0
  ArePresent [] vs = Unit
  ArePresent (none ∷ slots) vs = ArePresent slots vs
  ArePresent (some j ∷ slots) vs = ((v : V) × (get_elem? vs j ≡ some v)) × ArePresent slots vs

  entry-filled :
      (m n j : ℕ) (us : List Usage) (vs : List V) (u : Usage)
      → get_elem? us j ≡ some u
      → u.argv_index ≡ pos 0
      → 0 < m
      → m ≢ suc n
      → entry m (set us j (filled n)) vs ≡ entry m us vs
  entry-filled m n j us vs u e z h ne =
      entry-set_ne m us vs j u (filled n) e (rw z (ground arith)) (ground arith)

  entry-usages :
      (m : ℕ) (slots : List (Option ℕ)) (n : ℕ) (us : List Usage) (vs : List V)
      → 0 < m
      → m ≤ n
      → AreFree us slots
      → entry m (usages slots n us) vs ≡ entry m us vs
  entry-usages m [] n us vs h k f = refl
  entry-usages m (none ∷ slots) n us vs h k f = entry-usages m slots n us vs h k f
  entry-usages m (some j ∷ slots) n us vs h k f =
      let (u, e, z) = f.0 in
      entry-usages m slots (n + 1) (set us j (filled n)) vs h (omega arith)
        (set-AreFree us slots j (filled n) f.1 f.2)
      ∙ entry-filled m n j us vs u e z h (λ q. omega (arith, q))

  passed-cons :
      (n k : ℕ) (us : List Usage) (vs : List V) (v : V) (rest : List V)
      → entry k us vs ≡ some v
      → passed n (k + 1) us vs ≡ some rest
      → passed (suc n) k us vs ≡ some (v ∷ rest)
  passed-cons n k us vs v rest e f = rw (passed, e, f) refl

  chosen-some :
      (j : ℕ) (slots : List (Option ℕ)) (vs : List V) (v : V)
      → get_elem? vs j ≡ some v
      → chosen (some j ∷ slots) vs ≡ v ∷ chosen slots vs
  chosen-some j slots vs v e = rw (chosen, e) refl

  -- The arguments that are passed are those of the places, in their order.
  pub passed-usages :
      (slots : List (Option ℕ)) (n : ℕ) (us : List Usage) (vs : List V)
      → ((m : ℕ) → n < m → entry m us vs ≡ none)
      → ArePresent slots vs
      → AreFree us slots
      → passed (count slots) (n + 1) (usages slots n us) vs ≡ some (chosen slots vs)
  passed-usages [] n us vs h p f = refl
  passed-usages (none ∷ slots) n us vs h p f = passed-usages slots n us vs h p f
  passed-usages (some j ∷ slots) n us vs h p f =
      let (u, e, z) = f.0 in
      let (v, q) = p.0 in
      let us' = set us j (filled n) in
      let f' = set-AreFree us slots j (filled n) f.1 f.2 in
      let here : entry (n + 1) (usages slots (n + 1) us') vs ≡ some v =
        entry-usages (n + 1) slots (n + 1) us' vs (omega arith) (omega arith) f'
        ∙ entry-set_self (n + 1) us vs j (filled n) v (some_lt us j u e) q (h (n + 1) (omega arith))
            (ground arith) in
      let later =
        passed-usages slots (n + 1) us' vs
          (λ m l.
            entry-filled m n j us vs u e z (omega arith) (λ r. omega (arith, r))
            ∙ h m (omega arith))
          p.1 f' in
      passed-cons (count slots) (n + 1) (usages slots (n + 1) us') vs v (chosen slots vs) here later
      ∙ ap some (sym (chosen-some j slots vs v q))
