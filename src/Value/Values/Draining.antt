-- ===== src/Value/Values/Draining.antt =====
-- That a ValueList gives every value once, in order, and then no more.
use sqlite3_ext.Prelude.{ℕ, suc, ◌≡◌, refl, ap, true, List, [], ◌∷◌, length, Option, none, some, ok}
use sqlite3_ext.Version.{Build, match_version, require_version, supports}
use sqlite3_ext.Types.{from_sqlite}
use sqlite3_ext.Types.Codes.{sqlite_ok, sqlite_done}
use sqlite3_ext.Value.Values.{ListApi, ValueList, from_value_ref, next, drain}

abbrev pub head? : {V : Type 0} → List V → Option V
head? [] = none
head? (x ∷ xs) = some x

abbrev pub tail : {V : Type 0} → List V → List V
tail [] = []
tail (x ∷ xs) = xs

-- SQLITE_OK with a value, SQLITE_DONE with none.
abbrev pub answer : {V : Type 0} → List V → ℕ
answer [] = sqlite_done
answer (x ∷ xs) = sqlite_ok

-- What SQLite documents: `all` are the values of the list, and `rest` those still to come.
pub record Enumerates {S V : Type 0} (api : ListApi S V) (all rest : S → List V) : Type 0 where
  pub first_code : (s : S) → (api.in_first s).0 ≡ answer (all s)
  pub first_value : (s : S) → (api.in_first s).1 ≡ head? (all s)
  pub first_rest : (s : S) → rest (api.in_first s).2 ≡ tail (all s)
  pub next_code : (s : S) → (api.in_next s).0 ≡ answer (rest s)
  pub next_value : (s : S) → (api.in_next s).1 ≡ head? (rest s)
  pub next_rest : (s : S) → rest (api.in_next s).2 ≡ tail (rest s)

module _ {S V : Type 0} (api : ListApi S V) (all rest : S → List V) (laws : Enumerates api all rest)
    (b : Build) (new_enough : supports b 3038000 ≡ true) where
  -- The values that a list will give: the pending one first, if there is one.
  abbrev Coming : Option (Option V) → S → List V → Type 0
  Coming none s xs = rest s ≡ xs
  Coming (some x) s xs = (x ≡ head? xs) × (rest s ≡ tail xs)

  answer-from_sqlite : (xs : List V) → from_sqlite (answer xs) ≡ ok tt
  unfolding from_sqlite
  answer-from_sqlite [] = refl
  answer-from_sqlite (x ∷ xs) = refl

  next_lem :
      (p : Option (Option V)) (s : S) (xs : List V)
      → Coming p s xs
      → (s' : S) × (next api b (record { base = s; pending = p })
          ≡ (ok (head? xs), record { base = s'; pending = none }))
        × (rest s' ≡ tail xs)
  unfolding next match_version
  next_lem none s xs h = (
    (api.in_next s).2,
    rw (new_enough, laws.next_code s, answer-from_sqlite (rest s), laws.next_value s, h) refl,
    rw (laws.next_rest s, h) refl,
  )
  next_lem (some x) s xs h = (s, rw (new_enough, h.0) refl, h.1)

  drain_more :
      (fuel : ℕ) (l : ValueList S V) {l' l'' : ValueList S V} {x : V} {xs : List V}
      → next api b l ≡ (ok (some x), l')
      → drain api b fuel l' ≡ some (ok xs, l'')
      → drain api b (suc fuel) l ≡ some (ok (x ∷ xs), l'')
  unfolding drain
  drain_more fuel l e h = rw (e, h) refl

  drain_lem :
      (p : Option (Option V)) (s : S) (xs : List V)
      → Coming p s xs
      → (s' : S) × (drain api b (suc (length xs)) (record { base = s; pending = p })
          ≡ some (ok xs, record { base = s'; pending = none }))
        × (rest s' ≡ [])
  unfolding drain
  drain_lem p s [] h = let (s', e, r) = next_lem p s [] h in (s', rw e refl, r)
  drain_lem p s (x ∷ xs) h =
      let (s', e, r) = next_lem p s (x ∷ xs) h in
      let (s'', e', r') = drain_lem none s' xs r in (s'', drain_more (suc (length xs)) _ e e', r')

  -- The list can be made, the loop over it ends after one round more than there are values, with
  -- each value once and in order, and then the list keeps saying that there are no more.
  pub drain-from_value_ref :
      (s : S)
      → (l l' : ValueList S V) × (from_value_ref api b s ≡ ok l)
        × (drain api b (suc (length (all s))) l ≡ some (ok (all s), l'))
        × ((next api b l').0 ≡ ok none)
  unfolding from_value_ref require_version match_version
  drain-from_value_ref s =
      let (s', e, r) =
        drain_lem (some (api.in_first s).1) (api.in_first s).2 (all s)
          (laws.first_value s, laws.first_rest s) in
      let (s'', e', r') = next_lem none s' [] r in
      (
        record { base = (api.in_first s).2; pending = some (api.in_first s).1 },
        record { base = s'; pending = none },
        rw (new_enough, laws.first_code s, answer-from_sqlite (all s)) refl,
        e,
        ap (λ p. p.0) e',
      )
