-- ===== src/Tests/Decimals.antt =====
-- A sum of decimal numbers, where they are natural numbers of one digit: two rows come and go, and
-- two stay, one of which is NULL.
use sqlite3_ext.Prelude.{
  ℕ, ◌+◌, ◌-◌, ◌*◌, ◌≡◌, refl, true, [], ◌∷◌, ◌++◌, arith, Option, none, some, ok, bind, map_ok,
  Text, if◌then◌else◌, ltb,
}
use sqlite3_ext.Value.Access.{text, value_type, type_from_sqlite, get_str, get_blob}
use sqlite3_ext.Value.Access.Reading.{txt, nul}
use sqlite3_ext.Function.Aggregate.{run, aggregate_final}
use sqlite3_ext.Function.Aggregate.Folding.{context_of}
use sqlite3_ext.Function.Calls.{Ordering, less, equal, greater}
use sqlite3_ext.Decimal.{Big, sum, process_value}
use sqlite3_ext.Decimal.Window.{IsAdditive, steps, inverses, run-sum}
use sqlite3_ext.Tests.Functions.{Held, value_api, allocate, allocate-Allocates}

abbrev digit : Text → Option ℕ
digit (c ∷ []) = if ltb c 48 then none else some (c - 48)
digit s = none

abbrev ordering : ℕ → ℕ → Ordering
ordering a b = if ltb a b then less else if ltb b a then greater else equal

abbrev digits : Big ℕ
digits = record {
  from_str = digit;
  default = 0;
  add = λ a b. a + b;
  sub = λ a b. a - b;
  mul = λ a b. a * b;
  cmp = ordering;
  show = λ n. (48 + n) ∷ [];
}

digits-IsAdditive : IsAdditive digits
digits-IsAdditive = record { right_comm = λ a b c. omega arith; cancel = λ a b. omega arith }

abbrev row : ℕ → Held
row n = (txt ((48 + n) ∷ []), 0)

abbrev null_row : Held
null_row = (nul, 0)

run-sum_example :
    map_ok
      (λ c. c.seen)
      (bind
        (run
          (sum digits value_api (λ s. true))
          tt
          allocate
          16
          (steps digits value_api (λ s. true) (row 3 ∷ null_row ∷ [])
            ++ (steps digits value_api (λ s. true) (row 4 ∷ null_row ∷ row 5 ∷ [])
                ++ inverses digits value_api (λ s. true) (row 3 ∷ null_row ∷ [])))
          (context_of (sum digits value_api (λ s. true)) tt (none, ok none)))
        (aggregate_final (sum digits value_api (λ s. true)) tt allocate 16))
    ≡ ok (ok (some (text (57 ∷ []))))
unfolding process_value value_type type_from_sqlite get_str get_blob
run-sum_example =
    run-sum digits value_api (λ s. true) digits-IsAdditive allocate 16 allocate-Allocates (row 3)
      (null_row ∷ []) (row 4 ∷ null_row ∷ row 5 ∷ []) (some 3 ∷ none ∷ [])
      (some 4 ∷ none ∷ some 5 ∷ []) (ok none) (refl, (refl, tt)) (refl, (refl, (refl, tt)))
