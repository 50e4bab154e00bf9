-- ===== src/Tests/Passing.antt =====
-- Values that are passed behind pointers, and lists of values.
use sqlite3_ext.Prelude.{
  ℕ, ◌+◌, ◌≡◌, refl, true, List, [], ◌∷◌, arith, ==_refl, if◌then◌else◌, Option, none, some, ok,
  ◌⊎◌, inr,
}
use sqlite3_ext.Prelude.Int.{ℤ, eqb_ℤ, pos_part, neg_part}
use sqlite3_ext.Version.{Build, supports}
use sqlite3_ext.Value.Passed.{PassedRef, new, AuxApi, aux_data, set_aux_data}
use sqlite3_ext.Rarray.{run}
use sqlite3_ext.Rarray.Rows.{run-new}
use sqlite3_ext.Value.Passed.Checking.{KeepsLast, aux_data-set_aux_data}
use sqlite3_ext.Value.Values.{ListApi, ValueList, from_value_ref, next, drain}
use sqlite3_ext.Value.Values.Draining.{Enumerates, answer, head?, tail, drain-from_value_ref}

abbrev modern_build : Build
modern_build = record { modern = true; version = 3038005 }

-- Every type has the numbers for values.
abbrev Num : ℕ → Type 0
Num t = ℕ

-- Every type has the lists of numbers for values.
abbrev Numbers : ℕ → Type 0
Numbers t = List ℕ

abbrev numbers : Numbers 3 → List ℕ
numbers a = a

run-new_example :
    (run Numbers 3 numbers 4 modern_build (some (new Numbers 3 (7 ∷ 8 ∷ 9 ∷ [])) ∷ [])
      ≡ some (ok (some (some 7) ∷ some (some 8) ∷ some (some 9) ∷ [])))
    × (run Numbers 3 numbers 4 modern_build (some (new Numbers 4 (5 ∷ [])) ∷ []) ≡ some (ok []))
unfolding supports
run-new_example =
    run-new Numbers 3 numbers 4 modern_build (7 ∷ 8 ∷ 9 ∷ []) 4 (5 ∷ []) [] refl (omega arith)
      (omega arith) (omega arith)

abbrev Aux : Type 0
Aux = ℤ → Option (PassedRef Num)

abbrev aux_api : AuxApi Num Aux
aux_api = record {
  get_auxdata = λ i ctx. ctx i;
  set_auxdata = λ i p ctx j. if eqb_ℤ i j then some p else ctx j;
}

aux_api-KeepsLast : KeepsLast Num aux_api
aux_api-KeepsLast = record { same = λ i p ctx. inr (rw (==_refl (pos_part i + neg_part i)) refl) }

abbrev nothing : Aux
nothing i = none

aux_data-set_aux_data_example :
    ((aux_data Num aux_api 3 1 (set_aux_data Num aux_api 3 1 8 nothing) ≡ ok none)
      ⊎ (aux_data Num aux_api 3 1 (set_aux_data Num aux_api 3 1 8 nothing) ≡ ok (some 8)))
    × (aux_data Num aux_api 4 1 (set_aux_data Num aux_api 3 1 8 nothing) ≡ ok none)
aux_data-set_aux_data_example =
    aux_data-set_aux_data Num aux_api aux_api-KeepsLast 3 4 1 8 nothing (omega arith)

-- All values, and those still to come.
abbrev Values : Type 0
Values = List ℕ × List ℕ

abbrev give : List ℕ → List ℕ → ℕ × Option ℕ × Values
give all xs = (answer xs, head? xs, (all, tail xs))

abbrev list_api : ListApi Values ℕ
list_api = record { in_first = λ s. give s.0 s.0; in_next = λ s. give s.0 s.1 }

list_api-Enumerates : Enumerates list_api (λ s. s.0) (λ s. s.1)
list_api-Enumerates = record {
  first_code = λ s. refl;
  first_value = λ s. refl;
  first_rest = λ s. refl;
  next_code = λ s. refl;
  next_value = λ s. refl;
  next_rest = λ s. refl;
}

abbrev two_values : Values
two_values = (7 ∷ 9 ∷ [], [])

new_enough : supports modern_build 3038000 ≡ true
unfolding supports
new_enough = refl

drain-from_value_ref_example :
    (l l' : ValueList Values ℕ) × (from_value_ref list_api modern_build two_values ≡ ok l)
    × (drain list_api modern_build 3 l ≡ some (ok (7 ∷ 9 ∷ []), l'))
    × ((next list_api modern_build l').0 ≡ ok none)
drain-from_value_ref_example =
    drain-from_value_ref list_api (λ s. s.0) (λ s. s.1) list_api-Enumerates modern_build new_enough
      two_values
