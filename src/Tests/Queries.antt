-- ===== src/Tests/Queries.antt =====
-- A statement that yields a list of rows, and keeps what is bound to it.
use sqlite3_ext.Prelude.{
  ℕ, zero, suc, ◌≡◌, ◌≢◌, refl, Bool, true, false, List, [], ◌∷◌, ◌==◌, if◌then◌else◌, arith, ok,
  err, Option, none, some, text, length, ◌&&◌,
}
use sqlite3_ext.Prelude.Int.{ℤ, pos, eqb_ℤ, ◌+ℤ◌}
use sqlite3_ext.Version.{Build}
use sqlite3_ext.Types.Codes.{sqlite_misuse}
use sqlite3_ext.Query.Statement.{
  Api, QueryState, ready, finished, Statement, query, execute, insert, next, bind_params, bind_from,
  bind_param, collect,
}
use sqlite3_ext.Query.Lifecycle.{IsLawful, execute-ready, failed_step_blocks}
use sqlite3_ext.Query.Rows.{ends, yields, collect-rows}
use sqlite3_ext.Query.Binding.{IsStore, query-bindings}

-- The rows that are left; a row 0 stands for a step that fails.
record Table : Type 0 where
  rows : List ℕ
  bound : ℕ → Option ℕ
  stepped : Bool

abbrev step : Table → ℕ × Table
step t = elim t.rows [
  | [] ↦ (101, record t { stepped = true })
  | zero ∷ rows ↦ (1, record t { rows = rows; stepped = true })
  | suc n ∷ rows ↦ (100, record t { rows = rows; stepped = true })
]

-- With `strict`, nothing is bound to a statement that was stepped.
abbrev bind_value : Bool → ℤ → ℕ → Table → ℕ × Table
bind_value strict p v t =
    if strict && t.stepped
    then (21, t)
    else (0, record t { bound = λ q. if eqb_ℤ (pos q) p then some v else t.bound q })

abbrev table_api : Bool → Api Table ℕ
table_api strict = record {
  step = step;
  reset_stmt = λ t. record t { stepped = false };
  clear_bindings = λ t. (0, record t { bound = λ q. none });
  bind_value = bind_value strict;
  changes = λ t. pos 3;
  changes64 = λ t. pos 3;
  last_insert_rowid = λ t. pos 9;
  errmsg = λ t. text "bad";
  to_str = λ s. some s;
}

step-nonzero : (t : Table) → (step t).0 ≢ 0
step-nonzero t = elim t.rows as (λ r. (step (record t { rows = r })).0 ≢ 0) [
  | [] ↦ ground arith
  | zero ∷ rows ↦ ground arith
  | suc n ∷ rows ↦ ground arith
]

abbrev lawful : (strict : Bool) → IsLawful (table_api strict)
lawful strict = record { step_result = step-nonzero; clear_ok = λ t. refl }

abbrev table : List ℕ → Table
table rows = record { rows = rows; bound = λ q. if q == 3 then some 33 else none; stepped = false }

abbrev statement : List ℕ → QueryState → Statement Table
statement rows state = record { base = table rows; state = state }

store : IsStore (table_api true) 5 (λ t. t.bound) (λ t. t.stepped)
store = record {
  small = omega arith;
  bind_ok = λ p v t h k f. ground (arith, f);
  bind_view = λ p v t q h k f. ground (arith, f);
  bind_stepped = λ p v t. ground arith;
  reset_stepped = λ t. refl;
  clear_stepped = λ t. refl;
  clear_ok = λ t. refl;
  clear_view = λ t q. refl;
}

abbrev build : Build
build = record { modern = true; version = 3038005 }

abbrev two : List ℕ
two = 7 ∷ 8 ∷ []

query-bindings_example :
    let (r, s') =
      query (table_api true) (bind_params (table_api true) two) (statement (5 ∷ []) ready) in
    (r ≡ ok tt) × (s'.base.bound 2 ≡ some 8) × (s'.base.bound 3 ≡ some 33)
query-bindings_example =
    query-bindings (table_api true) 5 (λ t. t.bound) (λ t. t.stepped) store two
      (statement (5 ∷ []) ready) 1 8 3 (λ r. refl) (omega arith) refl (omega arith)

execute-ready_example :
    let api = table_api false in
    ((execute api build (bind_params api two) (statement (0 ∷ []) finished)).1.state ≡ ready)
    × ((insert api (bind_params api two) (statement (0 ∷ []) finished)).1.state ≡ ready)
unfolding query bind_params bind_from bind_param ◌+ℤ◌
execute-ready_example =
    execute-ready (table_api false) build (bind_params (table_api false) two)
      (statement (0 ∷ []) finished) (lawful false) refl

failed_step_blocks_example :
    let api = table_api true in
    let s' = (next api (statement (0 ∷ []) ready)).1 in
    (query api (bind_params api (6 ∷ [])) s' ≡ (err sqlite_misuse, s'))
    × (execute api build (bind_params api (6 ∷ [])) s' ≡ (err sqlite_misuse, s'))
    × (insert api (bind_params api (6 ∷ [])) s' ≡ (err sqlite_misuse, s'))
failed_step_blocks_example =
    failed_step_blocks (table_api true) build (statement (0 ∷ []) ready) 1 (step (table (0 ∷ []))).1
      refl refl refl 6 [] refl

abbrev first_bound : Table → ℕ
first_bound t = length t.rows

collect-rows_example :
    collect (table_api false) (λ s. ok (first_bound s.base)) 3 (statement two ready)
    ≡ some (
      ok (1 ∷ 0 ∷ []),
      record { base = (step (step (step (table two)).1).1).1; state = finished },
    )
collect-rows_example =
    collect-rows (table_api false) (λ s. ok (first_bound s.base)) first_bound 3
      (statement two ready) ((step (table two)).1 ∷ (step (step (table two)).1).1 ∷ [])
      (step (step (step (table two)).1).1).1 (λ row. refl) (λ e. ground arith)
      (yields refl (yields refl (ends refl))) (omega arith)
