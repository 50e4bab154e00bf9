-- ===== src/Tests/Planning.antt =====
-- A query of generate_series with stop = 10 and start = 5, in this order.
use sqlite3_ext.Prelude.{ℕ, ◌≡◌, refl, true, List, [], ◌∷◌, map, Option, none, some}
use sqlite3_ext.Prelude.Int.{ℤ, pos, ◌-ℤ◌}
use sqlite3_ext.Version.{Build, match_version}
use sqlite3_ext.IndexInfo.{Constraint, IndexInfo, Usage, null, set_estimated_rows}
use sqlite3_ext.IndexInfo.Constraints.{set_argv_index, set_omit, next}
use sqlite3_ext.IndexInfo.Ops.{from_sqlite}
use sqlite3_ext.IndexInfo.Passing.{argv}
use sqlite3_ext.Series.{default_cursor, filter}
use sqlite3_ext.Series.Plan.{assign, best_index, see, see_all}
use sqlite3_ext.Series.Plan.Passing.{chosen}
use sqlite3_ext.Series.Plan.Following.{Gives, begun, best_index-filter}

-- SQLITE_INDEX_CONSTRAINT_EQ is 2.
abbrev equal_to : ℕ → Constraint
equal_to column = record { i_column = pos column; op = 2; usable = 1 }

abbrev unused : Usage
unused = record { argv_index = pos 0; omit = 0 }

abbrev query : IndexInfo
query = record {
  a_constraint = equal_to 2 ∷ equal_to 1 ∷ [];
  a_constraint_usage = unused ∷ unused ∷ [];
  a_order_by = [];
  idx_num = pos 0;
  idx_str = null;
  need_to_free_idx_str = 0;
  order_by_consumed = 0;
  estimated_cost = 0;
  estimated_rows = pos 25;
  idx_flags = pos 0;
  col_used = 0;
  heap = record { content = λ i. none; fresh = 0 };
}

abbrev build : Build
build = record { modern = true; version = 3038005 }

abbrev planned : IndexInfo
planned = (best_index build query).1

abbrev values : List ℤ
values = pos 10 ∷ pos 5 ∷ []

best_index-filter_example :
    (start : Option ℕ) × (stop : Option ℕ) × (step : Option ℕ) × (plan : ℕ) × Gives query 0 start
    × Gives query 1 stop
    × Gives query 2 step
    × (planned.idx_num ≡ pos plan)
    × (let args = chosen (start ∷ stop ∷ step ∷ []) values in
        (argv planned.a_constraint_usage values ≡ some args)
        × (filter plan (map some args) default_cursor
            ≡ begun plan start stop step values default_cursor))
unfolding best_index see see_all assign set_argv_index set_omit next from_sqlite set_estimated_rows
    match_version ◌-ℤ◌
best_index-filter_example =
    best_index-filter build query planned values default_cursor refl refl (refl, (refl, tt)) refl

-- The usages and the number of that plan.
planned_query :
    (planned.a_constraint_usage
      ≡ record { argv_index = pos 2; omit = 1 } ∷ record { argv_index = pos 1; omit = 1 } ∷ [])
    × (planned.idx_num ≡ pos 3)
    × (argv planned.a_constraint_usage values ≡ some (pos 5 ∷ pos 10 ∷ []))
unfolding best_index see see_all assign set_argv_index set_omit next from_sqlite set_estimated_rows
    match_version ◌-ℤ◌
planned_query = (refl, refl, refl)
