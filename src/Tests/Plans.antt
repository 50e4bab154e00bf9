-- ===== src/Tests/Plans.antt =====
-- Query plans with two constraints.
use sqlite3_ext.Prelude.{
  ◌≡◌, refl, true, false, [], ◌∷◌, ℕ, inl, inr, arith, ok, err, panic, none, some, sqlite,
  if◌then◌else◌, ◌==◌,
}
use sqlite3_ext.Prelude.Int.{pos}
use sqlite3_ext.IndexInfo.{
  update, block, Heap, IndexInfo, Usage, index_str, set_index_str, set_index_str_static,
}
use sqlite3_ext.IndexInfo.Distinct.{
  distinct_mode, distinct_mode-Allows, grouped, Allows, count, from_sqlite,
}
use sqlite3_ext.Version.{match_version}
use sqlite3_ext.IndexInfo.Constraints.{next, positions, start_position}
use sqlite3_ext.IndexInfo.Fields.{positions-range}
use sqlite3_ext.IndexInfo.IndexStr.{released, set_index_str-index_str, set_index_str-dangling}

-- Block 4 holds the C string of "a".
abbrev heap : Heap
heap = record { content = λ i. if i == 4 then some (97 ∷ 0 ∷ []) else none; fresh = 5 }

abbrev unused : Usage
unused = record { argv_index = pos 0; omit = 0 }

abbrev plan : IndexInfo
plan = record {
  a_constraint = [];
  a_constraint_usage = unused ∷ unused ∷ [];
  a_order_by = [];
  idx_num = pos 0;
  idx_str = block 4;
  need_to_free_idx_str = 1;
  order_by_consumed = 0;
  estimated_cost = 0;
  estimated_rows = pos 25;
  idx_flags = pos 0;
  col_used = 0;
  heap = heap;
}

set_index_str-index_str_example :
    let r = set_index_str (λ n. true) (some (66 ∷ 67 ∷ 99 ∷ [], 2)) plan in
    (r.0 ≡ ok tt)
    × (index_str some r.1 ≡ ok (some (66 ∷ 67 ∷ [])))
    × (r.1.idx_str ≡ block 5)
    × (r.1.need_to_free_idx_str ≡ 1)
    × (r.1.heap.content ≡ update (released plan) 5 (some (66 ∷ 67 ∷ 0 ∷ [])))
set_index_str-index_str_example =
    set_index_str-index_str (λ n. true) some 66 (67 ∷ []) 99 [] plan (97 ∷ 0 ∷ [], refl)
      (omega arith, (omega arith, tt)) (omega arith) refl

set_index_str-dangling_example :
    let r = set_index_str (λ n. false) (some (66 ∷ 67 ∷ [], 2)) plan in
    (r.0 ≡ err (sqlite 7 none))
    × (index_str some r.1 ≡ panic)
    × ((set_index_str (λ n. false) none r.1).0 ≡ panic)
    × ((set_index_str_static (97 ∷ 0 ∷ []) r.1).0 ≡ panic)
set_index_str-dangling_example =
    set_index_str-dangling (λ n. false) some 66 (67 ∷ []) [] plan 4 (97 ∷ 0 ∷ []) none refl refl
      refl (omega arith) refl

-- The rows 1, 2 and 1, with the equal ones brought together.
counts : (k : ℕ) → count k (2 ∷ 1 ∷ 1 ∷ []) ≡ count k (1 ∷ 2 ∷ 1 ∷ [])
counts k = ground arith

distinct_mode-Allows_example : Allows 1 (1 ∷ 2 ∷ 1 ∷ []) (2 ∷ 1 ∷ 1 ∷ [])
unfolding distinct_mode match_version from_sqlite
distinct_mode-Allows_example =
    distinct_mode-Allows (record { modern = true; version = 3038005 }) 1 grouped (1 ∷ 2 ∷ 1 ∷ [])
      (2 ∷ 1 ∷ 1 ∷ []) (omega arith) refl ((inr refl, (inl refl, (tt, tt))), counts)

positions-range_example :
    (positions 2 3 start_position ≡ some (0 ∷ 1 ∷ []))
    × (next 2 (next 2 1).1 ≡ (none, (next 2 1).1))
unfolding next
positions-range_example = positions-range 2 3 1 (omega arith) (omega arith) refl
