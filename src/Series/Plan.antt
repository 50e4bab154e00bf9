-- ===== src/Series/Plan.antt =====
-- examples/generate_series.rs: `best_index`, which makes the plan that `filter` reads.
pub mod Agreement
pub mod Found
pub mod Complete
pub mod Passing
pub mod Places
pub mod Deciding
pub mod Following
use sqlite3_ext.Prelude.{
  ℕ, suc, ◌+◌, ◌-◌, ◌^◌, Bool, true, false, not, ◌&&◌, ◌||◌, List, [], ◌∷◌, ◌==◌, leb,
  if◌then◌else◌, Outcome, ok, err, panic, bind, map_ok, Option, none, some, Method, length, set,
  text, module_msg,
}
use sqlite3_ext.Prelude.Int.{ℤ, pos, ◌-ℤ◌, ltb_ℤ, eqb_ℤ}
use sqlite3_ext.Version.{Build}
use sqlite3_ext.Types.Codes.{sqlite_constraint}
use sqlite3_ext.IndexInfo.{
  IndexInfo, set_index_num, set_estimated_cost, set_estimated_rows, set_order_by_consumed,
}
use sqlite3_ext.IndexInfo.Constraints.{
  at, column, usable, set_argv_index, set_omit, next, start_position, order_column, order_desc,
}
use sqlite3_ext.IndexInfo.Fields.{range}
use sqlite3_ext.IndexInfo.Ops.{ConstraintOp, eq, from_sqlite}
use sqlite3_ext.Series.{has_bit, with_bit, magnitude}

-- What the loop over the constraints collects: `arg_index` has a place for each of start, stop
-- and step.
pub record Seen : Type 0 where
  pub query_plan : ℕ
  pub unusable_mask : ℕ
  pub has_start : Bool
  pub arg_index : List (Option ℕ)

abbrev pub nothing_seen : Seen
nothing_seen = record {
  query_plan = 0;
  unusable_mask = 0;
  has_start = false;
  arg_index = none ∷ none ∷ none ∷ [];
}

abbrev pub is_eq : ConstraintOp → Bool
is_eq eq = true
is_eq op = false

-- `constraint.op() == ConstraintOp::Eq`
abbrev pub tests_equality : IndexInfo → ℕ → Outcome Bool
tests_equality info i = bind (at info.a_constraint i) λ c. map_ok is_eq (from_sqlite c.op)

-- A constraint on the column of one bit.
abbrev pub see_column : IndexInfo → ℕ → ℕ → Seen → Outcome Seen
see_column info i bit s = bind (usable info i) λ u.
    if u
    then (bind (tests_equality info i) λ e. ok (
        if e
        then record s {
          query_plan = with_bit s.query_plan (2 ^ bit);
          arg_index = set s.arg_index bit (some i);
        }
        else s))
    else ok (record s { unusable_mask = with_bit s.unusable_mask (2 ^ bit) })

-- One round of the loop; a column after step fails the assertion.
unfoldable pub see : IndexInfo → ℕ → Seen → Outcome Seen
see info i s = bind (column info i) λ c.
    let bit = magnitude (c -ℤ pos 1) in
    if ltb_ℤ c (pos 1)
    then ok s
    else if leb bit 2
    then see_column info i bit (record s { has_start = bit == 0 || s.has_start })
    else panic

unfoldable pub see_all : IndexInfo → List ℕ → Seen → Outcome Seen
see_all info [] s = ok s
see_all info (i ∷ is) s = bind (see info i s) λ s'. see_all info is s'

-- The arguments are numbered in the order start, stop, step.
unfoldable pub assign : List (Option ℕ) → ℕ → IndexInfo → Outcome IndexInfo
assign [] next_idx info = ok info
assign (none ∷ rest) next_idx info = assign rest next_idx info
assign (some j ∷ rest) next_idx info =
    bind (set_argv_index j (some next_idx) info)
      λ info'. bind (set_omit j true info') λ info''. assign rest (next_idx + 1) info''

-- `unusable_mask & !query_plan != 0`
abbrev pub is_unusable : Seen → Bool
is_unusable s =
    let missing : ℕ → Bool = λ b. has_bit s.unusable_mask b && not (has_bit s.query_plan b) in
    missing 1 || missing 2 || missing 4

-- The bits of 2.0 and of 1.0.
abbrev pub cost : ℕ → ℕ
cost plan = if has_bit plan 4 then 4607182418800017408 else 4611686018427387904

-- The first sort term, if it is on the column of the values.
abbrev pub ordered_by : IndexInfo → Outcome (Option Bool)
ordered_by info = elim (next (length info.a_order_by) start_position).0 [
  | none ↦ ok none
  | some i ↦
      bind (order_column info i)
        λ c. bind (order_desc info i) λ d. ok (if eqb_ℤ c (pos 0) then some d else none)
]

abbrev pub ordered_plan : ℕ → Option Bool → IndexInfo → ℕ × IndexInfo
ordered_plan plan none info = (plan, info)
ordered_plan plan (some desc) info =
    (with_bit plan (if desc then 8 else 16), set_order_by_consumed true info)

-- The estimates, and the plan with the order.
abbrev pub estimate : Build → ℕ → IndexInfo → Outcome (ℕ × IndexInfo)
estimate b plan info =
    if has_bit plan 1 && has_bit plan 2
    then (bind (ordered_by info) λ order. ok (
        ordered_plan plan order
          (set_estimated_rows b (pos 1000) (set_estimated_cost (cost plan) info))))
    else ok (plan, set_estimated_rows b (pos 4611686018427387903) info)

-- What follows the assignment of the arguments.
abbrev pub decide : Build → Seen → Method IndexInfo (Unit {0})
decide b s info =
    if not s.has_start
    then (
      err (module_msg (text "first argument to \"generate_series()\" missing or unusable")),
      info,
    )
    else if is_unusable s
    then (err sqlite_constraint, info)
    else elim (estimate b s.query_plan info) [
      | ok (plan, info') ↦ (ok tt, set_index_num (pos plan) info')
      | err e ↦ (err e, info)
      | panic ↦ (panic, info)
    ]

unfoldable pub best_index : Build → Method IndexInfo (Unit {0})
best_index b info =
    let seen = see_all info (range 0 (length info.a_constraint)) nothing_seen in
    elim seen [
      | ok s ↦ elim (assign s.arg_index 0 info) [
        | ok info' ↦ decide b s info'
        | err e ↦ (err e, info)
        | panic ↦ (panic, info)
      ]
      | err e ↦ (err e, info)
      | panic ↦ (panic, info)
    ]
