-- ===== src/Series/Plan/Deciding.antt =====
-- What best_index decides after the arguments are assigned.
use sqlite3_ext.Prelude.{
  ℕ, ◌≡◌, refl, inl, inr, Bool, true, false, Option, none, some, ok, arith, Outcome-cases,
  Bool-cases, ◌&&◌, ap, sym, ◌∙◌,
}
use mathlib.Core.Path.{subst}
use sqlite3_ext.Prelude.Int.{ℤ, pos}
use sqlite3_ext.Version.{Build, match_version, supports}
use sqlite3_ext.IndexInfo.{IndexInfo, set_index_num, set_estimated_cost, set_estimated_rows}
use sqlite3_ext.Series.{has_bit, with_bit}
use sqlite3_ext.Series.Plan.{Seen, ordered_by, ordered_plan, estimate, decide, cost, is_unusable}

-- The bits of the arguments are the same.
abbrev pub SameBits : ℕ → ℕ → Type 0
SameBits plan plan' =
    (has_bit plan 1 ≡ has_bit plan' 1)
    × (has_bit plan 2 ≡ has_bit plan' 2)
    × (has_bit plan 4 ≡ has_bit plan' 4)

with_bit-SameBits : (plan : ℕ) → SameBits (with_bit plan 8) plan × SameBits (with_bit plan 16) plan
with_bit-SameBits plan = ground arith

ordered_plan-usage :
    (plan : ℕ) (order : Option Bool) (info : IndexInfo)
    → let r = ordered_plan plan order info in
      (r.1.a_constraint_usage ≡ info.a_constraint_usage) × SameBits r.0 plan
ordered_plan-usage plan none info = (refl, (refl, refl, refl))
ordered_plan-usage plan (some true) info = (refl, (with_bit-SameBits plan).0)
ordered_plan-usage plan (some false) info = (refl, (with_bit-SameBits plan).1)

set_estimated_rows-usage :
    (b : Build) (v : ℤ) (info : IndexInfo)
    → (set_estimated_rows b v info).a_constraint_usage ≡ info.a_constraint_usage
unfolding set_estimated_rows match_version
set_estimated_rows-usage b v info = elim (Bool-cases (supports b 3008220)) [
  | inl t ↦ rw t refl
  | inr f ↦ rw f refl
]

-- What is planned for the usages and the bits of the arguments.
abbrev Follows : ℕ → IndexInfo → ℕ × IndexInfo → Type 0
Follows plan info x = (x.1.a_constraint_usage ≡ info.a_constraint_usage) × SameBits x.0 plan

estimate-Follows :
    (b : Build) (plan : ℕ) (info : IndexInfo) (x : ℕ × IndexInfo)
    → estimate b plan info ≡ ok x
    → Follows plan info x
estimate-Follows b plan info x e =
    let info'' = set_estimated_rows b (pos 1000) (set_estimated_cost (cost plan) info) in
    elim (Bool-cases (has_bit plan 1 && has_bit plan 2)) [
      | inl t ↦ elim (Outcome-cases (ordered_by info)) [
        | inl (o, q) ↦
            let r = ordered_plan-usage plan o info'' in
            let same : ordered_plan plan o info'' ≡ x = ground (arith, e, t, q) in
            let kept =
              set_estimated_rows-usage b (pos 1000) (set_estimated_cost (cost plan) info) in
            subst (Follows plan info) same (r.0 ∙ kept, r.1)
        | inr (inl q) ↦ absurd (ground (arith, e, t, q))
        | inr (inr q) ↦ absurd (ground (arith, e, t, q))
      ]
      | inr f ↦
          let rows = pos 4611686018427387903 in
          let same : (plan, set_estimated_rows b rows info) ≡ x = ground (arith, e, f) in
          subst (Follows plan info) same (set_estimated_rows-usage b rows info, (refl, refl, refl))
    ]

-- When best_index succeeds, it keeps the usages, and its plan has the bits of the arguments.
pub decide-SameBits :
    (b : Build) (s : Seen) (info info' : IndexInfo)
    → decide b s info ≡ (ok tt, info')
    → (info'.a_constraint_usage ≡ info.a_constraint_usage)
      × ((plan : ℕ) × (info'.idx_num ≡ pos plan) × SameBits plan s.query_plan)
decide-SameBits b s info info' e = elim (Bool-cases s.has_start) [
  | inl t ↦ elim (Bool-cases (is_unusable s)) [
    | inl u ↦ absurd (ground (arith, e, t, u))
    | inr u ↦ elim (Outcome-cases (estimate b s.query_plan info)) [
      | inl ((plan, info''), q) ↦
          let f = estimate-Follows b s.query_plan info (plan, info'') q in
          let same : set_index_num (pos plan) info'' ≡ info' = ground (arith, e, t, u, q) in
          (
            ap (λ x. x.a_constraint_usage) (sym same) ∙ f.0,
            (plan, ap (λ x. x.idx_num) (sym same), f.1),
          )
      | inr (inl q) ↦ absurd (ground (arith, e, t, u, q))
      | inr (inr q) ↦ absurd (ground (arith, e, t, u, q))
    ]
  ]
  | inr f ↦ absurd (ground (arith, e, f))
]
