-- ===== src/Value/Values.antt =====
-- src/value/value_list.rs: ValueList, the values on the right of an IN that a virtual table is
-- given all at once.
pub mod Draining
use sqlite3_ext.Prelude.{
  ℕ, zero, suc, List, [], ◌∷◌, Option, none, some, Outcome, ok, err, panic, bind, map_ok, Method,
}
use sqlite3_ext.Version.{Build, match_version, require_version}
use sqlite3_ext.Types.{from_sqlite}

-- sqlite3_vtab_in_first and sqlite3_vtab_in_next on a value in the state `S`: the code, what the
-- pointer is set to, and the value afterwards.
pub record ListApi (S V : Type 0) : Type 0 where
  pub in_first : S → ℕ × Option V × S
  pub in_next : S → ℕ × Option V × S

pub record ValueList (S V : Type 0) : Type 0 where
  pub base : S
  pub pending : Option (Option V)

module _ {S V : Type 0} (api : ListApi S V) (b : Build) where
  abbrev first_of : ℕ × Option V × S → Outcome (ValueList S V)
  first_of (rc, first, s) =
      bind (from_sqlite rc) λ _. ok (record { base = s; pending = some first })

  unfoldable pub from_value_ref : S → Outcome (ValueList S V)
  from_value_ref s = require_version b 3038000 (first_of (api.in_first s))

  abbrev next_of : ℕ × Option V × S → Outcome (Option V) × ValueList S V
  next_of (rc, ret, s) = (bind (from_sqlite rc) λ _. ok ret, record { base = s; pending = none })

  -- `self.pending.take()` and what follows it.
  abbrev take_next : Option (Option V) → S → Outcome (Option V) × ValueList S V
  take_next (some x) s = (ok x, record { base = s; pending = none })
  take_next none s = next_of (api.in_next s)

  unfoldable pub next : Method (ValueList S V) (Option V)
  next l = match_version b ((3038000, take_next l.pending l.base) ∷ []) (panic, l)

  abbrev pub Drained : Type 0
  Drained = Option (Outcome (List V) × ValueList S V)

  abbrev keep : V → Drained → Drained
  keep x (some (xs, l)) = some (map_ok (◌∷◌ x) xs, l)
  keep x none = none

  abbrev turn : (ValueList S V → Drained) → Outcome (Option V) × ValueList S V → Drained
  turn rest (ok (some x), l) = keep x (rest l)
  turn rest (ok none, l) = some (ok [], l)
  turn rest (err e, l) = some (err e, l)
  turn rest (panic, l) = some (panic, l)

  -- `while let Some(x) = list.next()? { .. }` that keeps each value. Without fuel there is no answer.
  unfoldable pub drain : ℕ → ValueList S V → Drained
  drain zero l = none
  drain (suc fuel) l = turn (drain fuel) (next l)
