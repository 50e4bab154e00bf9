-- ===== src/Function/Aggregate.antt =====
-- src/function/context.rs and src/function/stubs.rs: where an aggregate function keeps its state,
-- and the callbacks by which SQLite runs it.
pub mod Folding
use sqlite3_ext.Prelude.{
  ℕ, Bool, true, false, List, [], ◌∷◌, if◌then◌else◌, Option, none, some, Outcome, ok, err, panic,
  bind, unwrap, Error,
}
use sqlite3_ext.Types.Codes.{sqlite_nomem}

-- `AggregateContext<T>`; what `val` holds before it is written is `none`.
pub record AggregateContext (F : Type 0) : Type 0 where
  pub init : Bool
  pub val : Option F

-- A context of SQLite: the memory that sqlite3_aggregate_context has allocated for it, if any, and
-- the rest, which a function sees (its result, the connection).
pub record Context (X F : Type 0) : Type 0 where
  pub seen : X
  pub buffer : Option (AggregateContext F)

-- The code of an extension: LegacyAggregateFunction<U>, with `inverse` of AggregateFunction<U>.
-- Its methods may write to the context. `report` is `set_result` with an error.
pub record Aggregate (U A X F : Type 0) : Type 0 where
  pub from_user_data : U → F
  pub default_value : U → X → Outcome (Unit {0}) × X
  pub step : A → F → X → Outcome (Unit {0}) × F × X
  pub value : F → X → Outcome (Unit {0}) × X
  pub inverse : A → F → X → Outcome (Unit {0}) × F × X
  pub report : Error → X → X

-- The calls that SQLite makes before xFinal.
pub data Call (A : Type 0) : Type 0 where
  step : A → Call A
  inverse : A → Call A
  value : Call A

module _ {X F : Type 0} where
  abbrev pub put : F → X → Context X F
  put f x = record { seen = x; buffer = some (record { init = true; val = some f }) }

  abbrev take : Option (AggregateContext F) → X → Outcome (Option F × Context X F)
  take none x = ok (none, record { seen = x; buffer = none })
  take (some context) x =
      if context.init
      then (bind (unwrap context.val) λ val.
          ok (some val, record { seen = x; buffer = some (record context { init = false }) }))
      else ok (none, record { seen = x; buffer = some context })

-- `Result::unwrap`, which panics with the error.
abbrev unwrap_result {ℓ} : {T : Type ℓ} → Outcome T → Outcome T
unwrap_result (ok t) = ok t
unwrap_result r = panic

module _ {U A X F : Type 0} (imp : Aggregate U A X F) where
  -- `if let Err(e) = .. { ctx.set_result(e) }`
  abbrev pub reported : Outcome (Unit {0}) → X → Outcome X
  reported (ok _) x = ok x
  reported (err e) x = ok (imp.report e x)
  reported panic x = panic

  abbrev pub changed : Outcome (Unit {0}) × F × X → Outcome (Context X F)
  changed (r, f, x) = bind (reported r x) λ x'. ok (put f x')

  abbrev pub answered : Context X F → Outcome (Unit {0}) × X → Outcome (Context X F)
  answered c (r, x) = bind (reported r x) λ x'. ok (record c { seen = x' })

module _ {U A X F : Type 0} (imp : Aggregate U A X F) (user_data : U) where
  -- `if !context.init { .. }`
  abbrev initialised : AggregateContext F → AggregateContext F
  initialised context =
      if context.init
      then context
      else record { init = true; val = some (imp.from_user_data user_data) }

  abbrev enter : Option (AggregateContext F) → X → Outcome (F × Context X F)
  enter none x = err sqlite_nomem
  enter (some context) x =
      let context' = initialised context in
      bind (unwrap context'.val) λ val. ok (val, record { seen = x; buffer = some context' })

  abbrev pub final_call : Option F → X → Outcome (Unit {0}) × X
  final_call (some agg) x = imp.value agg x
  final_call none x = imp.default_value user_data x

-- `allocate` is sqlite3_aggregate_context: by the size that is asked for, the memory of the context
-- before and after the call. The pointer that it returns leads there, or is null where there is
-- none. `size` is size_of::<AggregateContext<F>>().
module _ {U A X F : Type 0} (imp : Aggregate U A X F) (user_data : U)
    (allocate : ℕ → Option (AggregateContext F) → Option (AggregateContext F)) (size : ℕ) where
  -- The reference that is returned leads into the buffer, which `put` writes.
  unfoldable pub aggregate_context : Context X F → Outcome (F × Context X F)
  aggregate_context c = enter imp user_data (allocate size c.buffer) c.seen

  unfoldable pub try_aggregate_context : Context X F → Outcome (Option F × Context X F)
  try_aggregate_context c = take (allocate 0 c.buffer) c.seen

  unfoldable pub aggregate_step : A → Context X F → Outcome (Context X F)
  aggregate_step args c =
      bind (unwrap_result (aggregate_context c)) λ p. changed imp (imp.step args p.0 p.1.seen)

  unfoldable pub aggregate_inverse : A → Context X F → Outcome (Context X F)
  aggregate_inverse args c =
      bind (unwrap_result (aggregate_context c)) λ p. changed imp (imp.inverse args p.0 p.1.seen)

  unfoldable pub aggregate_value : Context X F → Outcome (Context X F)
  aggregate_value c =
      bind (unwrap_result (aggregate_context c)) λ p. answered imp p.1 (imp.value p.0 p.1.seen)

  unfoldable pub aggregate_final : Context X F → Outcome (Context X F)
  aggregate_final c =
      bind (try_aggregate_context c) λ p. answered imp p.1 (final_call imp user_data p.0 p.1.seen)

  unfoldable pub call : Call A → Context X F → Outcome (Context X F)
  call (step args) c = aggregate_step args c
  call (inverse args) c = aggregate_inverse args c
  call value c = aggregate_value c

  unfoldable pub run : List (Call A) → Context X F → Outcome (Context X F)
  run [] c = ok c
  run (k ∷ calls) c = bind (call k c) (run calls)
