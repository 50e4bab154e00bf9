-- ===== src/Query/Lifecycle.antt =====
-- The states of a statement across the methods that run it.
use sqlite3_ext.Prelude.{
  ℕ, ◌≡◌, ◌≢◌, Bool, true, false, List, ◌∷◌, arith, if◌then◌else◌, ok, err, panic, none, some,
  Method,
}
use sqlite3_ext.Prelude.Int.{pos, ◌+ℤ◌}
use sqlite3_ext.Version.{Build}
use sqlite3_ext.Types.{is_success}
use sqlite3_ext.Types.Codes.{sqlite_misuse}
use sqlite3_ext.Query.Statement.{
  Api, QueryState, ready, active, finished, Statement, reset, next, Params, query, query_row,
  execute, insert, current_result, bind_params, bind_from, bind_param,
}

-- What SQLite documents of two of its functions: sqlite3_step never returns SQLITE_OK, and
-- sqlite3_clear_bindings always does.
pub record IsLawful {Raw V : Type 0} (api : Api Raw V) : Type 0 where
  pub step_result : (raw : Raw) → (api.step raw).0 ≢ 0
  pub clear_ok : (raw : Raw) → (api.clear_bindings raw).0 ≡ 0

module _ {Raw V : Type 0} (api : Api Raw V) where
  pub reset-ready :
      (s : Statement Raw)
      → IsLawful api
      → ((reset api s).0 ≡ ok tt) × ((reset api s).1.state ≡ ready)
  unfolding reset
  reset-ready s l = ground (arith, l.clear_ok (api.reset_stmt s.base))

  abbrev pub state_after : Bool → QueryState
  state_after true = active
  state_after false = finished

  next-state :
      (s : Statement Raw) (more : Bool)
      → (next api s).0 ≡ ok more
      → (next api s).1.state ≡ state_after more
  unfolding next
  next-state s true h = ground arith
  next-state s false h = ground arith

  next-finished : (s : Statement Raw) → s.state ≡ finished → next api s ≡ (ok false, s)
  unfolding next
  next-finished s h = ground arith

  -- Once the end of the rows is reported, every further call reports it again and SQLite is not
  -- asked any more.
  next-fused :
      (s : Statement Raw)
      → (next api s).0 ≡ ok false
      → next api (next api s).1 ≡ (ok false, (next api s).1)
  next-fused s h = next-finished (next api s).1 (next-state s false h)

  current_result-state :
      (s : Statement Raw) (more : Bool)
      → s.state ≡ state_after more
      → current_result api s ≡ (if more then some s else none)
  unfolding current_result
  current_result-state s true h = ground arith
  current_result-state s false h = ground arith

  -- After a call of `next` that succeeds there is a current row exactly if it returned one.
  current_result-next :
      (s : Statement Raw) (more : Bool)
      → (next api s).0 ≡ ok more
      → current_result api (next api s).1 ≡ (if more then some (next api s).1 else none)
  current_result-next s more h = current_result-state (next api s).1 more (next-state s more h)

  next-ne-panic : (s : Statement Raw) → IsLawful api → (next api s).0 ≢ panic
  unfolding next
  next-ne-panic s l h = ground (arith, l.step_result s.base)

  -- When the parameters could be bound, `execute` and `insert` end with the statement ready for
  -- the next use, whether the step succeeds, fails or unexpectedly returns a row.
  pub execute-ready :
      (b : Build) (params : Params api) (s : Statement Raw)
      → IsLawful api
      → (query api params s).0 ≡ ok tt
      → ((execute api b params s).1.state ≡ ready) × ((insert api params s).1.state ≡ ready)
  unfolding execute insert
  execute-ready b params s l h = ground (
    arith,
    next-ne-panic (query api params s).1 l,
    reset-ready (next api (query api params s).1).1 l,
  )

  -- The same of `query_row`, whatever the closure returns, if it does not panic.
  query_row-ready :
      {R : Type 0} (params : Params api) (f : Method (Statement Raw) R) (s : Statement Raw)
      → IsLawful api
      → (query api params s).0 ≡ ok tt
      → (f (next api (query api params s).1).1).0 ≢ panic
      → (query_row api params f s).1.state ≡ ready
  unfolding query_row
  query_row-ready params f s l h calm = ground (
    arith,
    next-ne-panic (query api params s).1 l,
    reset-ready (next api (query api params s).1).1 l,
    reset-ready (f (next api (query api params s).1).1).1 l,
  )

  bind_params_blocked :
      (v : V) (vs : List V) (s : Statement Raw)
      → api.bind_value (pos 1) v s.base ≡ (21, s.base)
      → bind_params api (v ∷ vs) s ≡ (err sqlite_misuse, s)
  unfolding bind_params bind_from bind_param ◌+ℤ◌
  bind_params_blocked v vs s h = ground arith

  next_failed :
      (s : Statement Raw) (rc : ℕ) (raw : Raw)
      → s.state ≡ ready
      → api.step s.base ≡ (rc, raw)
      → is_success rc ≡ false
      → ((next api s).1.base ≡ raw) × ((next api s).1.state ≡ ready)
  unfolding next
  next_failed s rc raw r e f = (ground arith, ground arith)

  blocked_at :
      (v : V) (s : Statement Raw) (raw : Raw)
      → s.base ≡ raw
      → api.bind_value (pos 1) v raw ≡ (21, raw)
      → api.bind_value (pos 1) v s.base ≡ (21, s.base)
  blocked_at v s raw b h = ground arith

  blocked_query :
      (b : Build) (params : Params api) (s : Statement Raw)
      → s.state ≡ ready
      → params s ≡ (err sqlite_misuse, s)
      → (query api params s ≡ (err sqlite_misuse, s))
        × (execute api b params s ≡ (err sqlite_misuse, s))
        × (insert api params s ≡ (err sqlite_misuse, s))
  unfolding query execute insert
  blocked_query b params s r h = (ground arith, ground arith, ground arith)

  -- When the first step of a statement fails, the statement still counts as ready, so the next
  -- query does not reset it. SQLite refuses to bind to a statement that has been stepped and not
  -- reset: every later `query`, `execute` or `insert` with parameters then fails with
  -- SQLITE_MISUSE and leaves the statement as it is, so all further ones fail too.
  pub failed_step_blocks :
      (b : Build) (s : Statement Raw) (rc : ℕ) (raw : Raw)
      → s.state ≡ ready
      → api.step s.base ≡ (rc, raw)
      → is_success rc ≡ false
      → (v : V) (vs : List V) → api.bind_value (pos 1) v raw ≡ (21, raw)
      → let s' = (next api s).1 in
        (query api (bind_params api (v ∷ vs)) s' ≡ (err sqlite_misuse, s'))
        × (execute api b (bind_params api (v ∷ vs)) s' ≡ (err sqlite_misuse, s'))
        × (insert api (bind_params api (v ∷ vs)) s' ≡ (err sqlite_misuse, s'))
  failed_step_blocks b s rc raw r e f v vs h =
      let (at, r') = next_failed s rc raw r e f in
      let stuck = bind_params_blocked v vs (next api s).1 (blocked_at v (next api s).1 raw at h) in
      blocked_query b (bind_params api (v ∷ vs)) (next api s).1 r' stuck
