-- ===== src/Query/Statement.antt =====
-- The state machine of a statement, and the methods that run it.
use sqlite3_ext.Prelude.{
  ℕ, suc, zero, Bool, true, false, List, [], ◌∷◌, ◌==◌, if◌then◌else◌, Outcome, ok, err, panic,
  bind, map_ok, Option, none, some, Method, ◌>>◌, pure, throw, gets, lift, attempt, Text,
}
use sqlite3_ext.Prelude.Int.{ℤ, pos, ◌+ℤ◌, fits, as_i32}
use sqlite3_ext.Version.{Build, match_version}
use sqlite3_ext.Types.{from_sqlite, from_sqlite_desc}
use sqlite3_ext.Types.Codes.{sqlite_row, sqlite_done, sqlite_empty, sqlite_misuse}

-- What SQLite does with a statement whose state is a `Raw` (values of type `V` are bound to it).
-- A function that changes the statement returns its result code and the statement afterwards.
pub record Api (Raw V : Type 0) : Type 0 where
  pub step : Raw → ℕ × Raw
  -- sqlite3_reset; the crate ignores its result
  pub reset_stmt : Raw → Raw
  pub clear_bindings : Raw → ℕ × Raw
  pub bind_value : ℤ → V → Raw → ℕ × Raw
  -- sqlite3_changes, sqlite3_changes64 and sqlite3_last_insert_rowid of the connection
  pub changes : Raw → ℤ
  pub changes64 : Raw → ℤ
  pub last_insert_rowid : Raw → ℤ
  pub errmsg : Raw → Text
  -- std's check for UTF-8
  pub to_str : Text → Option Text

pub data QueryState : Type 0 where
  ready active finished : QueryState

pub record Statement (Raw : Type 0) : Type 0 where
  pub base : Raw
  pub state : QueryState

abbrev pub is_ready : QueryState → Bool
is_ready ready = true
is_ready s = false

-- `pos as i32 + 1`: the cast wraps around, and the sum overflows at i32::MAX.
abbrev pub position : ℕ → Outcome ℤ
position n = let i = as_i32 n in if fits 31 (i +ℤ pos 1) then ok (i +ℤ pos 1) else panic

module _ {Raw V : Type 0} (api : Api Raw V) where
  -- The outcome of a call of SQLite on a statement: the code, and the statement afterwards.
  abbrev pub with_base : Statement Raw → ℕ × Raw → ℕ × Statement Raw
  with_base s (rc, raw) = (rc, record s { base = raw })

  unfoldable pub reset : Method (Statement Raw) (Unit {0})
  unfolding from_sqlite
  reset s =
      let (rc, s') = with_base s (api.clear_bindings (api.reset_stmt s.base)) in
      elim (from_sqlite rc) [
        | ok _ ↦ (ok tt, record s' { state = ready })
        | err e ↦ (err e, s')
        | panic ↦ (panic, s')
      ]

  -- `ffi::sqlite3_step` and what follows it. The row of `Some(row)` is the statement itself.
  abbrev step_result : ℕ → Statement Raw → Outcome Bool × Statement Raw
  step_result rc s =
      if rc == sqlite_done
      then (ok false, record s { state = finished })
      else if rc == sqlite_row
      then (ok true, record s { state = active })
      else (panic, s)

  abbrev step_once : Method (Statement Raw) Bool
  step_once s =
      let (rc, s') = with_base s (api.step s.base) in
      elim (from_sqlite_desc api.to_str rc (api.errmsg s'.base)) [
        | ok _ ↦ step_result rc s'
        | err e ↦ (err e, s')
        | panic ↦ (panic, s')
      ]

  abbrev next_in : QueryState → Method (Statement Raw) Bool
  next_in finished s = (ok false, s)
  next_in active s = step_once s
  next_in ready s = step_once s

  -- `true` stands for `Some(row)`.
  unfoldable pub next : Method (Statement Raw) Bool
  unfolding from_sqlite_desc
  next s = next_in s.state s

  -- A parameter collection is what its `bind_params` does to the statement.
  abbrev pub Params : Type 0
  Params = Method (Statement Raw) (Unit {0})

  unfoldable pub query : Params → Method (Statement Raw) (Unit {0})
  unfolding reset
  query params s = (if is_ready s.state then params else reset >> params) s

  -- `.map(|o| o.map(|row| f(row)))`: the closure runs on the row before the statement is reset,
  -- and its result is inspected after that.
  abbrev apply_row :
      {R : Type 0}
      → Method (Statement Raw) R
      → Outcome Bool
      → Method (Statement Raw) (Option (Outcome R))
  apply_row f (ok true) = attempt f λ r. pure (some r)
  apply_row f (ok false) = pure none
  apply_row f (err e) = throw e
  apply_row f panic = lift panic

  -- The `match res` at the end of query_row.
  abbrev row_result : {R : Type 0} → Outcome (Option (Outcome R)) → Outcome (Unit {0}) → Outcome R
  row_result (ok none) reset_res = err sqlite_empty
  row_result (ok (some r)) reset_res = bind reset_res λ _. r
  row_result (err e) reset_res = err e
  row_result panic reset_res = panic

  unfoldable pub query_row :
      {R : Type 0} → Params → Method (Statement Raw) R → Method (Statement Raw) R
  query_row params f = do
    query params
    attempt (attempt next (apply_row f))
        λ res. attempt reset λ reset_res. lift (row_result res reset_res)

  abbrev done_result :
      Outcome Bool → Outcome (Unit {0}) → Method (Statement Raw) ℤ → Method (Statement Raw) ℤ
  done_result (ok false) reset_res value = do lift reset_res; value
  done_result (ok true) reset_res value = throw sqlite_misuse
  done_result (err e) reset_res value = throw e
  done_result panic reset_res value = lift panic

  -- The changed rows, from the i64 of sqlite3_changes64 or the i32 of sqlite3_changes.
  abbrev pub count_changes : Build → Raw → ℤ
  count_changes b raw = match_version b ((3037000, api.changes64 raw) ∷ []) (api.changes raw)

  -- The connection's lock is taken first and held throughout.
  unfoldable pub execute : Build → Params → Method (Statement Raw) ℤ
  execute b params = do
    query params
    attempt next λ res.
        attempt reset λ reset_res. done_result res reset_res (gets λ s. count_changes b s.base)

  unfoldable pub insert : Params → Method (Statement Raw) ℤ
  insert params = do
    query params
    attempt next λ res.
        attempt reset
          λ reset_res. done_result res reset_res (gets λ s. api.last_insert_rowid s.base)

  -- `Some` exactly while a row is current.
  unfoldable pub current_result : Statement Raw → Option (Statement Raw)
  current_result s = elim s.state [ active ↦ some s | _ ↦ none ]

  unfoldable pub bind_param : V → ℤ → Params
  unfolding from_sqlite
  bind_param v p s =
      let (rc, s') = with_base s (api.bind_value p v s.base) in
      elim (from_sqlite rc) [ ok _ ↦ (ok tt, s') | err e ↦ (err e, s') | panic ↦ (panic, s') ]

  -- `for (pos, val) in self.into_iter().enumerate()`
  unfoldable pub bind_from : ℕ → List V → Params
  bind_from n [] s = (ok tt, s)
  bind_from n (v ∷ vs) s = elim (position n) [
    | ok p ↦ (bind_param v p >> bind_from (suc n) vs) s
    | err e ↦ (err e, s)
    | panic ↦ (panic, s)
  ]

  unfoldable pub bind_params : List V → Params
  bind_params vs = bind_from 0 vs

  -- One round of the loop, given what the rounds after it do.
  abbrev collect_row :
      {B : Type 0}
      → Outcome B
      → Statement Raw
      → Option (Outcome (List B) × Statement Raw)
      → Option (Outcome (List B) × Statement Raw)
  collect_row (ok x) s none = none
  collect_row (ok x) s (some (rest, s')) = some (map_ok (◌∷◌ x) rest, s')
  collect_row (err e) s rest = some (err e, s)
  collect_row panic s rest = some (panic, s)

  -- `stmt.map(f).collect()`, which is a loop of `next` (src/iterator.rs). `none` means that the
  -- fuel ran out.
  unfoldable pub collect :
      {B : Type 0}
      → (Statement Raw → Outcome B)
      → ℕ
      → Statement Raw
      → Option (Outcome (List B) × Statement Raw)
  collect f zero s = none
  collect f (suc fuel) s =
      let (r, s') = next s in
      let rest = collect f fuel s' in
      elim r [
        | ok more ↦ if more then collect_row (f s') s' rest else some (ok [], s')
        | err e ↦ some (err e, s')
        | panic ↦ some (panic, s')
      ]
