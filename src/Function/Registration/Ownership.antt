-- ===== src/Function/Registration/Ownership.antt =====
-- That an object that is handed to SQLite is dropped once if SQLite does not take it, and is
-- SQLite's otherwise.
use sqlite3_ext.Prelude.{
  ℕ, ◌+◌, ◌≡◌, Bool, true, false, arith, ◌==◌, if◌then◌else◌, Outcome, ok, Text, Bool-cases, inl,
  inr,
}
use sqlite3_ext.Version.{Build, match_version, supports}
use sqlite3_ext.Types.{from_sqlite_desc, is_success}
use sqlite3_ext.Types.Codes.{sqlite_ok}
use sqlite3_ext.Function.Options.{FunctionOptions}
use sqlite3_ext.Function.Results.{contains_nul}
use sqlite3_ext.Vtab.Modules.{Module}
use sqlite3_ext.Function.Registration.{
  Callbacks, scalar, aggregate, window, RegisterApi, c_name, answer, dropped_on_failure,
  create_scalar_function_object, create_legacy_aggregate_function, create_aggregate_function,
  create_collation, create_module,
}

-- How often an object was dropped, and whether SQLite holds it.
pub record Fate : Type 0 where
  pub drops : ℕ
  pub held : Bool

abbrev pub taken : Fate → Fate
taken f = record f { held = true }

abbrev pub dropped : Fate → Fate
dropped f = record f { drops = f.drops + 1 }

-- An object is taken when the code is SQLITE_OK, and dropped otherwise.
abbrev pub settled : ℕ → Fate → Fate
settled rc f = if rc == sqlite_ok then taken f else dropped f

-- The codes that such a call returns: SQLITE_OK or an error.
abbrev pub IsCode : ℕ → Type 0
IsCode rc = is_success rc ≡ (rc == sqlite_ok)

-- What SQLite documents: the functions with a destructor call it when they fail, save for
-- sqlite3_create_collation_v2, which leaves the object to its caller.
pub record Destroys {S T : Type 0} (api : RegisterApi S T) (fate : S → Fate) : Type 0 where
  pub function_v2 :
      (n : Text) (o : FunctionOptions) (k : Callbacks) (t : T) (s : S)
      → let r = api.create_function_v2 n o k t s in IsCode r.0 × (fate r.1 ≡ settled r.0 (fate s))
  pub window_function :
      (n : Text) (o : FunctionOptions) (k : Callbacks) (t : T) (s : S)
      → let r = api.create_window_function n o k t s in
        IsCode r.0 × (fate r.1 ≡ settled r.0 (fate s))
  pub module_v2 :
      (n : Text) (m : Module) (t : T) (s : S)
      → let r = api.create_module_v2 n m t s in IsCode r.0 × (fate r.1 ≡ settled r.0 (fate s))
  pub collation_v2 :
      (n : Text) (t : T) (s : S)
      → let r = api.create_collation_v2 n t s in
        IsCode r.0 × (fate r.1 ≡ (if r.0 == sqlite_ok then taken (fate s) else fate s))
  pub box : (t : T) (s : S) → fate (api.drop_box t s) ≡ dropped (fate s)

abbrev pub settled_by : Outcome (Unit {0}) → Fate → Fate
settled_by (ok _) f = taken f
settled_by r f = dropped f

module _ {S T : Type 0} (api : RegisterApi S T) (fate : S → Fate) (laws : Destroys api fate) where
  answer-settled :
      (r : ℕ × S) (f : Fate)
      → IsCode r.0 × (fate r.1 ≡ settled r.0 f)
      → fate (answer api r).1 ≡ settled_by (answer api r).0 f
  unfolding from_sqlite_desc
  answer-settled r f h = ground arith

  collation-settled :
      (t : T) (r : ℕ × S) (f : Fate)
      → IsCode r.0 × (fate r.1 ≡ (if r.0 == sqlite_ok then taken f else f))
      → IsCode r.0 × (fate (dropped_on_failure api t r).1 ≡ settled r.0 f)
  collation-settled t r f h = (h.0, ground (arith, laws.box t r.1))

  -- From SQLite 3.7.3 on, an object that is given to create_scalar_function, create_aggregate_function,
  -- create_collation or create_module belongs to SQLite when the call succeeds, and has been dropped
  -- exactly once when it fails. The name of the module has no nul in it.
  pub create-settled :
      (b : Build) (name module_name : Text) (opts : FunctionOptions) (m : Module) (t : T) (s : S)
      → supports b 3007003 ≡ true
      → contains_nul module_name ≡ false
      → let f = create_scalar_function_object api b name opts t s in
        let a = create_aggregate_function api b name opts t s in
        let c = create_collation api name t s in
        let v = create_module api module_name m t s in
        (fate f.1 ≡ settled_by f.0 (fate s))
        × (fate a.1 ≡ settled_by a.0 (fate s))
        × (fate c.1 ≡ settled_by c.0 (fate s))
        × (fate v.1 ≡ settled_by v.0 (fate s))
  unfolding create_scalar_function_object create_aggregate_function create_legacy_aggregate_function
      create_collation create_module match_version
  create-settled b name module_name opts m t s h n =
      let n' = c_name name in
      (
        rw h (answer-settled _ (fate s) (laws.function_v2 n' opts scalar t s)),
        elim (Bool-cases (supports b 3025000)) [
          | inl e ↦ rw e (answer-settled _ (fate s) (laws.window_function n' opts window t s))
          | inr e ↦ rw (e, h) (answer-settled _ (fate s) (laws.function_v2 n' opts aggregate t s))
        ],
        answer-settled _ (fate s) (collation-settled t _ (fate s) (laws.collation_v2 n' t s)),
        rw n (answer-settled _ (fate s) (laws.module_v2 (c_name module_name) m t s)),
      )
