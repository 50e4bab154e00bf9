-- ===== src/Transaction.antt =====
-- src/transaction.rs: the guard around transactions and savepoints. What a method runs on the
-- database is passed on, also when the statement fails.
pub mod Nesting
use sqlite3_ext.Prelude.{
  ℕ, Bool, true, false, List, [], ◌∷◌, Outcome, ok, err, panic, map_ok, Method, ◌>>=◌, ◌>>◌, pure,
  lift, modify, attempt, Text, text, if◌then◌else◌,
}
use sqlite3_ext.Prelude.Int.{ℤ}

pub data TransactionType : Type 0 where
  deferred immediate exclusive : TransactionType

pub data TransactionState : Type 0 where
  active_transaction active_savepoint inactive : TransactionState

-- A transaction, and the database behind its connection.
pub record Transaction (Db : Type 0) : Type 0 where
  pub db : Db
  pub state : TransactionState

abbrev pub begin_sql : TransactionType → Text
begin_sql deferred = text "BEGIN"
begin_sql immediate = text "BEGIN IMMEDIATE"
begin_sql exclusive = text "BEGIN EXCLUSIVE"

abbrev pub commit_sql : Text
commit_sql = text "COMMIT"

abbrev pub release_sql : Text
release_sql = text "RELEASE SAVEPOINT a"

abbrev pub rollback_sql : Text
rollback_sql = text "ROLLBACK"

abbrev pub rollback_to_sql : Text
rollback_to_sql = text "ROLLBACK TO a"

abbrev pub savepoint_sql : Text
savepoint_sql = text "SAVEPOINT a"

-- `execute` is `Connection::execute` with no parameters.
module _ {Db : Type 0} (execute : Text → Method Db ℤ) where
  -- `self.execute(sql, ())`, through the deref to the connection.
  abbrev pub execute_on : Text → Method (Transaction Db) ℤ
  execute_on sql txn = let (r, db) = execute sql txn.db in (r, record txn { db = db })

  abbrev pub set_state : TransactionState → Method (Transaction Db) (Unit {0})
  set_state state = modify λ txn. record txn { state = state }

  abbrev pub start : TransactionType → Method (Transaction Db) (Unit {0})
  start kind = execute_on (begin_sql kind) >> set_state active_transaction

  -- `Connection::transaction`. On an error there is no transaction, and dropping the one that was
  -- begun does nothing, since its state is Inactive; what is left is the database.
  unfoldable pub transaction : TransactionType → Db → Outcome (Unit {0}) × Transaction Db
  transaction kind db = start kind (record { db = db; state = inactive })

  -- The statement by which the transaction ends; none is left when it is inactive.
  abbrev pub end_with : Text → Text → Method (Transaction Db) ℤ
  end_with whole part txn = elim txn.state [
    | active_transaction ↦ execute_on whole txn
    | active_savepoint ↦ execute_on part txn
    | inactive ↦ (panic, txn)
  ]

  -- `self.state = Inactive; ret.map(|_| ())`
  abbrev pub finish : Outcome ℤ → Method (Transaction Db) (Unit {0})
  finish ret = set_state inactive >> lift (map_ok (λ _. tt) ret)

  unfoldable pub commit_mut : Method (Transaction Db) (Unit {0})
  commit_mut = attempt (end_with commit_sql release_sql) finish

  unfoldable pub rollback_mut : Method (Transaction Db) (Unit {0})
  rollback_mut = attempt (end_with rollback_sql rollback_to_sql) finish

  -- What `drop` does with the answer of the rollback; while the thread unwinds, the error is only
  -- printed.
  abbrev pub dropped : Bool → Outcome (Unit {0}) → Method (Transaction Db) (Unit {0})
  dropped panicking (ok _) = pure tt
  dropped true (err e) = pure tt
  dropped false (err e) = lift panic
  dropped panicking panic = lift panic

  unfoldable pub drop : Bool → Method (Transaction Db) (Unit {0})
  drop panicking txn = elim txn.state [
    | inactive ↦ (ok tt, txn)
    | active_transaction ↦ attempt rollback_mut (dropped panicking) txn
    | active_savepoint ↦ attempt rollback_mut (dropped panicking) txn
  ]

  -- `commit` and `rollback` consume the transaction, so it is dropped when they return.
  unfoldable pub commit : Method (Transaction Db) (Unit {0})
  commit = attempt commit_mut λ ret. drop false >> lift ret

  unfoldable pub rollback : Method (Transaction Db) (Unit {0})
  rollback = attempt rollback_mut λ ret. drop false >> lift ret

  -- `savepoint`: the transaction of the savepoint, on the same database.
  unfoldable pub savepoint : Method (Transaction Db) (Unit {0})
  savepoint = execute_on savepoint_sql >> set_state active_savepoint
