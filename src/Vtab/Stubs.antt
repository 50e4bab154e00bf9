-- ===== src/Vtab/Stubs.antt =====
-- src/vtab/stubs.rs: the callbacks by which SQLite tells a virtual table of transactions.
pub mod Protocol
use sqlite3_ext.Prelude.{ℕ, Option, none, some, Outcome, ok, err, panic, Error, Method, Text}
use sqlite3_ext.Prelude.Int.{ℤ}
use sqlite3_ext.Types.{Slot, handle_result, handle_error}
use sqlite3_ext.Types.Codes.{sqlite_ok}

-- The traits TransactionVTab and VTabTransaction, which a virtual table implements: `V` is the
-- table, `T` its transaction. `commit` and `rollback` consume the transaction.
pub record TransactionVtab (V T : Type 0) : Type 0 where
  pub begin : V → Outcome T
  pub sync : Method T (Unit {0})
  pub commit : T → Outcome (Unit {0})
  pub rollback : T → Outcome (Unit {0})
  pub savepoint : ℤ → Method T (Unit {0})
  pub release : ℤ → Method T (Unit {0})
  pub rollback_to : ℤ → Method T (Unit {0})

-- `VTabHandle`, with `base.zErrMsg`
pub record Handle (V T : Type 0) : Type 0 where
  pub z_err_msg : Slot
  pub vtab : V
  pub txn : Option T

-- `show_error` and `to_c` are those of `handle_result`.
module _ {V T : Type 0} (show_error : Error → Text) (to_c : Text → Outcome (Option Text))
    (imp : TransactionVtab V T) where
  -- `ffi::handle_result(result, &mut vtab.base.zErrMsg)`
  abbrev pub answer : Outcome (Unit {0}) → Method (Handle V T) ℕ
  answer r h = elim (handle_result show_error to_c r h.z_err_msg) [
    | ok (rc, msg) ↦ (ok rc, record h { z_err_msg = msg })
    | err e ↦ (err e, h)
    | panic ↦ (panic, h)
  ]

  -- A transaction that is still there is dropped.
  abbrev begun : Outcome T → Method (Handle V T) ℕ
  begun (ok t) h = (ok sqlite_ok, record h { txn = some t })
  begun (err e) h = answer (err e) (record h { txn = none })
  begun panic h = (panic, record h { txn = none })

  unfoldable pub vtab_begin : Method (Handle V T) ℕ
  vtab_begin h = begun (imp.begin h.vtab) h

  -- `vtab.txn.unwrap()`, and what a method does with the transaction in its place.
  abbrev pub in_txn : Method T (Unit {0}) → Method (Handle V T) ℕ
  in_txn f h = elim h.txn [
    | some t ↦ answer (f t).0 (record h { txn = some (f t).1 })
    | none ↦ (panic, h)
  ]

  -- `vtab.txn.take().unwrap()`
  abbrev pub end_txn : (T → Outcome (Unit {0})) → Method (Handle V T) ℕ
  end_txn f h = elim h.txn [ some t ↦ answer (f t) (record h { txn = none }) | none ↦ (panic, h) ]

  unfoldable pub vtab_sync : Method (Handle V T) ℕ
  vtab_sync = in_txn imp.sync

  unfoldable pub vtab_commit : Method (Handle V T) ℕ
  vtab_commit = end_txn imp.commit

  unfoldable pub vtab_rollback : Method (Handle V T) ℕ
  vtab_rollback = end_txn imp.rollback

  unfoldable pub vtab_savepoint : ℤ → Method (Handle V T) ℕ
  vtab_savepoint n = in_txn (imp.savepoint n)

  unfoldable pub vtab_release : ℤ → Method (Handle V T) ℕ
  vtab_release n = in_txn (imp.release n)

  unfoldable pub vtab_rollback_to : ℤ → Method (Handle V T) ℕ
  vtab_rollback_to n = in_txn (imp.rollback_to n)
