-- ===== src/Vtab/Connecting/Failure.antt =====
-- What is left when a connection fails.
use sqlite3_ext.Prelude.{
  ℕ, ◌≡◌, ◌≢◌, refl, List, Option, none, some, Outcome, ok, err, panic, Error, Text, arith,
}
use sqlite3_ext.Types.{Slot}
use sqlite3_ext.Types.Conversion.{code_of, handle_result-code}
use sqlite3_ext.Vtab.Stubs.{TransactionVtab, Handle, vtab_begin, answer}
use sqlite3_ext.Vtab.Connecting.{to_strs, vtab_connect, vtab_connect_transaction}

module _ {V T : Type 0} (show_error : Error → Text) (to_c : Text → Outcome (Option Text))
    (to_str : Text → Option Text) (imp : TransactionVtab V T) where
  abbrev pub fresh_handle : V → Option Text → Option T → Handle V T
  fresh_handle v p t = record { z_err_msg = some p; vtab = v; txn = t }

  connected :
      (func : List Text → Outcome (Text × V)) (declare_vtab : Text → ℕ) (argv args : List Text)
      (msg : Slot) (sql : Text) (v : V)
      → to_strs to_str argv ≡ some args
      → func args ≡ ok (sql, v)
      → declare_vtab sql ≡ 0
      → vtab_connect {V = V} {T = T} show_error to_c to_str func declare_vtab argv msg
        ≡ ok (0, msg, some (fresh_handle v none none))
  unfolding vtab_connect
  connected func declare_vtab argv args msg sql v a f d = rw (vtab_connect, a, f, d) refl

  -- What `begin` gives: the code for SQLite, and the transaction.
  abbrev pub begin_code : Outcome T → ℕ
  begin_code (err e) = code_of e
  begin_code r = 0

  abbrev pub begun_txn : Outcome T → Option T
  begun_txn (ok t) = some t
  begun_txn r = none

  begin-fresh :
      (v : V) (r : Outcome T)
      → ((s : Text) → to_c s ≢ panic)
      → imp.begin v ≡ r
      → r ≢ panic
      → (p : Option Text) × (vtab_begin show_error to_c imp (fresh_handle v none none)
          ≡ (ok (begin_code r), fresh_handle v p (begun_txn r)))
  unfolding vtab_begin
  begin-fresh v (ok t) calm b k = (none, rw (vtab_begin, b) refl)
  begin-fresh v (err e) calm b k =
      let (q, f) = handle_result-code show_error to_c (err e) none calm (ground arith) in
      (q, rw (vtab_begin, b, answer, f) refl)
  begin-fresh v panic calm b k = absurd (k refl)

  -- A table with transactions is connected, and its first transaction is begun at once. When that
  -- succeeds the handle has the transaction. When it fails SQLite gets the code of the error, but
  -- the message stays with the handle and `err_msg` is as it was, and `*p_vtab` is set though the
  -- connection failed. The arguments are UTF-8, the implementation makes the table, SQLite takes
  -- its declaration, and nothing panics.
  vtab_connect_transaction-begin :
      (func : List Text → Outcome (Text × V)) (declare_vtab : Text → ℕ) (argv args : List Text)
      (msg : Slot) (sql : Text) (v : V) (r : Outcome T)
      → ((s : Text) → to_c s ≢ panic)
      → to_strs to_str argv ≡ some args
      → func args ≡ ok (sql, v)
      → declare_vtab sql ≡ 0
      → imp.begin v ≡ r
      → r ≢ panic
      → (p : Option Text) × (vtab_connect_transaction show_error to_c to_str imp func declare_vtab
            argv msg
          ≡ ok (begin_code r, msg, some (fresh_handle v p (begun_txn r))))
  unfolding vtab_connect_transaction
  vtab_connect_transaction-begin func declare_vtab argv args msg sql v r calm a f d b k =
      let (p, e) = begin-fresh v r calm b k in
      (
        p,
        rw (vtab_connect_transaction, connected func declare_vtab argv args msg sql v a f d, e)
            refl,
      )
