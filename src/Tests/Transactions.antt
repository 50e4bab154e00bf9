-- ===== src/Tests/Transactions.antt =====
-- A database that is its view: its content, and the contents at the open savepoints.
use sqlite3_ext.Prelude.{
  ℕ, ◌≡◌, ◌≢◌, refl, false, List, [], ◌∷◌, arith, ok, err, Error, Method, Text, text_eq,
  if◌then◌else◌, ap,
}
use sqlite3_ext.Prelude.Int.{ℤ, pos}
use sqlite3_ext.Transaction.{
  TransactionType, deferred, immediate, exclusive, begin_sql, commit_sql, release_sql, rollback_sql,
  rollback_to_sql, savepoint_sql, transaction, drop, Transaction, active_transaction,
}
use sqlite3_ext.Transaction.Nesting.{IsTransactional, transaction-drop}

abbrev Db : Type 0
Db = ℕ × List ℕ

abbrev pop : ℕ → List ℕ → Db
pop x [] = (x, [])
pop x (y ∷ older) = (x, older)

abbrev restore : ℕ → List ℕ → Db
restore x [] = (x, [])
restore x (y ∷ older) = (y, y ∷ older)

abbrev abandon : ℕ → List ℕ → Db
abandon x [] = (x, [])
abandon x (y ∷ older) = (y, [])

-- A statement that is none of those of transactions begins one here.
abbrev run : Text → Db → Db
run sql (x, saved) =
    if text_eq sql commit_sql
    then (x, [])
    else if text_eq sql rollback_sql
    then abandon x saved
    else if text_eq sql savepoint_sql
    then (x, x ∷ saved)
    else if text_eq sql release_sql
    then pop x saved
    else if text_eq sql rollback_to_sql
    then restore x saved
    else (x, x ∷ [])

abbrev execute : Text → Method Db ℤ
execute sql d = (ok (pos 0), run sql d)

abbrev view : Db → Db
view d = d

view-run : (sql : Text) (d d' : Db) → view d ≡ d' → view (execute sql d).1 ≡ run sql d'
view-run sql d d' e = ap (run sql) e

begins :
    (kind : TransactionType) (d : Db) (x : ℕ)
    → view d ≡ (x, [])
    → view (execute (begin_sql kind) d).1 ≡ (x, x ∷ [])
begins deferred d x e = view-run (begin_sql deferred) d (x, []) e
begins immediate d x e = view-run (begin_sql immediate) d (x, []) e
begins exclusive d x e = view-run (begin_sql exclusive) d (x, []) e

succeeds : (sql : Text) (d : Db) (e : Error) → (execute sql d).0 ≢ err e
succeeds sql d e h = ground arith

abbrev lawful : IsTransactional execute view
lawful = record {
  begins = λ kind d n x e h. begins kind d x e;
  commits = λ d n x y e h. view-run commit_sql d (x, y ∷ []) e;
  refuses_commit = λ d e x y v h. absurd (succeeds commit_sql d e h);
  rolls_back = λ d n x y e h. view-run rollback_sql d (x, y ∷ []) e;
  saves = λ d n x y older e h. view-run savepoint_sql d (x, y ∷ older) e;
  releases = λ d n x y z older e h. view-run release_sql d (x, y ∷ z ∷ older) e;
  rolls_back_to = λ d n x y z older e h. view-run rollback_to_sql d (x, y ∷ z ∷ older) e;
}

transaction-drop_example :
    let dropped =
      drop execute false (record (transaction execute immediate (5, [])).1 { db = (8, 5 ∷ []) }) in
    (dropped.0 ≡ ok tt) × (view dropped.1.db ≡ (5, []))
unfolding transaction
transaction-drop_example =
    transaction-drop execute view immediate false (5, []) (8, 5 ∷ []) (pos 0) (pos 0) 5 8 lawful
      refl refl refl refl

abbrev open_txn : Transaction Db
open_txn = record { db = (1, 1 ∷ []); state = active_transaction }
