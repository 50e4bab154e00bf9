-- ===== src/Transaction/Nesting.antt =====
-- What becomes of the content of the database.
use sqlite3_ext.Prelude.{
  ◌⊎◌, ◌≡◌, refl, ◌∙◌, ap, Bool, List, [], ◌∷◌, arith, Outcome, ok, err, panic, Method, Text,
  map_ok, ◌≢◌, Error,
}
use sqlite3_ext.Prelude.Int.{ℤ}
use sqlite3_ext.Transaction.{
  TransactionType, active_transaction, active_savepoint, inactive, Transaction, begin_sql,
  commit_sql, release_sql, rollback_sql, rollback_to_sql, savepoint_sql, transaction, commit_mut,
  rollback_mut, drop, commit, savepoint,
}

-- What SQLite documents of the statements. The view of a database is its content and, innermost
-- first, the contents at the savepoints that are open and at the begin of the transaction; none
-- are open in autocommit mode. Every savepoint here has the name a, and a statement that names it
-- means the innermost one. ROLLBACK TO leaves its savepoint open. A COMMIT that fails leaves the
-- transaction open, or rolls it back.
pub record IsTransactional {Db C : Type 0} (execute : Text → Method Db ℤ) (view : Db → C × List C)
    : Type 0 where
  pub begins :
      (kind : TransactionType) (d : Db) (n : ℤ) (x : C)
      → view d ≡ (x, [])
      → (execute (begin_sql kind) d).0 ≡ ok n
      → view (execute (begin_sql kind) d).1 ≡ (x, x ∷ [])
  pub commits :
      (d : Db) (n : ℤ) (x y : C)
      → view d ≡ (x, y ∷ [])
      → (execute commit_sql d).0 ≡ ok n
      → view (execute commit_sql d).1 ≡ (x, [])
  pub refuses_commit :
      (d : Db) (e : Error) (x y : C)
      → view d ≡ (x, y ∷ [])
      → (execute commit_sql d).0 ≡ err e
      → (view (execute commit_sql d).1 ≡ (x, y ∷ [])) ⊎ (view (execute commit_sql d).1 ≡ (y, []))
  pub rolls_back :
      (d : Db) (n : ℤ) (x y : C)
      → view d ≡ (x, y ∷ [])
      → (execute rollback_sql d).0 ≡ ok n
      → view (execute rollback_sql d).1 ≡ (y, [])
  pub saves :
      (d : Db) (n : ℤ) (x y : C) (older : List C)
      → view d ≡ (x, y ∷ older)
      → (execute savepoint_sql d).0 ≡ ok n
      → view (execute savepoint_sql d).1 ≡ (x, x ∷ y ∷ older)
  pub releases :
      (d : Db) (n : ℤ) (x y z : C) (older : List C)
      → view d ≡ (x, y ∷ z ∷ older)
      → (execute release_sql d).0 ≡ ok n
      → view (execute release_sql d).1 ≡ (x, z ∷ older)
  pub rolls_back_to :
      (d : Db) (n : ℤ) (x y z : C) (older : List C)
      → view d ≡ (x, y ∷ z ∷ older)
      → (execute rollback_to_sql d).0 ≡ ok n
      → view (execute rollback_to_sql d).1 ≡ (y, y ∷ z ∷ older)

module _ {Db C : Type 0} (execute : Text → Method Db ℤ) (view : Db → C × List C) where
  started :
      (kind : TransactionType) (d : Db) (n : ℤ)
      → (execute (begin_sql kind) d).0 ≡ ok n
      → transaction execute kind d
        ≡ (ok tt, record { db = (execute (begin_sql kind) d).1; state = active_transaction })
  unfolding transaction
  started kind d n h = ground arith

  drop-active :
      (panicking : Bool) (d : Db) (n : ℤ)
      → (execute rollback_sql d).0 ≡ ok n
      → drop execute panicking (record { db = d; state = active_transaction })
        ≡ (ok tt, record { db = (execute rollback_sql d).1; state = inactive })
  unfolding drop rollback_mut
  drop-active panicking d n h = ground arith

  -- A transaction that is dropped without being ended puts the content back to what it was before
  -- it began, and autocommit mode is on again: `d'` is the database after the statements in
  -- between, which change the content at will and leave the transaction open. It is asked that
  -- BEGIN and ROLLBACK succeed.
  pub transaction-drop :
      (kind : TransactionType) (panicking : Bool) (d d' : Db) (n m : ℤ) (x y : C)
      → IsTransactional execute view
      → view d ≡ (x, [])
      → (execute (begin_sql kind) d).0 ≡ ok n
      → view d' ≡ (y, (view (transaction execute kind d).1.db).1)
      → (execute rollback_sql d').0 ≡ ok m
      → let dropped = drop execute panicking (record (transaction execute kind d).1 { db = d' }) in
        (dropped.0 ≡ ok tt) × (view dropped.1.db ≡ (x, []))
  transaction-drop kind panicking d d' n m x y l v b w r =
      let s = started kind d n b in
      let o : (view (transaction execute kind d).1.db).1 ≡ x ∷ [] =
        rw s (ap (λ p. p.1) (l.begins kind d n x v b)) in
      rw (s, drop-active panicking d' m r) (refl, l.rolls_back d' m y x (w ∙ ap (λ q. (y, q)) o) r)

  commit-active :
      (d : Db) (r : Outcome ℤ)
      → (execute commit_sql d).0 ≡ r
      → r ≢ panic
      → commit execute (record { db = d; state = active_transaction })
        ≡ (map_ok (λ _. tt) r, record { db = (execute commit_sql d).1; state = inactive })
  unfolding commit commit_mut drop
  commit-active d (ok n) h k = ground arith
  commit-active d (err e) h k = ground arith
  commit-active d panic h k = absurd (k refl)

  -- What is left once COMMIT answered in a transaction that changed the content from y to x.
  abbrev pub Left : Outcome ℤ → C → C → C × List C → Type 0
  Left (ok n) x y v = v ≡ (x, [])
  Left (err e) x y v = (v ≡ (x, y ∷ [])) ⊎ (v ≡ (y, []))
  Left panic x y v = ⊥

  -- `commit` answers by its one statement. When COMMIT succeeds, the content stays as the
  -- transaction made it, and autocommit mode is on again. When it fails, the drop that follows does
  -- not roll back: if SQLite did not do so itself, the transaction stays open on the connection, and
  -- nothing is left to end it.
  commit-view :
      (d : Db) (r : Outcome ℤ) (x y : C)
      → IsTransactional execute view
      → view d ≡ (x, y ∷ [])
      → (execute commit_sql d).0 ≡ r
      → r ≢ panic
      → let done = commit execute (record { db = d; state = active_transaction }) in
        (done.0 ≡ map_ok (λ _. tt) r) × (done.1.state ≡ inactive) × Left r x y (view done.1.db)
  commit-view d (ok n) x y l v h k =
      rw (commit-active d (ok n) h k) (refl, refl, l.commits d n x y v h)
  commit-view d (err e) x y l v h k =
      rw (commit-active d (err e) h k) (refl, refl, l.refuses_commit d e x y v h)
  commit-view d panic x y l v h k = absurd (k refl)

  -- Every statement succeeds.
  abbrev pub AllSucceed : Type 0
  AllSucceed = (sql : Text) (d : Db) → (n : ℤ) × ((execute sql d).0 ≡ ok n)

  saved :
      (t : Transaction Db)
      → AllSucceed
      → savepoint execute t
        ≡ (ok tt, record { db = (execute savepoint_sql t.db).1; state = active_savepoint })
  unfolding savepoint
  saved t all = let (n, h) = all savepoint_sql t.db in ground arith

  undone :
      (panicking : Bool) (d : Db)
      → AllSucceed
      → drop execute panicking (record { db = d; state = active_savepoint })
        ≡ (ok tt, record { db = (execute rollback_to_sql d).1; state = inactive })
  unfolding drop rollback_mut
  undone panicking d all = let (n, h) = all rollback_to_sql d in ground arith

  kept :
      (d : Db)
      → AllSucceed
      → commit execute (record { db = d; state = active_savepoint })
        ≡ (ok tt, record { db = (execute release_sql d).1; state = inactive })
  unfolding drop commit commit_mut
  kept d all = let (n, h) = all release_sql d in ground arith

  saved-view :
      (t : Transaction Db) (d : Db) (x y b : C) (older : List C)
      → IsTransactional execute view
      → AllSucceed
      → view t.db ≡ (x, b ∷ older)
      → view d ≡ (y, (view (savepoint execute t).1.db).1)
      → view d ≡ (y, x ∷ b ∷ older)
  saved-view t d x y b older l all v w =
      let (n, h) = all savepoint_sql t.db in
      let o : (view (savepoint execute t).1.db).1 ≡ x ∷ b ∷ older =
        rw (saved t all) (ap (λ p. p.1) (l.saves t.db n x b older v h)) in
      w ∙ ap (λ q. (y, q)) o

  -- A savepoint of a transaction that changes the content from x to y (`d` is the database
  -- afterwards, with the same savepoints open): committing it keeps y and closes it, and dropping
  -- it puts x back, though the savepoint itself stays open.
  savepoint-view :
      (t : Transaction Db) (panicking : Bool) (d : Db) (x y b : C) (older : List C)
      → IsTransactional execute view
      → AllSucceed
      → view t.db ≡ (x, b ∷ older)
      → view d ≡ (y, (view (savepoint execute t).1.db).1)
      → let inner = record (savepoint execute t).1 { db = d } in
        (view (commit execute inner).1.db ≡ (y, b ∷ older))
        × (view (drop execute panicking inner).1.db ≡ (x, x ∷ b ∷ older))
  savepoint-view t panicking d x y b older l all v w =
      let (n, h) = all release_sql d in
      let (m, k) = all rollback_to_sql d in
      let o = saved-view t d x y b older l all v w in
      rw (saved t all, kept d all, undone panicking d all)
        (l.releases d n y x b older o h, l.rolls_back_to d m y x b older o k)
