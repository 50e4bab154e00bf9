-- ===== src/Vtab/Stubs/Protocol.antt =====
-- The callbacks in the order in which SQLite calls them.
use sqlite3_ext.Prelude.{
  ℕ, ◌≡◌, ◌≢◌, refl, ◌⊎◌, inl, inr, Bool, true, false, Outcome, ok, err, panic, Option, none, some,
  arith, Error, Method, Text, Outcome-cases,
}
use sqlite3_ext.Prelude.Int.{ℤ}
use sqlite3_ext.Types.{handle_result, handle_error}
use sqlite3_ext.Types.Conversion.{code_of, into_sqlite-code}
use sqlite3_ext.Vtab.Stubs.{
  TransactionVtab, Handle, vtab_begin, vtab_sync, vtab_commit, vtab_rollback, vtab_savepoint,
  vtab_release, vtab_rollback_to, answer, in_txn, end_txn,
}

-- The callbacks of an open transaction, and those that end it.
pub data Use : Type 0 where
  sync : Use
  savepoint release rollback_to : ℤ → Use

pub data End : Type 0 where
  commit rollback : End

-- The implementation does not panic, and no error by which `begin` fails says SQLITE_OK.
pub record IsCalm {V T : Type 0} (imp : TransactionVtab V T) : Type 0 where
  pub begin_calm : (v : V) → imp.begin v ≢ panic
  pub begin_code : (v : V) (e : Error) → imp.begin v ≡ err e → code_of e ≢ 0
  pub sync_calm : (t : T) → (imp.sync t).0 ≢ panic
  pub savepoint_calm : (n : ℤ) (t : T) → (imp.savepoint n t).0 ≢ panic
  pub release_calm : (n : ℤ) (t : T) → (imp.release n t).0 ≢ panic
  pub rollback_to_calm : (n : ℤ) (t : T) → (imp.rollback_to n t).0 ≢ panic
  pub commit_calm : (t : T) → imp.commit t ≢ panic
  pub rollback_calm : (t : T) → imp.rollback t ≢ panic

module _ {V T : Type 0} (show_error : Error → Text) (to_c : Text → Outcome (Option Text))
    (imp : TransactionVtab V T) where
  pub use_txn : Use → Method (Handle V T) ℕ
  use_txn sync = vtab_sync show_error to_c imp
  use_txn (savepoint n) = vtab_savepoint show_error to_c imp n
  use_txn (release n) = vtab_release show_error to_c imp n
  use_txn (rollback_to n) = vtab_rollback_to show_error to_c imp n

  pub end_with : End → Method (Handle V T) ℕ
  end_with commit = vtab_commit show_error to_c imp
  end_with rollback = vtab_rollback show_error to_c imp

  -- The handles that SQLite gets to, and whether it takes a transaction to be open. It asks to
  -- begin one when none is open; it is open when that answered SQLITE_OK, whatever an open
  -- transaction is then asked for leaves it open, and its end closes it, whatever that answers.
  -- A handle may have a transaction from when it was connected.
  pub data Reaches : Bool → Handle V T → Type 0 where
    connected :
        (v : V) (txn : Option T)
        → Reaches false (record { z_err_msg = some none; vtab = v; txn = txn })
    opened :
        (h : Handle V T)
        → Reaches false h
        → (vtab_begin show_error to_c imp h).0 ≡ ok 0
        → Reaches true (vtab_begin show_error to_c imp h).1
    refused :
        (h : Handle V T) → Reaches false h → Reaches false (vtab_begin show_error to_c imp h).1
    used : (u : Use) (h : Handle V T) → Reaches true h → Reaches true (use_txn u h).1
    ended : (e : End) (h : Handle V T) → Reaches true h → Reaches false (end_with e h).1

  -- There is a place for messages, and a transaction if SQLite takes one to be open.
  abbrev pub IsConsistent : Bool → Handle V T → Type 0
  IsConsistent false h = (p : Option Text) × (h.z_err_msg ≡ some p)
  IsConsistent true h = (p : Option Text) × (h.z_err_msg ≡ some p) × (t : T) × (h.txn ≡ some t)

  -- The code by which a result is answered.
  abbrev pub answer_code : Outcome (Unit {0}) → ℕ
  answer_code (err e) = code_of e
  answer_code r = 0

  answered :
      (r : Outcome (Unit {0})) (h : Handle V T) (p : Option Text)
      → ((s : Text) → to_c s ≢ panic)
      → r ≢ panic
      → h.z_err_msg ≡ some p
      → (q : Option Text) × (answer show_error to_c imp r h
          ≡ (ok (answer_code r), record h { z_err_msg = some q }))
  unfolding handle_result handle_error
  answered (ok _) h p calm k e = (p, rw e refl)
  answered (err x) h p calm k e =
      let (q, f) = into_sqlite-code show_error to_c x p calm in
      (q, rw (e, answer, handle_result, handle_error, f) refl)
  answered panic h p calm k e = absurd (k refl)

  -- A callback of an open transaction is answered by the code of its result and keeps the
  -- transaction; one that ends it takes it away.
  in_txn-answered :
      (f : Method T (Unit {0})) (h : Handle V T) (p : Option Text) (t : T)
      → ((s : Text) → to_c s ≢ panic)
      → (f t).0 ≢ panic
      → h.z_err_msg ≡ some p
      → h.txn ≡ some t
      → ((in_txn show_error to_c imp f h).0 ≡ ok (answer_code (f t).0))
        × IsConsistent true (in_txn show_error to_c imp f h).1
  in_txn-answered f h p t calm k e j =
      let (q, a) = answered (f t).0 (record h { txn = some (f t).1 }) p calm k e in
      rw (j, a) (refl, (q, refl, (f t).1, refl))

  end_txn-answered :
      (f : T → Outcome (Unit {0})) (h : Handle V T) (p : Option Text) (t : T)
      → ((s : Text) → to_c s ≢ panic)
      → f t ≢ panic
      → h.z_err_msg ≡ some p
      → h.txn ≡ some t
      → ((end_txn show_error to_c imp f h).0 ≡ ok (answer_code (f t)))
        × ((end_txn show_error to_c imp f h).1.txn ≡ none)
        × IsConsistent false (end_txn show_error to_c imp f h).1
  end_txn-answered f h p t calm k e j =
      let (q, a) = answered (f t) (record h { txn = none }) p calm k e in
      rw (j, a) (refl, refl, (q, refl))

  noted : {r : Outcome ℕ} {P : Type 0} {rc : ℕ} → (r ≡ ok rc) × P → (code : ℕ) × (r ≡ ok code) × P
  noted {rc = rc} (e, x) = (rc, e, x)

  use-IsConsistent :
      (u : Use) (h : Handle V T)
      → ((s : Text) → to_c s ≢ panic)
      → IsCalm imp
      → IsConsistent true h
      → (rc : ℕ) × ((use_txn u h).0 ≡ ok rc) × IsConsistent true (use_txn u h).1
  unfolding use_txn vtab_sync vtab_savepoint vtab_release vtab_rollback_to
  use-IsConsistent sync h calm l (p, e, t, j) =
      noted (in_txn-answered imp.sync h p t calm (l.sync_calm t) e j)
  use-IsConsistent (savepoint n) h calm l (p, e, t, j) =
      noted (in_txn-answered (imp.savepoint n) h p t calm (l.savepoint_calm n t) e j)
  use-IsConsistent (release n) h calm l (p, e, t, j) =
      noted (in_txn-answered (imp.release n) h p t calm (l.release_calm n t) e j)
  use-IsConsistent (rollback_to n) h calm l (p, e, t, j) =
      noted (in_txn-answered (imp.rollback_to n) h p t calm (l.rollback_to_calm n t) e j)

  end-IsConsistent :
      (e : End) (h : Handle V T)
      → ((s : Text) → to_c s ≢ panic)
      → IsCalm imp
      → IsConsistent true h
      → (rc : ℕ) × ((end_with e h).0 ≡ ok rc)
        × ((end_with e h).1.txn ≡ none)
        × IsConsistent false (end_with e h).1
  unfolding end_with vtab_commit vtab_rollback
  end-IsConsistent commit h calm l (p, m, t, j) =
      let (a, b, c) = end_txn-answered imp.commit h p t calm (l.commit_calm t) m j in
      (answer_code (imp.commit t), a, b, c)
  end-IsConsistent rollback h calm l (p, m, t, j) =
      let (a, b, c) = end_txn-answered imp.rollback h p t calm (l.rollback_calm t) m j in
      (answer_code (imp.rollback t), a, b, c)

  -- What `vtab_begin` leaves, by the result of `begin`.
  begin-answered :
      (h : Handle V T) (p : Option Text)
      → ((s : Text) → to_c s ≢ panic)
      → IsCalm imp
      → h.z_err_msg ≡ some p
      → ((t : T) × (vtab_begin show_error to_c imp h ≡ (ok 0, record h { txn = some t })))
        ⊎ ((rc : ℕ) × (q : Option Text) × (rc ≢ 0)
            × (vtab_begin show_error to_c imp h
                ≡ (ok rc, record h { txn = none; z_err_msg = some q })))
  unfolding vtab_begin
  begin-answered h p calm l m = elim (Outcome-cases (imp.begin h.vtab)) [
    | inl (t, e) ↦ inl (t, rw (vtab_begin, e) refl)
    | inr (inl (x, e)) ↦
        let (q, f) = answered (err x) (record h { txn = none }) p calm (ground arith) m in
        inr (code_of x, q, l.begin_code h.vtab x e, rw (vtab_begin, e) f)
    | inr (inr e) ↦ absurd (l.begin_calm h.vtab e)
  ]

  reached :
      (o : Bool) (h : Handle V T)
      → ((s : Text) → to_c s ≢ panic)
      → IsCalm imp
      → Reaches o h
      → IsConsistent o h
  reached _ _ calm l (connected v txn) = (none, refl)
  reached _ _ calm l (opened h r z) =
      let (p, m) = reached false h calm l r in
      elim (begin-answered h p calm l m) [
        | inl (t, e) ↦ rw e (p, m, t, refl)
        | inr (rc, q, k, e) ↦ absurd (k (ground arith))
      ]
  reached _ _ calm l (refused h r) =
      let (p, m) = reached false h calm l r in
      elim (begin-answered h p calm l m) [
        | inl (t, e) ↦ rw e (p, m)
        | inr (rc, q, k, e) ↦ rw e (q, refl)
      ]
  reached _ _ calm l (used u h r) =
      let (rc, e, c) = use-IsConsistent u h calm l (reached true h calm l r) in c
  reached _ _ calm l (ended e h r) =
      let (rc, a, b, c) = end-IsConsistent e h calm l (reached true h calm l r) in c

  -- In the order in which SQLite calls them, no callback finds its transaction missing: while one
  -- is open, each is answered by a code, and after the one that ends it there is no transaction
  -- any more, even if it failed. The implementation and the copy of a message do not panic, and
  -- `begin` does not fail with an error whose code is SQLITE_OK.
  pub reaches-answered :
      (h : Handle V T) (u : Use) (e : End)
      → ((s : Text) → to_c s ≢ panic)
      → IsCalm imp
      → Reaches true h
      → ((rc : ℕ) × ((use_txn u h).0 ≡ ok rc))
        × ((rc : ℕ) × ((end_with e h).0 ≡ ok rc) × ((end_with e h).1.txn ≡ none))
  reaches-answered h u e calm l r =
      let c = reached true h calm l r in
      let (rc, a, k) = use-IsConsistent u h calm l c in
      let (rc', b, n, k') = end-IsConsistent e h calm l c in ((rc, a), (rc', b, n))
