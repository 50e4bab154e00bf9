-- ===== src/Tests/Tables.antt =====
-- Virtual tables.
use sqlite3_ext.Prelude.{
  ◌⊎◌, ℕ, ◌+◌, ◌≡◌, ◌≢◌, inl, inr, refl, true, [], ◌∷◌, arith, Outcome, ok, err, panic, Option,
  none, some, Text, text, Error, sqlite,
}
use sqlite3_ext.Prelude.Int.{ℤ, pos, negsuc, ◌+ℤ◌, ◌-ℤ◌}
use sqlite3_ext.Series.{default_cursor, run}
use sqlite3_ext.Series.Arguments.{run-ascending}
use sqlite3_ext.Series.Reversal.{run-reverse}
use sqlite3_ext.IndexInfo.Ops.{function}
use sqlite3_ext.Vtab.Functions.{VtabFunction, add}
use sqlite3_ext.Vtab.Functions.Overloads.{AreOverloads, IsAddable, add-AreOverloads}
use sqlite3_ext.Vtab.Stubs.{TransactionVtab, Handle, vtab_begin}
use sqlite3_ext.Vtab.Stubs.Protocol.{
  sync, commit, IsCalm, Reaches, connected, opened, use_txn, end_with, reaches-answered,
}

run-ascending_example :
    run 4 7 (some (pos 1) ∷ some (pos 8) ∷ some (pos 3) ∷ []) default_cursor
    ≡ some (ok (pos 1 ∷ pos 4 ∷ pos 7 ∷ []))
unfolding ◌+ℤ◌
run-ascending_example =
    run-ascending 3 4 7 default_cursor (pos 1) (pos 8) 3 (inl refl) (omega arith)
      (omega arith, omega arith) (omega arith, omega arith) (omega arith)
      (omega arith, (omega arith, (omega arith, omega arith))) (omega arith)

run-reverse_example :
    (run 4 7 (some (pos 1) ∷ some (pos 8) ∷ some (pos 3) ∷ []) default_cursor
      ≡ some (ok (pos 1 ∷ pos 4 ∷ pos 7 ∷ [])))
    × (run 4 15 (some (pos 1) ∷ some (pos 8) ∷ some (pos 3) ∷ []) default_cursor
        ≡ some (ok (pos 7 ∷ pos 4 ∷ pos 1 ∷ [])))
unfolding ◌+ℤ◌ ◌-ℤ◌
run-reverse_example =
    run-reverse (pos 1) (pos 8) 2 7 (omega arith) 4 7 15 (pos 3) default_cursor default_cursor
      (inl refl) (inr (refl, refl)) (omega arith) (omega arith, omega arith)
      (omega arith, omega arith) (omega arith) (omega arith, omega arith) (omega arith, omega arith)
      (omega arith) (omega arith)

abbrev overload : ℤ → VtabFunction ℕ ℕ
overload n = record {
  n_args = n;
  name = text "f";
  constraint = some (function 150);
  vtab = none;
  func = 0;
}

abbrev any : VtabFunction ℕ ℕ
any = overload (negsuc 0)

abbrev two : VtabFunction ℕ ℕ
two = overload (pos 2)

add-AreOverloads_example :
    (IsAddable (pos 2) (some (function 150))
      × (add (pos 2) (text "f") (some (function 150)) 0 (any ∷ []) ≡ ok (any ∷ two ∷ []))
      × AreOverloads (any ∷ two ∷ []))
    ⊎ ((¬ IsAddable (pos 2) (some (function 150)))
        × (add (pos 2) (text "f") (some (function 150)) 0 (any ∷ []) ≡ panic))
add-AreOverloads_example =
    add-AreOverloads (pos 2) (text "f") (some (function 150)) 0 (any ∷ []) (omega arith, tt)

abbrev table : TransactionVtab ℕ ℕ
table = record {
  begin = λ v. ok v;
  sync = λ t. (ok tt, t + 1);
  commit = λ t. err (sqlite 5 none);
  rollback = λ t. ok tt;
  savepoint = λ n t. (ok tt, t);
  release = λ n t. (ok tt, t);
  rollback_to = λ n t. (ok tt, t);
}

ok-calm : {A : Type 0} (a : A) → ok a ≢ panic
ok-calm a e = ground arith

abbrev failed : Error → Outcome (Unit {0})
failed e = err e

err-calm : (e : Error) → failed e ≢ panic
err-calm e h = ground arith

ok-err : (v : ℕ) (e : Error) → ok v ≢ err e
ok-err v e h = ground arith

abbrev calm : IsCalm table
calm = record {
  begin_calm = λ v. ok-calm v;
  begin_code = λ v e h. absurd (ok-err v e h);
  sync_calm = λ t. ok-calm tt;
  savepoint_calm = λ n t. ok-calm tt;
  release_calm = λ n t. ok-calm tt;
  rollback_to_calm = λ n t. ok-calm tt;
  commit_calm = λ t. err-calm (sqlite 5 none);
  rollback_calm = λ t. ok-calm tt;
}

abbrev show_error : Error → Text
show_error e = text "error"

abbrev to_c : Text → Outcome (Option Text)
to_c s = ok (some s)

abbrev handle : Handle ℕ ℕ
handle = record { z_err_msg = some none; vtab = 7; txn = none }

abbrev begun : Handle ℕ ℕ
begun = record { z_err_msg = some none; vtab = 7; txn = some 7 }

begun-reached : Reaches show_error to_c table true begun
unfolding vtab_begin
begun-reached = opened handle (connected 7 none) refl

reaches-answered_example :
    ((rc : ℕ) × ((use_txn show_error to_c table sync begun).0 ≡ ok rc))
    × ((rc : ℕ) × ((end_with show_error to_c table commit begun).0 ≡ ok rc)
        × ((end_with show_error to_c table commit begun).1.txn ≡ none))
reaches-answered_example =
    reaches-answered show_error to_c table begun sync commit (λ s. ok-calm (some s)) calm
      begun-reached
