-- ===== src/Vtab/Cursors/Answers.antt =====
-- How the callbacks on a cursor answer.
use sqlite3_ext.Prelude.{
  ℕ, ◌≡◌, ◌≢◌, refl, List, Option, some, Outcome, ok, err, panic, Error, Text, arith, Outcome-cases,
  inl, inr,
}
use sqlite3_ext.Prelude.Int.{ℤ}
use sqlite3_ext.Types.Conversion.{result_code, handle_result-code}
use sqlite3_ext.Vtab.Cursors.{
  VtabCursor, CursorHandle, nothing, cursor_answer, index_string, vtab_filter, vtab_next,
  vtab_rowid, vtab_column,
}

module _ {C A R : Type 0} (show_error : Error → Text) (to_c : Text → Outcome (Option Text))
    (to_str : Text → Option Text) (imp : VtabCursor C A R) where
  -- A handle with a cursor and a place for messages, and what it is after an answer.
  abbrev pub cursor_handle : C → Option Text → CursorHandle C
  cursor_handle c p = record { z_err_msg = some p; cursor = c }

  answered :
      (r : Outcome (Unit {0})) (c : C) (p : Option Text)
      → ((s : Text) → to_c s ≢ panic)
      → r ≢ panic
      → (q : Option Text) × (cursor_answer show_error to_c to_str r (cursor_handle c p)
          ≡ (ok (result_code show_error to_c r), cursor_handle c q))
  answered r c p calm k =
      let (q, e) = handle_result-code show_error to_c r p calm k in (q, rw (cursor_answer, e) refl)

  nothing-calm : {B : Type 0} (r : Outcome B) → r ≢ panic → nothing r ≢ panic
  nothing-calm (ok b) h = λ e. ground arith
  nothing-calm (err x) h = λ e. ground arith
  nothing-calm panic h = absurd (h refl)

  column-answered :
      (set_result : Error → R → Outcome R) (put : Error → R → R) (i : ℕ) (ctx : R) (c : C)
      (p : Option Text)
      → ((e : Error) (x : R) → set_result e x ≡ ok (put e x))
      → (imp.column i ctx c).0 ≢ panic
      → (vtab_column show_error to_c to_str imp set_result i ctx (cursor_handle c p)).0 ≡ ok 0
  unfolding vtab_column
  column-answered set_result put i ctx c p puts k = elim (Outcome-cases (imp.column i ctx c).0) [
    | inl (b, e) ↦ rw (vtab_column, e) refl
    | inr (inl (x, e)) ↦ rw (vtab_column, e, puts x (imp.column i ctx c).2) refl
    | inr (inr e) ↦ absurd (k e)
  ]

  -- `filter`, `next` and `rowid` are answered by the code of what the implementation returns, and
  -- what it did to the cursor stays, also when it fails. `column` is answered by SQLITE_OK even
  -- then: its error becomes the result. The implementation does not panic, and neither does the
  -- copy of a message or the setting of a result.
  vtab_filter-answer :
      (set_result : Error → R → Outcome R) (put : Error → R → R) (n : ℤ) (s : Option Text)
      (args : List A) (i : ℕ) (ctx : R) (old : ℤ) (c : C) (p : Option Text)
      → ((m : Text) → to_c m ≢ panic)
      → ((e : Error) (x : R) → set_result e x ≡ ok (put e x))
      → (imp.filter n (index_string to_str s) args c).0 ≢ panic
      → (imp.next c).0 ≢ panic
      → (imp.rowid c).0 ≢ panic
      → (imp.column i ctx c).0 ≢ panic
      → let f = imp.filter n (index_string to_str s) args c in
        ((q : Option Text) × (vtab_filter show_error to_c to_str imp n s args (cursor_handle c p)
            ≡ (ok (result_code show_error to_c f.0), cursor_handle f.1 q)))
        × ((q : Option Text) × (vtab_next show_error to_c to_str imp (cursor_handle c p)
              ≡ (ok (result_code show_error to_c (imp.next c).0), cursor_handle (imp.next c).1 q)))
        × ((vtab_rowid show_error to_c to_str imp old (cursor_handle c p)).0
            ≡ ok (result_code show_error to_c (nothing (imp.rowid c).0)))
        × ((vtab_column show_error to_c to_str imp set_result i ctx (cursor_handle c p)).0 ≡ ok 0)
  unfolding vtab_filter vtab_next vtab_rowid vtab_column
  vtab_filter-answer set_result put n s args i ctx old c p calm puts kf kn kr kc =
      let f = imp.filter n (index_string to_str s) args c in
      let (q, e) =
        answered (nothing (imp.rowid c).0) (imp.rowid c).1 p calm
          (nothing-calm (imp.rowid c).0 kr) in
      (
        answered f.0 f.1 p calm kf,
        answered (imp.next c).0 (imp.next c).1 p calm kn,
        rw (vtab_rowid, e) refl,
        column-answered set_result put i ctx c p puts kc,
      )
