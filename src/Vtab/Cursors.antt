-- ===== src/Vtab/Cursors.antt =====
-- src/vtab/stubs.rs: the callbacks on cursors, and those by which a table is planned, updated,
-- renamed and let go. `A` stands for the arguments that SQLite passes.
pub mod Answers
use sqlite3_ext.Prelude.{
  ℕ, List, ◌==◌, if◌then◌else◌, Option, none, some, Bool, true, false, Outcome, ok, err, panic,
  Error, Method, Text,
}
use sqlite3_ext.Prelude.Int.{ℤ}
use sqlite3_ext.IndexInfo.{IndexInfo}
use sqlite3_ext.Types.{Slot, handle_result}
use sqlite3_ext.Types.Codes.{sqlite_ok}

-- The trait VTabCursor. `column` says what it does to the result of its context as well.
pub record VtabCursor (C A R : Type 0) : Type 0 where
  pub filter : ℤ → Option Text → List A → Method C (Unit {0})
  pub next : Method C (Unit {0})
  pub eof : Method C Bool
  pub column : ℕ → R → C → Outcome (Unit {0}) × C × R
  pub rowid : Method C ℤ

-- The methods of the traits VTab, CreateVTab, UpdateVTab and RenameVTab that the callbacks call.
-- `disconnect` and `destroy` succeed with `none`, or give the table back with an error.
pub record VtabTable (V C A : Type 0) : Type 0 where
  pub best_index : V → Method IndexInfo (Unit {0})
  pub open_cursor : V → Outcome C
  pub disconnect : V → Option (V × Error)
  pub destroy : V → Option (V × Error)
  pub update : List A → Method V ℤ
  pub rename : Text → Method V (Unit {0})

-- `VTabCursorHandle`, with `zErrMsg` of its table; `VTabHandle` without its transaction.
pub record CursorHandle (C : Type 0) : Type 0 where
  pub z_err_msg : Slot
  pub cursor : C

pub record TableHandle (V : Type 0) : Type 0 where
  pub z_err_msg : Slot
  pub vtab : V

abbrev pub nothing : {B : Type 0} → Outcome B → Outcome (Unit {0})
nothing (ok b) = ok tt
nothing (err e) = err e
nothing panic = panic

-- The index string, where a null pointer and one that is not UTF-8 give none.
abbrev pub index_string : (Text → Option Text) → Option Text → Option Text
index_string to_str none = none
index_string to_str (some s) = to_str s

-- `to_str` is std's check for UTF-8, `set_result` puts an error in the place of the result.
module _ (show_error : Error → Text) (to_c : Text → Outcome (Option Text))
    (to_str : Text → Option Text) where
  abbrev pub cursor_answer : {C : Type 0} → Outcome (Unit {0}) → Method (CursorHandle C) ℕ
  cursor_answer r h = elim (handle_result show_error to_c r h.z_err_msg) [
    | ok (rc, msg) ↦ (ok rc, record h { z_err_msg = msg })
    | err e ↦ (err e, h)
    | panic ↦ (panic, h)
  ]

  abbrev pub table_answer : {V : Type 0} → Outcome (Unit {0}) → Method (TableHandle V) ℕ
  table_answer r h = elim (handle_result show_error to_c r h.z_err_msg) [
    | ok (rc, msg) ↦ (ok rc, record h { z_err_msg = msg })
    | err e ↦ (err e, h)
    | panic ↦ (panic, h)
  ]

  module _ {C A R : Type 0} (imp : VtabCursor C A R) where
    unfoldable pub vtab_filter : ℤ → Option Text → List A → Method (CursorHandle C) ℕ
    vtab_filter index_num index_str args h =
        let (r, c) = imp.filter index_num (index_string to_str index_str) args h.cursor in
        cursor_answer r (record h { cursor = c })

    unfoldable pub vtab_next : Method (CursorHandle C) ℕ
    vtab_next h = let (r, c) = imp.next h.cursor in cursor_answer r (record h { cursor = c })

    unfoldable pub vtab_eof : Method (CursorHandle C) Bool
    vtab_eof h = let (r, c) = imp.eof h.cursor in (r, record h { cursor = c })

    -- The answer is SQLITE_OK also when the method fails: the error is the result then, and
    -- failing to set it panics.
    unfoldable pub vtab_column :
        (Error → R → Outcome R) → ℕ → R → CursorHandle C → Outcome ℕ × CursorHandle C × R
    vtab_column set_result i ctx h =
        let (r, c, ctx') = imp.column i ctx h.cursor in
        let h' = record h { cursor = c } in
        elim r [
          | ok _ ↦ (ok sqlite_ok, h', ctx')
          | err e ↦ elim (set_result e ctx') [
            | ok ctx'' ↦ (ok sqlite_ok, h', ctx'')
            | err e' ↦ (panic, h', ctx')
            | panic ↦ (panic, h', ctx')
          ]
          | panic ↦ (panic, h', ctx')
        ]

    -- The rowid is written only on success.
    unfoldable pub vtab_rowid : ℤ → CursorHandle C → Outcome ℕ × CursorHandle C × ℤ
    vtab_rowid old h =
        let (r, c) = imp.rowid h.cursor in
        let (code, h') = cursor_answer (nothing r) (record h { cursor = c }) in
        (code, h', elim r [ ok x ↦ x | _ ↦ old ])

  module _ {V C A : Type 0} (imp : VtabTable V C A) where
    unfoldable pub vtab_best_index :
        IndexInfo → TableHandle V → Outcome ℕ × TableHandle V × IndexInfo
    vtab_best_index info h =
        let (r, info') = imp.best_index h.vtab info in
        let (code, h') = table_answer r h in (code, h', info')

    -- `*p_cursor` is set only on success.
    unfoldable pub vtab_open : TableHandle V → Outcome ℕ × TableHandle V × Option C
    vtab_open h =
        let r = imp.open_cursor h.vtab in
        let (code, h') = table_answer (nothing r) h in
        (code, h', elim r [ ok c ↦ some c | _ ↦ none ])

    -- The handle is freed, or goes on with the table that the error brought back.
    abbrev pub let_go : Option (V × Error) → TableHandle V → Outcome ℕ × Option (TableHandle V)
    let_go none h = (ok sqlite_ok, none)
    let_go (some (v, e)) h =
        let (code, h') = table_answer (err e) (record h { vtab = v }) in (code, some h')

    unfoldable pub vtab_disconnect : TableHandle V → Outcome ℕ × Option (TableHandle V)
    vtab_disconnect h = let_go (imp.disconnect h.vtab) h

    unfoldable pub vtab_destroy : TableHandle V → Outcome ℕ × Option (TableHandle V)
    vtab_destroy h = let_go (imp.destroy h.vtab) h

    unfoldable pub vtab_update : List A → ℤ → TableHandle V → Outcome ℕ × TableHandle V × ℤ
    vtab_update args old h =
        let (r, v) = imp.update args h.vtab in
        let (code, h') = table_answer (nothing r) (record h { vtab = v }) in
        (code, h', elim r [ ok x ↦ x | _ ↦ old ])

    unfoldable pub vtab_rename : Error → Text → Method (TableHandle V) ℕ
    vtab_rename utf8 name h = elim (to_str name) [
      | some s ↦ let (r, v) = imp.rename s h.vtab in table_answer r (record h { vtab = v })
      | none ↦ table_answer (err utf8) h
    ]
