-- ===== src/Vtab/Connecting.antt =====
-- src/vtab/stubs.rs: vtab_connect and vtab_create, which are one macro, and their variants for
-- tables with transactions.
pub mod Failure
use sqlite3_ext.Prelude.{
  ℕ, List, [], ◌∷◌, ◌==◌, if◌then◌else◌, Option, none, some, Outcome, ok, err, panic, bind, map_ok,
  Error, utf8_error, Text,
}
use sqlite3_ext.Types.{Slot, handle_error}
use sqlite3_ext.Types.Codes.{sqlite_ok}
use sqlite3_ext.Vtab.Stubs.{TransactionVtab, Handle, vtab_begin}

-- `.map(|arg| CStr::from_ptr(*arg).to_str()).collect()`
abbrev pub to_strs : (Text → Option Text) → List Text → Option (List Text)
to_strs to_str [] = some []
to_strs to_str (a ∷ args) = elim (to_str a) [
  | none ↦ none
  | some s ↦ elim (to_strs to_str args) [ some ss ↦ some (s ∷ ss) | none ↦ none ]
]

-- The code, what `err_msg` points to, and `*p_vtab` if it is set.
abbrev pub Connected : Type 0 → Type 0 → Type 0
Connected V T = ℕ × Slot × Option (Handle V T)

module _ {V T : Type 0} (show_error : Error → Text) (to_c : Text → Outcome (Option Text))
    (to_str : Text → Option Text) where
  abbrev pub refuse : Error → Slot → Outcome (Connected V T)
  refuse e msg = map_ok (λ (rc, msg'). (rc, msg', none)) (handle_error show_error to_c e msg)

  -- `declare_vtab` is the code of sqlite3_declare_vtab. When it refuses the table there is no message.
  abbrev pub declare : (Text → ℕ) → Text × V → Slot → Outcome (Connected V T)
  declare declare_vtab (sql, vtab) msg =
      let rc = declare_vtab sql in
      if rc == sqlite_ok
      then ok (sqlite_ok, msg, some (record { z_err_msg = some none; vtab = vtab; txn = none }))
      else ok (rc, msg, none)

  -- `func` is `connect` or `create` of the implementation.
  unfoldable pub vtab_connect :
      (List Text → Outcome (Text × V)) → (Text → ℕ) → List Text → Slot → Outcome (Connected V T)
  vtab_connect func declare_vtab argv msg = elim (to_strs to_str argv) [
    | none ↦ refuse utf8_error msg
    | some args ↦ elim (func args) [
      | ok made ↦ declare declare_vtab made msg
      | err e ↦ refuse e msg
      | panic ↦ panic
    ]
  ]

  -- The code of `vtab_begin` on `*p_vtab`.
  abbrev pub begin_on : TransactionVtab V T → Slot → Handle V T → Outcome (Connected V T)
  begin_on imp msg h =
      let (r, h') = vtab_begin show_error to_c imp h in map_ok (λ rc. (rc, msg, some h')) r

  abbrev pub then_begin : TransactionVtab V T → Connected V T → Outcome (Connected V T)
  then_begin imp (rc, msg, none) = if rc == sqlite_ok then panic else ok (rc, msg, none)
  then_begin imp (rc, msg, some h) =
      if rc == sqlite_ok then begin_on imp msg h else ok (rc, msg, some h)

  -- `vtab_connect_transaction` and `vtab_create_transaction`
  unfoldable pub vtab_connect_transaction :
      TransactionVtab V T
      → (List Text → Outcome (Text × V))
      → (Text → ℕ)
      → List Text
      → Slot
      → Outcome (Connected V T)
  vtab_connect_transaction imp func declare_vtab argv msg =
      bind (vtab_connect func declare_vtab argv msg) (then_begin imp)
