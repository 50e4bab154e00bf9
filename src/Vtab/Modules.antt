-- ===== src/Vtab/Modules.antt =====
-- src/vtab/module.rs: the three kinds of modules, and the callbacks that their builders give to
-- SQLite. A callback is named by the function of src/vtab/stubs.rs behind the pointer.
pub mod Callbacks
pub mod Kinds
use sqlite3_ext.Prelude.{
  ℕ, ◌*◌, List, [], ◌∷◌, ltb, leb, length, if◌then◌else◌, Outcome, ok, Option, none, some, Text,
}
use sqlite3_ext.Version.{Build, match_version, require_version}

pub data Callback : Type 0 where
  vtab_create vtab_create_transaction vtab_connect vtab_connect_transaction : Callback
  vtab_best_index vtab_disconnect vtab_destroy vtab_open vtab_close vtab_filter : Callback
  vtab_next vtab_eof vtab_column vtab_rowid vtab_update vtab_begin vtab_sync : Callback
  vtab_commit vtab_rollback vtab_find_function vtab_rename vtab_savepoint : Callback
  vtab_release vtab_rollback_to vtab_shadow_name : Callback

abbrev Fn : Type 0
Fn = Option Callback

-- `ffi::sqlite3_module`
pub record Module : Type 0 where
  pub i_version : ℕ
  pub x_create : Fn
  pub x_connect : Fn
  pub x_best_index : Fn
  pub x_disconnect : Fn
  pub x_destroy : Fn
  pub x_open : Fn
  pub x_close : Fn
  pub x_filter : Fn
  pub x_next : Fn
  pub x_eof : Fn
  pub x_column : Fn
  pub x_rowid : Fn
  pub x_update : Fn
  pub x_begin : Fn
  pub x_sync : Fn
  pub x_commit : Fn
  pub x_rollback : Fn
  pub x_find_function : Fn
  pub x_rename : Fn
  pub x_savepoint : Fn
  pub x_release : Fn
  pub x_rollback_to : Fn
  pub x_shadow_name : Fn

-- `EMPTY_MODULE` with the callbacks that every kind of module has.
abbrev pub base_module : Fn → Fn → Module
base_module create destroy = record {
  i_version = 0;
  x_create = create;
  x_connect = some vtab_connect;
  x_best_index = some vtab_best_index;
  x_disconnect = some vtab_disconnect;
  x_destroy = destroy;
  x_open = some vtab_open;
  x_close = some vtab_close;
  x_filter = some vtab_filter;
  x_next = some vtab_next;
  x_eof = some vtab_eof;
  x_column = some vtab_column;
  x_rowid = some vtab_rowid;
  x_update = none;
  x_begin = none;
  x_sync = none;
  x_commit = none;
  x_rollback = none;
  x_find_function = none;
  x_rename = none;
  x_savepoint = none;
  x_release = none;
  x_rollback_to = none;
  x_shadow_name = none;
}

-- `std::cmp::max`
abbrev pub max : ℕ → ℕ → ℕ
max a b = if leb a b then b else a

abbrev pub set_version : ℕ → Module → Module
set_version val m = record m { i_version = max m.i_version val }

pub data ModuleKind : Type 0 where
  standard eponymous eponymous_only : ModuleKind

-- The calls that add something to a module.
pub data Extra : Type 0 where
  update transactions find_function rename : Extra

module _ (b : Build) where
  -- `StandardModule::new`, where the table has these shadow names.
  unfoldable pub standard_new : List Text → Module
  standard_new shadow_names =
      let ret : Module = base_module (some vtab_create) (some vtab_destroy) in
      match_version b
        ((
          3026000,
          if ltb 0 (length shadow_names)
              then record (set_version 3 ret) { x_shadow_name = some vtab_shadow_name }
              else ret,
        )
          ∷ [])
        ret

  -- `EponymousModule::new`
  unfoldable pub eponymous_new : Module
  eponymous_new = base_module (some vtab_connect) (some vtab_disconnect)

  -- `EponymousOnlyModule::new`
  unfoldable pub eponymous_only_new : Outcome Module
  eponymous_only_new = require_version b 3009000 (ok (base_module none (some vtab_disconnect)))

  abbrev pub new : ModuleKind → List Text → Outcome Module
  new standard names = ok (standard_new names)
  new eponymous names = ok eponymous_new
  new eponymous_only names = eponymous_only_new

  unfoldable pub with_initial_transaction : ModuleKind → Module → Module
  with_initial_transaction standard m = record m { x_create = some vtab_create_transaction }
  with_initial_transaction eponymous m = record m {
    x_connect = some vtab_connect_transaction;
    x_create = some vtab_connect_transaction;
  }
  with_initial_transaction eponymous_only m = m

  abbrev pub with_savepoints : Module → Module
  with_savepoints m = record (set_version 2 m) {
    x_rollback = some vtab_rollback;
    x_savepoint = some vtab_savepoint;
    x_release = some vtab_release;
    x_rollback_to = some vtab_rollback_to;
  }

  unfoldable pub with_transactions : ModuleKind → Module → Module
  unfolding with_initial_transaction
  with_transactions kind m =
      let started : Module = record (with_initial_transaction kind m) {
        x_begin = some vtab_begin;
        x_sync = some vtab_sync;
        x_commit = some vtab_commit;
      } in
      match_version b ((3007007, with_savepoints started) ∷ []) started

  unfoldable pub with_update : Module → Module
  with_update m = record m { x_update = some vtab_update }

  unfoldable pub with_find_function : Module → Module
  with_find_function m = record m { x_find_function = some vtab_find_function }

  unfoldable pub with_rename : Module → Module
  with_rename m = record m { x_rename = some vtab_rename }

  unfoldable pub with_extra : ModuleKind → Extra → Module → Module
  with_extra kind update m = with_update m
  with_extra kind transactions m = with_transactions kind m
  with_extra kind find_function m = with_find_function m
  with_extra kind rename m = with_rename m

  -- The calls in the order in which they are made.
  unfoldable pub build : ModuleKind → List Extra → Module → Module
  build kind [] m = m
  build kind (e ∷ extras) m = build kind extras (with_extra kind e m)
