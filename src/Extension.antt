-- ===== src/Extension.antt =====
-- src/extension.rs, the attributes sqlite3_ext_main and sqlite3_ext_init of sqlite3_ext_macro, and
-- init_api_routines of build.rs: the entry point of an extension, its name, and its registration
-- for the connections that are opened later.
pub mod Names
pub mod Entry
pub mod Automatic
use sqlite3_ext.Prelude.{
  ℕ, Bool, true, false, ◌&&◌, ◌||◌, not, List, [], ◌∷◌, ◌++◌, leb, ◌==◌, if◌then◌else◌, Option,
  none, some, Outcome, ok, err, panic, bind, map_ok, unwrap, Error, module_msg,
  version_not_satisfied, Method, lift, throw, Text, text,
}
use sqlite3_ext.Version.{Build, match_version}
use sqlite3_ext.Types.{from_sqlite, handle_error, Slot}

-- `[a-z]`
abbrev pub is_lower : ℕ → Bool
is_lower c = leb b'a' c && leb c b'z'

abbrev pub filter : (ℕ → Bool) → Text → Text
filter test [] = []
filter test (c ∷ s) = let rest = filter test s in if test c then c ∷ rest else rest

-- `format_ident!("sqlite3_{}_init", ..)`
abbrev pub init_ident : Text → Text
init_ident base = text "sqlite3_" ++ (base ++ text "_init")

-- The export of sqlite3_ext_main, where `to_lowercase` is std's.
unfoldable pub main_export : (Text → Text) → Text → Text
main_export to_lowercase crate_name = init_ident (filter is_lower (to_lowercase crate_name))

pub data ExtAttr : Type 0 where
  export : Text → ExtAttr
  persistent : ExtAttr

-- `for d in directives { .. }`; `none` is the compile error "export specified multiple times".
abbrev directives : List ExtAttr → Option Text → Bool → Option (Option Text × Bool)
directives [] e p = some (e, p)
directives (export value ∷ ds) none p = directives ds (some value) p
directives (export value ∷ ds) (some x) p = none
directives (persistent ∷ ds) e p = directives ds e true

-- What sqlite3_ext_init makes: the name of the entry point, and whether it is persistent. `none` is
-- a compile error, that of two exports or that of a persistent extension with none.
abbrev settled : Text → Option (Option Text × Bool) → Option (Text × Bool)
settled name none = none
settled name (some (some x, p)) = some (x, p)
settled name (some (none, true)) = none
settled name (some (none, false)) = some (name ++ text "_entry", false)

unfoldable pub sqlite3_ext_init : Text → List ExtAttr → Option (Text × Bool)
sqlite3_ext_init name ds = settled name (directives ds none false)

abbrev pub sqlite_ok_load_permanently : ℕ
sqlite_ok_load_permanently = 256

-- `load_result`
unfoldable pub load_result : Build → Bool → ℕ
load_result b true = match_version b ((3014000, sqlite_ok_load_permanently) ∷ []) 0
load_result b false = 0

-- The error of init_api_routines in a static build.
abbrev statically_linked : Error
statically_linked = module_msg (
    text "this extension is statically linked to SQLite and cannot be used as a loadable extension")

-- The pointer to the structure, if it is not null; what is read of it is the address of
-- libversion_number, if it is set. The state is the static `API`.
abbrev pub Api : Type 0
Api = Option (Option ℕ)

abbrev check_static : ℕ → Api → Outcome (Unit {0})
check_static linked none = ok tt
check_static linked (some routine) =
    bind (unwrap routine) λ address. if address == linked then ok tt else err statically_linked

unfoldable pub init_api_routines : Bool → ℕ → Api → Method Api (Unit {0})
init_api_routines true linked api s = (check_static linked api, s)
init_api_routines false linked api s = (ok tt, api)

-- The function that sqlite3_ext_init generates, on the state of the database and `API`.
module _ {S : Type 0} (show_error : Error → Text) (to_c : Text → Outcome (Option Text)) (b : Build)
    (is_persistent : Bool) (init : Method S (Unit {0})) where
  abbrev pub answer : Outcome (Unit {0}) → Slot → Outcome (ℕ × Slot)
  answer (ok _) err_msg = ok (load_result b is_persistent, err_msg)
  answer (err e) err_msg = handle_error show_error to_c e err_msg
  answer panic err_msg = panic

  abbrev run_init : Slot → S × Api → Outcome (ℕ × Slot) × S × Api
  run_init err_msg (db, api) = let (r, db') = init db in (answer r err_msg, db', api)

  abbrev initialised : Outcome (Unit {0}) → Slot → S × Api → Outcome (ℕ × Slot) × S × Api
  initialised (ok _) err_msg s = run_init err_msg s
  initialised (err e) err_msg (db, api) = (handle_error show_error to_c e err_msg, db, api)
  initialised panic err_msg (db, api) = (panic, db, api)

  unfoldable pub c_entry : Bool → ℕ → Api → Slot → S × Api → Outcome (ℕ × Slot) × S × Api
  c_entry static_link linked api err_msg (db, current) =
      let (r, current') = init_api_routines static_link linked api current in
      initialised r err_msg (db, current')

-- The list of automatic extensions of SQLite, by the entry points `E`.
pub record AutoApi (S E : Type 0) : Type 0 where
  pub auto_extension : E → S → ℕ × S
  pub reset_auto_extension : S → S
  pub cancel_auto_extension : E → S → ℕ × S

module _ {S E : Type 0} (b : Build) (api : AutoApi S E) where
  abbrev coded : (ℕ → Outcome (Unit {0})) → ℕ × S → Outcome (Unit {0}) × S
  coded f (rc, s) = (f rc, s)

  abbrev removed : ℕ × S → Outcome Bool × S
  removed (rc, s) = (ok (not (rc == 0)), s)

  -- `sqlite3_require_version!`
  abbrev require : {A : Type 0} → ℕ → Method S A → Method S A
  require v m = match_version b ((v, m) ∷ []) (throw (version_not_satisfied v))

  unfoldable pub register_auto : E → Method S (Unit {0})
  register_auto e = require 3008007 (λ s. coded from_sqlite (api.auto_extension e s))

  unfoldable pub reset_auto : Method S (Unit {0})
  reset_auto =
      match_version b ((3008007, λ s. (ok tt, api.reset_auto_extension s)) ∷ []) (lift (ok tt))

  unfoldable pub cancel_auto : E → Method S Bool
  cancel_auto e = require 3008007 (λ s. removed (api.cancel_auto_extension e s))
