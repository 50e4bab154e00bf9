-- ===== src/Vtab/Modules/Kinds.antt =====
-- What a module of each kind has in the end: how SQLite creates its tables, and a version that
-- covers its callbacks.
use sqlite3_ext.Prelude.{
  ℕ, ◌≤◌, ◌≡◌, Bool, true, false, List, [], ◌∷◌, arith, Option, none, some, ok, Text,
}
use sqlite3_ext.Version.{Build, match_version, require_version}
use sqlite3_ext.Vtab.Modules.{
  Callback, vtab_create, vtab_create_transaction, vtab_connect, vtab_connect_transaction, Module,
  ModuleKind, standard, eponymous, eponymous_only, Extra, transactions, new, standard_new,
  eponymous_new, eponymous_only_new, with_initial_transaction, with_transactions, with_update,
  with_find_function, with_rename, with_extra, build,
}
use sqlite3_ext.Vtab.Modules.Callbacks.{has, normal, build-normal}

-- The version of the structure in which SQLite looks for the callbacks that are set.
abbrev needed : Option Callback → Option Callback → ℕ
needed (some shadow_name) savepoint = 3
needed none (some savepoint) = 2
needed none none = 0

abbrev pub IsCovered : Module → Type 0
IsCovered m = needed m.x_shadow_name m.x_savepoint ≤ m.i_version

with_extra-IsCovered :
    (b : Build) (kind : ModuleKind) (e : Extra) (m : Module)
    → IsCovered m
    → IsCovered (with_extra b kind e m)
unfolding with_extra with_update with_find_function with_rename with_transactions
    with_initial_transaction match_version
with_extra-IsCovered b kind e m h = elim kind [
  | standard ↦ ground arith
  | eponymous ↦ ground arith
  | eponymous_only ↦ ground arith
]

build_from-IsCovered :
    (b : Build) (kind : ModuleKind) (xs : List Extra) (m : Module)
    → IsCovered m
    → IsCovered (build b kind xs m)
unfolding build
build_from-IsCovered b kind [] m h = h
build_from-IsCovered b kind (e ∷ xs) m h =
    build_from-IsCovered b kind xs (with_extra b kind e m) (with_extra-IsCovered b kind e m h)

new-IsCovered :
    (b : Build) (kind : ModuleKind) (names : List Text) {m : Module}
    → new b kind names ≡ ok m
    → IsCovered m
unfolding standard_new eponymous_new eponymous_only_new require_version match_version
new-IsCovered b standard names h = ground arith
new-IsCovered b eponymous names h = ground arith
new-IsCovered b eponymous_only names h = ground arith

-- Whatever is added to a new module, the version that it claims covers the callbacks for
-- savepoints and shadow names that it has.
pub build-IsCovered :
    (b : Build) (kind : ModuleKind) (names : List Text) (xs : List Extra) {m : Module}
    → new b kind names ≡ ok m
    → IsCovered (build b kind xs m)
build-IsCovered b kind names xs h = build_from-IsCovered b kind xs _ (new-IsCovered b kind names h)

-- How SQLite creates and connects a table of each kind, with and without transactions.
abbrev pub creation : ModuleKind → Bool → Option Callback × Option Callback
creation standard false = (some vtab_create, some vtab_connect)
creation standard true = (some vtab_create_transaction, some vtab_connect)
creation eponymous false = (some vtab_connect, some vtab_connect)
creation eponymous true = (some vtab_connect_transaction, some vtab_connect_transaction)
creation eponymous_only t = (none, some vtab_connect)

normal-creation :
    (b : Build) (kind : ModuleKind) (names : List Text) (u t f r : Bool) {m : Module}
    → new b kind names ≡ ok m
    → (let n = normal b kind u t f r m in (n.x_create, n.x_connect)) ≡ creation kind t
unfolding with_update with_find_function with_rename with_transactions with_initial_transaction
    match_version standard_new eponymous_new eponymous_only_new require_version
normal-creation b standard names u t f r h = ground arith
normal-creation b eponymous names u t f r h = ground arith
normal-creation b eponymous_only names u t f r h = ground arith

-- A module built in any way has xCreate and xConnect as its kind asks: two different callbacks for
-- a standard module, the same one for an eponymous module, and no xCreate for an eponymous-only
-- module. With transactions the callbacks are those that begin one, save for eponymous-only.
build-creation :
    (b : Build) (kind : ModuleKind) (names : List Text) (xs : List Extra) {m : Module}
    → new b kind names ≡ ok m
    → (let n = build b kind xs m in (n.x_create, n.x_connect)) ≡ creation kind (has transactions xs)
build-creation b kind names xs {m} h =
    rw (build-normal b kind xs m) (normal-creation b kind names _ _ _ _ h)
