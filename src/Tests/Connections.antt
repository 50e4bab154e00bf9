-- ===== src/Tests/Connections.antt =====
-- A connection on which the loading of extensions is off or on.
use sqlite3_ext.Prelude.{
  ℕ, ◌+◌, ◌≡◌, refl, true, false, ok, err, panic, Option, none, some, Text, text, sqlite, arith,
  if◌then◌else◌, ◌==◌,
}
use sqlite3_ext.Connection.{LoadApi, Entry, load_extension, OpenApi, has_nul, close, drop_database}
use sqlite3_ext.Connection.Loading.{IsGuarded, modern_build, load_extension-off}
use sqlite3_ext.Connection.Opening.{close-drop_database}

-- The option, and how many extensions were loaded.
abbrev Db : Type 0
Db = ℕ × ℕ

abbrev load : Text → Entry → Db → ℕ × Option Text × Db
load path entry (enabled, n) =
    if enabled == 0 then (1, none, (enabled, n)) else (0, none, (enabled, n + 1))

abbrev api : LoadApi Db
api = record {
  ask_enabled = λ d. (0, d.0);
  set_enabled = λ v d. (ok 0, (v, d.1));
  load = load;
  set_defensive = λ v d. (0, d);
  errmsg = λ d. text "not authorized";
  to_str = some;
}

refuses :
    (path : Text) (entry : Entry) (d : Db)
    → d.0 ≡ 0
    → (message : Option Text) × (load path entry d ≡ (1, message, d))
refuses path entry d e = (none, ground arith)

abbrev guarded : IsGuarded api
guarded = record {
  asks = λ d. refl;
  sets = λ v d h. refl;
  remembers = λ v d h. refl;
  refuses = refuses;
}

load_extension-off_example :
    (message : Option Text) × (load_extension
        (modern_build 3040000 api)
        api
        (text "x")
        (some (text "init"))
        (0, 0)
      ≡ (err (sqlite 1 message), (0, 0)))
unfolding has_nul
load_extension-off_example =
    load_extension-off 3040000 api (text "x") (some (text "init")) (0, 0) guarded (omega arith) refl
      refl refl

-- A database that is busy is 5, and cannot be closed.
abbrev open_api : OpenApi ℕ
open_api = record {
  open_v2 = λ path flags. (14, some flags);
  close = λ db. if db == 5 then 5 else 0;
}

close-drop_database_example :
    (close open_api (some 5) ≡ (err (sqlite 5 none), some (some 5)))
    × (drop_database open_api true (some 5) ≡ (ok tt, some 5))
    × (drop_database open_api false (some 5) ≡ (panic, some 5))
close-drop_database_example = close-drop_database open_api (some 5) 5 refl
