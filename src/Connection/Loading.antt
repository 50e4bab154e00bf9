-- ===== src/Connection/Loading.antt =====
-- When an extension can be loaded.
use sqlite3_ext.Prelude.{
  ℕ, ◌≤◌, ◌≡◌, ◌≢◌, refl, Bool, not, true, false, ok, err, Option, none, some, arith, sqlite, Text,
}
use sqlite3_ext.Version.{Build, match_version, supports}
use sqlite3_ext.Types.{from_sqlite}
use sqlite3_ext.Connection.{
  LoadApi, config, guard_new, guard_drop, load_extension, c_string, c_string_opt, has_nul, Entry,
  null_entry, entry_pointer,
}

-- What SQLite documents: setting the option to 0 or 1 works, asking for it gives what was set, and
-- while it is off nothing is loaded.
pub record IsGuarded {Db : Type 0} (api : LoadApi Db) : Type 0 where
  pub asks : (d : Db) → (api.ask_enabled d).0 ≡ 0
  pub sets : (v : ℕ) (d : Db) → v ≤ 1 → (api.set_enabled v d).0 ≡ ok 0
  pub remembers : (v : ℕ) (d : Db) → v ≤ 1 → (api.ask_enabled (api.set_enabled v d).1).1 ≡ v
  pub refuses :
      (path : Text) (entry : Entry) (d : Db)
      → (api.ask_enabled d).1 ≡ 0
      → (message : Option Text) × (api.load path entry d ≡ (1, message, d))

-- The entry point, if one is named, has no nul inside.
abbrev pub is_clean : Option Text → Bool
is_clean none = true
is_clean (some s) = not (has_nul s)

module _ {Db : Type 0} (version : ℕ) (api : LoadApi Db) where
  abbrev pub modern_build : Build
  modern_build = record { modern = true; version = version }

  config-sets :
      (v : ℕ) (d : Db)
      → IsGuarded api
      → v ≤ 1
      → config modern_build api v d ≡ (ok tt, (api.set_enabled v d).1)
  unfolding config from_sqlite
  config-sets v d l h = ground (arith, l.sets v d h)

  guard_new-off :
      (d : Db)
      → IsGuarded api
      → 3013000 ≤ version
      → (api.ask_enabled d).1 ≡ 0
      → guard_new modern_build api d ≡ (ok false, (api.set_enabled 1 d).1)
  unfolding guard_new match_version supports from_sqlite
  guard_new-off d l h z = ground (arith, l.asks d, config-sets 1 d l (omega arith))

  guard_drop-off :
      (d : Db)
      → IsGuarded api
      → 3013000 ≤ version
      → guard_drop modern_build api false d ≡ (ok tt, (api.set_enabled 0 d).1)
  unfolding guard_drop match_version supports
  guard_drop-off d l h = ground (arith, config-sets 0 d l (omega arith))

  guard_new-on :
      (d : Db)
      → IsGuarded api
      → 3013000 ≤ version
      → (api.ask_enabled d).1 ≢ 0
      → guard_new modern_build api d ≡ (ok true, (api.set_enabled 1 d).1)
  unfolding guard_new match_version supports from_sqlite
  guard_new-on d l h z = ground (arith, l.asks d, config-sets 1 d l (omega arith))

  c_string-ok : (s : Text) → has_nul s ≡ false → c_string s ≡ ok s
  unfolding c_string
  c_string-ok s h = rw (c_string, h) refl

  c_string_opt-ok : (e : Option Text) → is_clean e ≡ true → c_string_opt e ≡ ok e
  c_string_opt-ok none h = refl
  c_string_opt-ok (some s) h = rw (c_string-ok s (ground arith)) refl

  -- From version 3.13.0 on, while loading is off, `load_extension` never loads anything, with or
  -- without the name of an entry point: it turns loading on, and off again before it asks SQLite to
  -- load, which refuses with SQLITE_ERROR. Neither string has a nul inside.
  pub load_extension-off :
      (path : Text) (entry : Option Text) (d : Db)
      → IsGuarded api
      → 3013000 ≤ version
      → (api.ask_enabled d).1 ≡ 0
      → has_nul path ≡ false
      → is_clean entry ≡ true
      → (message : Option Text) × (load_extension modern_build api path entry d
          ≡ (err (sqlite 1 message), (api.set_enabled 0 (api.set_enabled 1 d).1).1))
  unfolding load_extension supports
  load_extension-off path entry d l h z p e =
      let d' = (api.set_enabled 0 (api.set_enabled 1 d).1).1 in
      let (message, r) =
        l.refuses path (entry_pointer entry) d'
          (l.remembers 0 (api.set_enabled 1 d).1 (omega arith)) in
      (
        elim message [ some m ↦ api.to_str m | none ↦ none ],
        ground (
          arith,
          guard_new-off d l h z,
          guard_drop-off (api.set_enabled 1 d).1 l h,
          c_string-ok path p,
          c_string_opt-ok entry e,
        ),
      )

  -- While loading is on and no entry point is named, the extension is loaded as SQLite answers, and
  -- loading stays on.
  load_extension-on :
      (path : Text) (d d' : Db)
      → IsGuarded api
      → 3013000 ≤ version
      → (api.ask_enabled d).1 ≢ 0
      → has_nul path ≡ false
      → api.load path null_entry (api.set_enabled 1 d).1 ≡ (0, none, d')
      → load_extension modern_build api path none d ≡ (ok tt, d')
  unfolding load_extension supports guard_drop
  load_extension-on path d d' l h z p r = ground (arith, guard_new-on d l h z, c_string-ok path p)
