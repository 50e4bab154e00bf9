-- ===== src/Extension/Entry.antt =====
-- What the entry point of an extension answers SQLite.
use sqlite3_ext.Prelude.{
  ℕ, ◌≡◌, ◌≢◌, refl, Bool, true, false, Option, some, Outcome, ok, err, panic, Error, Method, Text,
  List, none, if◌then◌else◌, ◌==◌, ◌&&◌, not, Bool-cases, inl, inr,
}
use sqlite3_ext.Version.{Build, supports, match_version}
use sqlite3_ext.Ffi.Strings.{copy, IsReadable, copy-placed}
use sqlite3_ext.Types.{handle_error, Slot}
use sqlite3_ext.Types.Conversion.{code_of, into_sqlite-code}
use sqlite3_ext.Extension.{
  Api, load_result, init_api_routines, c_entry, statically_linked, sqlite_ok_load_permanently,
  answer,
}

-- Whether the extension is linked to another SQLite than the one that loads it.
abbrev pub is_foreign : Bool → ℕ → ℕ → Bool
is_foreign static_link linked loader = static_link && not (loader == linked)

-- What SQLite is to see: SQLITE_ERROR of a foreign extension, else the code of what init returns,
-- where success asks for the extension to stay if it is persistent and SQLite can keep it.
abbrev pub entry_code : Bool → Bool → Outcome (Unit {0}) → ℕ
entry_code foreign stays r = if foreign then 1 else elim r [
  | ok _ ↦ if stays then sqlite_ok_load_permanently else 0
  | err e ↦ code_of e
  | panic ↦ 0
]

load_result-supports :
    (b : Build) (p : Bool)
    → load_result b p ≡ (if p && supports b 3014000 then sqlite_ok_load_permanently else 0)
unfolding load_result match_version
load_result-supports b true = refl
load_result-supports b false = refl

module _ {S : Type 0} (show_error : Error → Text) (malloc : ℕ → Bool) (memory : Text → List ℕ)
    (readable : (s : Text) → IsReadable memory s) (b : Build) (is_persistent : Bool)
    (init : Method S (Unit {0})) where
  abbrev to_c : Text → Outcome (Option Text)
  to_c s = copy malloc memory s

  calm : (s : Text) → to_c s ≢ panic
  calm s = (copy-placed malloc memory s none (readable s)).0

  abbrev Answers : ℕ → S → Api → Outcome (ℕ × Slot) × S × Api → Type 0
  Answers code db api r =
      (msg : Option Text) × (r.0 ≡ ok (code, some msg)) × (r.1 ≡ db) × (r.2 ≡ api)

  answered :
      (r : Outcome (Unit {0})) (old : Option Text)
      → r ≢ panic
      → (p : Option Text) × (answer show_error to_c b is_persistent init r (some old)
          ≡ ok (entry_code false (is_persistent && supports b 3014000) r, some p))
  unfolding handle_error
  answered (ok _) old h = (old, rw (load_result-supports b is_persistent) refl)
  answered (err e) old h = into_sqlite-code show_error to_c e old calm
  answered panic old h = absurd (h refl)

  -- The entry point, called by the SQLite that loads it, answers SQLITE_ERROR and leaves the
  -- database as it is where the extension is linked to another SQLite. Else it runs init, which does
  -- not panic, and answers its success by SQLITE_OK, or SQLITE_OK_LOAD_PERMANENTLY for a persistent
  -- extension from 3.14.0 on, and its error by the error's code, also when there is no memory for
  -- the message. The place for the message stays one, and a loaded build keeps the pointer to the
  -- functions of SQLite. It is asked that the byte behind each message can be read, as
  -- str_to_sqlite3 does.
  pub c_entry-code :
      (static_link : Bool) (linked loader : ℕ) (msg : Option Text) (db : S) (current : Api)
      → (init db).0 ≢ panic
      → Answers
          (entry_code
            (is_foreign static_link linked loader)
            (is_persistent && supports b 3014000)
            (init db).0)
          (if is_foreign static_link linked loader then db else (init db).1)
          (if static_link then current else some (some loader))
          (c_entry show_error
            (copy malloc memory)
            b
            is_persistent
            init
            static_link
            linked
            (some (some loader))
            (some msg)
            (db, current))
  unfolding c_entry init_api_routines handle_error
  c_entry-code false l k msg db current h =
      let (p, e) = answered (init db).0 msg h in (p, e, refl, refl)
  c_entry-code true l k msg db current h = elim (Bool-cases (k == l)) [
    | inl same ↦
        let (p, e) = answered (init db).0 msg h in
        (p, rw (c_entry, same) e, rw (c_entry, same) refl, rw (c_entry, same) refl)
    | inr other ↦
        let (p, e) = into_sqlite-code show_error to_c statically_linked msg calm in
        (p, rw (c_entry, other) e, rw (c_entry, other) refl, rw (c_entry, other) refl)
  ]
