-- ===== src/Tests/Modules.antt =====
-- Modules, and the changes that SQLite asks of a table.
use sqlite3_ext.Prelude.{
  ℕ, ◌≡◌, refl, Bool, true, false, List, [], ◌∷◌, Option, none, some, ok, Text,
}
use sqlite3_ext.Version.{Build, supports}
use sqlite3_ext.Vtab.Modules.{standard, Extra, update, transactions, standard_new, build}
use sqlite3_ext.Vtab.Modules.Callbacks.{expected, build-has}
use sqlite3_ext.Vtab.Modules.Kinds.{IsCovered, build-IsCovered}
use sqlite3_ext.Vtab.Changes.{ChangeInfo, rowid, args, change_type, conflict_mode, replace}
use sqlite3_ext.Vtab.Changes.Requests.{
  add, change_info, change_info-meaning, meaning, conflict_mode-code,
}

abbrev modern_build : Build
modern_build = record { modern = true; version = 3038005 }

abbrev names : List Text
names = (100 ∷ []) ∷ []

abbrev repeated : List Extra
repeated = transactions ∷ update ∷ transactions ∷ []

build-has_example :
    build modern_build standard repeated (standard_new modern_build names)
    ≡ expected modern_build standard true true false false (standard_new modern_build names)
build-has_example = build-has modern_build standard repeated (standard_new modern_build names)

build-IsCovered_example :
    IsCovered (build modern_build standard repeated (standard_new modern_build names))
build-IsCovered_example = build-IsCovered modern_build standard names repeated refl

abbrev is_none : Option ℕ → Bool
is_none none = true
is_none (some n) = false

abbrev new_row : ChangeInfo (Option ℕ)
new_row = change_info none (add (some 4) (some 7 ∷ []))

change_info-meaning_example :
    (rowid new_row, args new_row, change_type is_none new_row)
    ≡ meaning none (add (some 4) (some 7 ∷ []))
change_info-meaning_example = change_info-meaning none is_none (add (some 4) (some 7 ∷ [])) refl tt

conflict_mode-code_example : conflict_mode modern_build 5 ≡ ok replace
unfolding supports
conflict_mode-code_example = conflict_mode-code modern_build replace
