-- ===== src/Tests/Extensions.antt =====
-- An extension in the library libgenerate_series.so, its entry point and its registration.
use sqlite3_ext.Prelude.{
  ℕ, ◌+◌, ◌≡◌, refl, arith, Bool, true, false, not, ◌&&◌, ◌||◌, List, [], ◌∷◌, ◌++◌, map, some,
  none, Option, ok, err, if◌then◌else◌, ◌==◌, Text, text, Method,
}
use sqlite3_ext.Version.{Build}
use sqlite3_ext.Ffi.Strings.{copy}
use sqlite3_ext.Types.Codes.{sqlite_constraint}
use sqlite3_ext.Extension.{main_export, c_entry, AutoApi}
use sqlite3_ext.Extension.Names.{lower, entry_point, LowersAscii, entry_point-main_export}
use sqlite3_ext.Extension.Entry.{c_entry-code}
use sqlite3_ext.Extension.Automatic.{KeepsList}

abbrev lowercase : Text → Text
lowercase s = map lower s

lowercase-LowersAscii : LowersAscii lowercase
lowercase-LowersAscii = record { ascii = λ s h. refl }

entry_point-main_export_example :
    entry_point
      (text "/usr/lib" ++ b'/' ∷ (text "lib" ++ text "generate_series" ++ b'.' ∷ text "so.1"))
    ≡ main_export lowercase (text "generate_series")
entry_point-main_export_example =
    entry_point-main_export lowercase lowercase-LowersAscii (text "/usr/lib")
      (text "generate_series") (text "so.1") (omega arith) refl refl refl

-- A nul is behind each text, and there is memory for every copy.
abbrev memory : Text → List ℕ
memory s = s ++ 0 ∷ []

-- An init that counts and fails.
abbrev failing : Method ℕ (Unit {0})
failing n = (err sqlite_constraint, n + 1)

abbrev build : Build
build = record { modern = true; version = 3038005 }

c_entry-code_example :
    (msg : Option Text) × ((c_entry
        (λ e. text "error")
        (copy (λ n. true) memory)
        build
        true
        failing
        false
        7
        (some (some 9))
        (some none)
        (4, none)).0
      ≡ ok (19, some msg))
    × ((c_entry
          (λ e. text "error")
          (copy (λ n. true) memory)
          build
          true
          failing
          false
          7
          (some (some 9))
          (some none)
          (4, none)).1
        ≡ 5)
    × ((c_entry
          (λ e. text "error")
          (copy (λ n. true) memory)
          build
          true
          failing
          false
          7
          (some (some 9))
          (some none)
          (4, none)).2
        ≡ some (some 9))
c_entry-code_example =
    c_entry-code (λ e. text "error") (λ n. true) memory (λ s. (0, [], refl)) build true failing
      false 7 9 none 4 none (λ h. cc h)

abbrev auto_api : AutoApi (ℕ → Bool) ℕ
auto_api = record {
  auto_extension = λ e s. (0, λ f. f == e || s f);
  reset_auto_extension = λ s f. false;
  cancel_auto_extension = λ e s. (if s e then 1 else 0, λ f. not (f == e) && s f);
}

auto_api-KeepsList : KeepsList auto_api (λ s f. s f)
auto_api-KeepsList = record {
  adds = λ e s f. refl;
  cancels = λ e s. refl;
  removes = λ e s f. refl;
  empties = λ s f. refl;
}
