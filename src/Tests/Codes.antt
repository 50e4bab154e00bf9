-- ===== src/Tests/Codes.antt =====
-- Versions, result codes and messages.
use sqlite3_ext.Prelude.{ℕ, List, [], ◌∷◌, ◌++◌, ◌≡◌, refl, true, ok, none, some, Text, text, Error}
use sqlite3_ext.Ffi.Strings.{copy}
use sqlite3_ext.Types.{from_sqlite_desc, handle_result}
use sqlite3_ext.Types.Conversion.{handle_result-from_sqlite_desc}

abbrev show_error : Error → Text
show_error e = text "error"

-- A nul is behind each text.
abbrev memory : Text → List ℕ
memory s = s ++ 0 ∷ []

handle_result-from_sqlite_desc_example :
    handle_result show_error
      (copy (λ n. true) memory)
      (from_sqlite_desc some 5 (text "busy"))
      (some none)
    ≡ ok (5, some (some (text "busy" ++ 0 ∷ [])))
handle_result-from_sqlite_desc_example =
    handle_result-from_sqlite_desc show_error (λ n. true) memory some 5 (text "busy") none
      (λ s. (0, [], refl))
