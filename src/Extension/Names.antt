-- ===== src/Extension/Names.antt =====
-- That sqlite3_ext_main exports the name by which SQLite looks for the entry point of a library.
use sqlite3_ext.Prelude.{
  ℕ, ◌+◌, ◌<◌, ◌≡◌, ◌≢◌, refl, sym, ap, ◌∙◌, arith, Bool, false, ◌&&◌, ◌||◌, [], ◌∷◌, ◌++◌, map,
  leb, ◌==◌, if◌then◌else◌, All, Text, text, text_eq, take, drop, length, length-append,
}
use sqlite3_ext.Extension.{is_lower, filter, init_ident, main_export}

-- What SQLite documents of the name "sqlite3_X_init" that it tries for a file: X are the ASCII
-- letters, in lower case, of the name from the last "/" to the first "." behind it, where a "lib"
-- at its beginning is left out.
abbrev pub has : ℕ → Text → Bool
has c [] = false
has c (x ∷ s) = (x == c) || has c s

unfoldable pub base_name : Text → Text
base_name [] = []
base_name (c ∷ s) = let rest = base_name s in if has b'/' (c ∷ s) then rest else c ∷ s

unfoldable pub until_dot : Text → Text
until_dot [] = []
until_dot (c ∷ s) = let rest = until_dot s in if c == b'.' then [] else c ∷ rest

abbrev omit_lib : Text → Text
omit_lib s = if text_eq (take 3 s) (text "lib") then drop 3 s else s

abbrev is_upper : ℕ → Bool
is_upper c = leb b'A' c && leb c b'Z'

abbrev pub lower : ℕ → ℕ
lower c = if is_upper c then c + 32 else c

-- The letters, in lower case.
abbrev letters : Text → Text
letters [] = []
letters (c ∷ s) =
    let rest = letters s in
    if is_upper c then (c + 32) ∷ rest else if leb b'a' c && leb c b'z' then c ∷ rest else rest

-- "sqlite3_X_init" for X.
abbrev documented_name : Text → Text
documented_name x = text "sqlite3_" ++ (x ++ text "_init")

unfoldable pub entry_point : Text → Text
entry_point file = documented_name (letters (omit_lib (until_dot (base_name file))))

-- What std documents of `str::to_lowercase`, for ASCII.
abbrev pub IsAscii : Text → Type 0
IsAscii s = All (λ c. c < 128) s

pub record LowersAscii (to_lowercase : Text → Text) : Type 0 where
  pub ascii : (s : Text) → IsAscii s → to_lowercase s ≡ map lower s

-- The names of crates and the endings of files have no "/", and names no "." either.
has-append : (c : ℕ) (s t : Text) → has c (s ++ t) ≡ (has c s || has c t)
has-append c [] t = refl
has-append c (x ∷ s) t = ground (arith, has-append c s t)

base_name-none : (t : Text) → has b'/' t ≡ false → base_name t ≡ t
unfolding base_name
base_name-none [] h = refl
base_name-none (c ∷ t) h = ground arith

base_name-slash : (dir t : Text) → has b'/' t ≡ false → base_name (dir ++ b'/' ∷ t) ≡ t
unfolding base_name
base_name-slash [] t h = base_name-none t h
base_name-slash (c ∷ dir) t h =
    ground (arith, has-append b'/' dir (b'/' ∷ t), base_name-slash dir t h)

until_dot-append : (n e : Text) → has b'.' n ≡ false → until_dot (n ++ b'.' ∷ e) ≡ n
unfolding until_dot
until_dot-append [] e h = refl
until_dot-append (c ∷ n) e h = ground (arith, until_dot-append n e)

letters-lower : (s : Text) → letters s ≡ filter is_lower (map lower s)
letters-lower [] = refl
letters-lower (c ∷ s) = ground (arith, letters-lower s)

longer : (s : Text) → init_ident (letters s) ≢ init_ident (letters (text "lib" ++ s))
longer s e = absurd (omega (arith, ap (length {A = ℕ}) e, length-append (letters s) (text "_init")))

-- The parts of the path of a library: its folder, the name of its crate, and its ending.
module _ (to_lowercase : Text → Text) (std : LowersAscii to_lowercase) (dir name ending : Text)
    (ascii : IsAscii name) (no_slash : has b'/' name ≡ false) (no_dot : has b'.' name ≡ false)
    (plain : has b'/' ending ≡ false) where
  abbrev library : Text → Text
  library base = dir ++ b'/' ∷ (base ++ b'.' ∷ ending)

  entry_point-library :
      (base : Text)
      → has b'/' base ≡ false
      → has b'.' base ≡ false
      → entry_point (library base) ≡ documented_name (letters (omit_lib base))
  unfolding entry_point
  entry_point-library base h k =
      rw
        (
          base_name-slash dir (base ++ b'.' ∷ ending)
              (ground (arith, has-append b'/' base (b'.' ∷ ending))),
          until_dot-append base ending k,
        )
        refl

  main_export-letters : main_export to_lowercase name ≡ init_ident (letters name)
  unfolding main_export
  main_export-letters = rw (letters-lower name, std.ascii name ascii) refl

  -- SQLite finds the entry point that sqlite3_ext_main exports, in the library of a crate with an
  -- ASCII name: where the file is named lib, the name of the crate, a dot and an ending, in any
  -- folder.
  pub entry_point-main_export :
      entry_point (library (text "lib" ++ name)) ≡ main_export to_lowercase name
  entry_point-main_export =
      entry_point-library (text "lib" ++ name) no_slash no_dot ∙ sym main_export-letters

  -- Where a library is named without that lib and its crate begins with lib, SQLite looks for
  -- another name than the one that is exported.
  entry_point-lib :
      (rest : Text)
      → name ≡ text "lib" ++ rest
      → entry_point (library name) ≢ main_export to_lowercase name
  entry_point-lib rest e same = longer rest (
      ap (λ n. init_ident (letters (omit_lib n))) (sym e)
      ∙ sym (entry_point-library name no_slash no_dot)
      ∙ same
      ∙ main_export-letters
      ∙ ap (λ n. init_ident (letters n)) e)
