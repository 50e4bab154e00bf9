-- ===== src/Globals.antt =====
-- src/globals.rs: the comparison of texts without regard to case.
pub mod Stricmp
use sqlite3_ext.Prelude.{
  ℕ, ◌+◌, ◌&&◌, List, [], ◌∷◌, ltb, leb, if◌then◌else◌, length, Option, none, some, Text,
}
use sqlite3_ext.Prelude.Int.{ℤ, pos, ltb_ℤ}
use sqlite3_ext.Version.{Build, match_version}

-- std's Ordering
pub data Ordering : Type 0 where
  less equal greater : Ordering

abbrev pub cmp : ℕ → ℕ → Ordering
cmp a b = if ltb a b then less else if ltb b a then greater else equal

-- `to_ascii_lowercase`
abbrev pub to_ascii_lowercase : ℕ → ℕ
to_ascii_lowercase c = if leb 65 c && leb c 90 then c + 32 else c

abbrev pub then_with : Ordering → Ordering → Ordering
then_with equal o = o
then_with less o = less
then_with greater o = greater

-- The first pair of bytes that differ decides, then the lengths.
unfoldable pub emulated : Text → Text → Ordering
emulated [] b = cmp 0 (length b)
emulated (x ∷ a) [] = greater
emulated (x ∷ a) (y ∷ b) =
    then_with (cmp (to_ascii_lowercase x) (to_ascii_lowercase y)) (emulated a b)

abbrev pub min : ℕ → ℕ → ℕ
min a b = if leb a b then a else b

abbrev pub sign : ℤ → Ordering
sign rc = if ltb_ℤ rc (pos 0) then less else if ltb_ℤ (pos 0) rc then greater else equal

-- `strnicmp` is SQLite's sqlite3_strnicmp.
unfoldable pub sqlite3_stricmp : Build → (Text → Text → ℕ → ℤ) → Text → Text → Ordering
sqlite3_stricmp b strnicmp x y =
    match_version b ((3006017, sign (strnicmp x y (min (length x) (length y)))) ∷ []) (emulated x y)
