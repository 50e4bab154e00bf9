-- ===== src/Globals/Stricmp.antt =====
-- Which texts the comparison takes to be equal.
use sqlite3_ext.Prelude.{
  ℕ, ◌≡◌, refl, ◌∙◌, true, false, [], ◌∷◌, ◌++◌, arith, ltb, if◌then◌else◌, length, take,
  length-append, take-append, take-length, sym, Text,
}
use sqlite3_ext.Prelude.Int.{ℤ, pos}
use sqlite3_ext.Version.{Build, match_version, supports}
use sqlite3_ext.Globals.{less, equal, cmp, to_ascii_lowercase, emulated, min, sqlite3_stricmp}

cmp_refl : (a : ℕ) → cmp a a ≡ equal
cmp_refl a = ground arith

emulated-prefix : (a b : Text) → emulated a (a ++ b) ≡ cmp 0 (length b)
unfolding emulated
emulated-prefix [] b = refl
emulated-prefix (x ∷ a) b = rw (cmp_refl (to_ascii_lowercase x)) (emulated-prefix a b)

emulated-less : (a : Text) (c : ℕ) (b : Text) → emulated a (a ++ c ∷ b) ≡ less
emulated-less a c b = emulated-prefix a (c ∷ b) ∙ ground arith

shorter : (a b : Text) → min (length a) (length (a ++ b)) ≡ length a
shorter a b = ground (arith, length-append a b)

-- SQLite compares at most n bytes of each text, and finds texts equal that agree on these.
abbrev pub ComparesBytes : (Text → Text → ℕ → ℤ) → Type 0
ComparesBytes strnicmp = (a b : Text) (n : ℕ) → take n a ≡ take n b → strnicmp a b n ≡ pos 0

-- Where SQLite has the comparison, a text and every text that it is a prefix of count as equal,
-- since only as many bytes are compared as the shorter text has. The emulation for older versions
-- puts the shorter text first.
sqlite3_stricmp-prefix :
    (version : ℕ) (strnicmp : Text → Text → ℕ → ℤ) (a b : Text) (c : ℕ)
    → ComparesBytes strnicmp
    → let modern : Build = record { modern = true; version = version } in
      let old : Build = record { modern = false; version = version } in
      (sqlite3_stricmp modern strnicmp a (a ++ c ∷ b)
        ≡ (if ltb version 3006017 then less else equal))
      × (sqlite3_stricmp old strnicmp a (a ++ c ∷ b) ≡ less)
unfolding sqlite3_stricmp match_version supports
sqlite3_stricmp-prefix version strnicmp a b c h =
    let same = h a (a ++ c ∷ b) (length a) (take-length a ∙ sym (take-append a (c ∷ b))) in
    rw (shorter a (c ∷ b), same, emulated-less a c b) (ground arith, refl)
