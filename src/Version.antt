-- ===== src/Version.antt =====
-- src/ffi/mod.rs: the macros sqlite3_match_version and sqlite3_require_version, by which every
-- call of a newer SQLite function is guarded, and src/globals.rs: how a version is numbered.
pub mod Selection
use sqlite3_ext.Prelude.{
  ℕ, ◌+◌, ◌*◌, Bool, ◌&&◌, List, [], ◌∷◌, leb, if◌then◌else◌, Outcome, err, version_not_satisfied,
}

-- What the guards look at: `cfg(modern_sqlite)`, which build.rs sets, and the number that
-- `sqlite3_libversion_number` returns at run time (`SqliteVersion::as_i32`).
pub record Build : Type 0 where
  pub modern : Bool
  pub version : ℕ

-- The pattern `v..` of one arm, in a build where the arms are compiled.
unfoldable pub supports : Build → ℕ → Bool
supports b v = b.modern && leb v b.version

module _ {ℓ} {A : Type ℓ} where
  -- The arms in the order in which they are written, then the arm `_`.
  unfoldable pub match_version : Build → List (ℕ × A) → A → A
  unfolding supports
  match_version b [] fallback = fallback
  match_version b ((v, a) ∷ arms) fallback =
      if supports b v then a else match_version b arms fallback

unfoldable pub require_version {ℓ} : {A : Type ℓ} → Build → ℕ → Outcome A → Outcome A
unfolding match_version
require_version b v expr = match_version b ((v, expr) ∷ []) (err (version_not_satisfied v))

-- `major * 1000000 + minor * 1000 + patch`
abbrev pub encode_version : ℕ → ℕ → ℕ → ℕ
encode_version major minor patch = major * 1000000 + minor * 1000 + patch
