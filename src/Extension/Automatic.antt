-- ===== src/Extension/Automatic.antt =====
-- The list of automatic extensions.
use sqlite3_ext.Prelude.{
  ℕ, ◌≡◌, arith, Bool, true, false, not, ◌&&◌, ◌||◌, ok, if◌then◌else◌, ◌==◌, ==_refl, ==_iff,
}
use sqlite3_ext.Version.{Build, supports, match_version}
use sqlite3_ext.Types.{from_sqlite}
use sqlite3_ext.Extension.{AutoApi, register_auto, reset_auto, cancel_auto}

-- What SQLite documents: a successful sqlite3_auto_extension adds an entry point to the list, where
-- it may be already, sqlite3_cancel_auto_extension removes one and answers 1 if it was there and 0
-- if not, and sqlite3_reset_auto_extension removes all. `listed` is whether one is there.
pub record KeepsList {S : Type 0} (api : AutoApi S ℕ) (listed : S → ℕ → Bool) : Type 0 where
  pub adds :
      (e : ℕ) (s : S) (f : ℕ)
      → listed (api.auto_extension e s).1 f
        ≡ ((if (api.auto_extension e s).0 == 0 then f == e else false) || listed s f)
  pub cancels : (e : ℕ) (s : S) → (api.cancel_auto_extension e s).0 ≡ (if listed s e then 1 else 0)
  pub removes :
      (e : ℕ) (s : S) (f : ℕ)
      → listed (api.cancel_auto_extension e s).1 f ≡ (not (f == e) && listed s f)
  pub empties : (s : S) (f : ℕ) → listed (api.reset_auto_extension s) f ≡ false

module _ {S : Type 0} (b : Build) (api : AutoApi S ℕ) where
  module _ (listed : S → ℕ → Bool) (laws : KeepsList api listed)
      (new_enough : supports b 3008007 ≡ true) where
    -- From 3.8.7 on, an extension that is registered with success is on the list; if it was not
    -- before, cancelling it answers that it was, and leaves the list as it was at first.
    cancel_auto-register_auto :
        (e : ℕ) (s : S) (f : ℕ)
        → (api.auto_extension e s).0 ≡ 0
        → listed s e ≡ false
        → ((register_auto b api e s).0 ≡ ok tt)
          × (listed (register_auto b api e s).1 e ≡ true)
          × ((cancel_auto b api e (register_auto b api e s).1).0 ≡ ok true)
          × (listed (cancel_auto b api e (register_auto b api e s).1).1 f ≡ listed s f)
    unfolding register_auto cancel_auto match_version from_sqlite
    cancel_auto-register_auto e s f h k = ground (
      arith,
      new_enough,
      laws.adds e s e,
      laws.adds e s f,
      laws.cancels e (api.auto_extension e s).1,
      laws.removes e (api.auto_extension e s).1 f,
      ==_iff f e,
      ==_refl e,
    )

    -- After reset_auto no extension is on the list, and there is none to cancel.
    cancel_auto-reset_auto :
        (e : ℕ) (s : S) (f : ℕ)
        → (listed (reset_auto b api s).1 f ≡ false)
          × ((cancel_auto b api e (reset_auto b api s).1).0 ≡ ok false)
    unfolding reset_auto cancel_auto match_version
    cancel_auto-reset_auto e s f = ground (
      arith,
      new_enough,
      laws.empties s f,
      laws.empties s e,
      laws.cancels e (api.reset_auto_extension s),
    )
