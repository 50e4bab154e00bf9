-- ===== src/Value/Passed/Checking.antt =====
-- That a value behind a pointer is read at its own type only.
use mathlib.Core.Path.{subst, subst_refl}
use native.Mathlib.Decide.{ℕ_discrete}
use native.Mathlib.Nat.{ℕ_set}
use sqlite3_ext.Prelude.{
  ℕ, ◌≡◌, ◌≢◌, refl, ap, ◌∙◌, arith, ==_refl, if◌then◌else◌, none, some, Outcome, ok, panic, map_ok,
  ◌⊎◌, inl, inr,
}
use sqlite3_ext.Prelude.Int.{as_i32, ℤ}
use sqlite3_ext.Version.{Build, match_version, supports}
use sqlite3_ext.Value.Passed.{PassedRef, new, get, get_ref, AuxApi, aux_data, set_aux_data}

module _ (Val : ℕ → Type 0) where
  cast_self : (t : ℕ) (v : Val t) (e : t ≡ t) → subst Val e v ≡ v
  cast_self t v e = ap (λ p. subst Val p v) (ℕ_set t t e refl) ∙ subst_refl Val v

  abbrev at_type : (t : ℕ) → Val t → Dec (t ≡ t) → Outcome (Val t)
  at_type t v d = elim d [ yes e ↦ ok (subst Val e v) | no _ ↦ panic ]

  at_type_self : (t : ℕ) (v : Val t) (d : Dec (t ≡ t)) → at_type t v d ≡ ok v
  at_type_self t v (yes e) = ap ok (cast_self t v e)
  at_type_self t v (no n) = absurd (n refl)

  get-new : (t : ℕ) (v : Val t) → get Val t (new Val t v) ≡ ok (some v)
  unfolding get new
  get-new t v = rw (==_refl t) (ap (map_ok some) (at_type_self t v (ℕ_discrete t t)))

  get-new_ne : (t t' : ℕ) (v : Val t) → t ≢ t' → get Val t' (new Val t v) ≡ ok none
  unfolding get new
  get-new_ne t t' v h = ground arith

  -- What was passed at one type is found again at that type, from 3.20.0 on, and not at another:
  -- a value is never read as one of another type.
  pub get_ref-new :
      (b : Build) (t t' : ℕ) (v : Val t)
      → t ≢ t'
      → (get_ref Val b t (some (new Val t v)) ≡ ok (if supports b 3020000 then some v else none))
        × (get_ref Val b t' (some (new Val t v)) ≡ ok none)
  unfolding get_ref match_version
  get_ref-new b t t' v h = (ground (arith, get-new t v), ground (arith, get-new_ne t t' v h))

  -- What SQLite documents for auxiliary data: it may be discarded at any time, also by the call that
  -- sets it, and is else what was set last for the argument.
  pub record KeepsLast {C : Type 0} (api : AuxApi Val C) : Type 0 where
    pub same :
        (i : ℤ) (p : PassedRef Val) (ctx : C)
        → (api.get_auxdata i (api.set_auxdata i p ctx) ≡ none)
          ⊎ (api.get_auxdata i (api.set_auxdata i p ctx) ≡ some p)

  module _ {C : Type 0} (api : AuxApi Val C) (laws : KeepsLast api) where
    -- Auxiliary data that was set for an argument is found again unless SQLite has discarded it, and
    -- is not there for another type.
    pub aux_data-set_aux_data :
        (t t' : ℕ) (idx : ℕ) (v : Val t) (ctx : C)
        → t ≢ t'
        → ((aux_data Val api t idx (set_aux_data Val api t idx v ctx) ≡ ok none)
            ⊎ (aux_data Val api t idx (set_aux_data Val api t idx v ctx) ≡ ok (some v)))
          × (aux_data Val api t' idx (set_aux_data Val api t idx v ctx) ≡ ok none)
    unfolding set_aux_data aux_data
    aux_data-set_aux_data t t' idx v ctx h = elim (laws.same (as_i32 idx) (new Val t v) ctx) [
      | inl e ↦ (inl (rw (aux_data, e) refl), rw (aux_data, e) refl)
      | inr e ↦ (inr (rw (aux_data, e) (get-new t v)), rw (aux_data, e) (get-new_ne t t' v h))
    ]
