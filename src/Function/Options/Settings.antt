-- ===== src/Function/Options/Settings.antt =====
-- What a chain of settings leaves: the flags of the last call of each kind.
use sqlite3_ext.Prelude.{
  ℕ, ◌+◌, ◌≡◌, refl, Bool, true, false, List, [], ◌∷◌, if◌then◌else◌, Option, none, some, Outcome,
  ok, bind, map_ok, bind-map_ok, map_ok-bind, ◌&&◌, panic, Bool-cases, inl, inr,
}
use sqlite3_ext.Prelude.Int.{ℤ, pos, negsuc, leb_ℤ, ltb_ℤ}
use sqlite3_ext.Function.Options.{
  RiskLevel, innocuous, direct_only, FunctionOptions, Setting, args, deterministic, risk, risk_flag,
  sqlite_deterministic, set_n_args, set_deterministic, set_risk_level, apply, configure,
}

-- What a caller chose, with no bits: the number of arguments, whether the function is
-- deterministic, and its risk level, if any.
pub record Choice : Type 0 where
  pub n_args : ℤ
  pub is_deterministic : Bool
  pub risk_level : Option RiskLevel

abbrev pub initial : Choice
initial = record { n_args = negsuc 0; is_deterministic = false; risk_level = none }

abbrev choose : Bool → Setting → Choice → Outcome Choice
choose modern (args n) c =
    if leb_ℤ (negsuc 0) n && ltb_ℤ n (pos 128) then ok (record c { n_args = n }) else panic
choose modern (deterministic val) c = ok (record c { is_deterministic = val })
choose true (risk level) c = ok (record c { risk_level = some level })
choose false (risk level) c = ok c

abbrev pub choices : Bool → List Setting → Choice → Outcome Choice
choices modern [] c = ok c
choices modern (s ∷ settings) c = bind (choose modern s c) (choices modern settings)

abbrev risk_bits : Option RiskLevel → ℕ
risk_bits none = 0
risk_bits (some level) = risk_flag level

-- The flags: one bit if the function is deterministic, and at most one for the risk.
abbrev pub encode : Choice → FunctionOptions
encode c = record {
  n_args = c.n_args;
  flags = (if c.is_deterministic then sqlite_deterministic else 0) + risk_bits c.risk_level;
}

abbrev choice : ℤ → Bool → Option RiskLevel → Choice
choice n d r = record { n_args = n; is_deterministic = d; risk_level = r }

apply-encode :
    (modern : Bool) (s : Setting) (n : ℤ) (d : Bool) (r : Option RiskLevel)
    → apply modern s (encode (choice n d r)) ≡ map_ok encode (choose modern s (choice n d r))
unfolding apply set_n_args set_deterministic set_risk_level
apply-encode modern (args k) n d r = elim (Bool-cases (leb_ℤ (negsuc 0) k && ltb_ℤ k (pos 128))) [
  | inl e ↦ rw e refl
  | inr e ↦ rw e refl
]
apply-encode modern (deterministic true) n true none = refl
apply-encode modern (deterministic true) n false none = refl
apply-encode modern (deterministic true) n true (some innocuous) = refl
apply-encode modern (deterministic true) n false (some innocuous) = refl
apply-encode modern (deterministic true) n true (some direct_only) = refl
apply-encode modern (deterministic true) n false (some direct_only) = refl
apply-encode modern (deterministic false) n true none = refl
apply-encode modern (deterministic false) n false none = refl
apply-encode modern (deterministic false) n true (some innocuous) = refl
apply-encode modern (deterministic false) n false (some innocuous) = refl
apply-encode modern (deterministic false) n true (some direct_only) = refl
apply-encode modern (deterministic false) n false (some direct_only) = refl
apply-encode false (risk level) n d r = refl
apply-encode true (risk innocuous) n true none = refl
apply-encode true (risk innocuous) n false none = refl
apply-encode true (risk innocuous) n true (some innocuous) = refl
apply-encode true (risk innocuous) n false (some innocuous) = refl
apply-encode true (risk innocuous) n true (some direct_only) = refl
apply-encode true (risk innocuous) n false (some direct_only) = refl
apply-encode true (risk direct_only) n true none = refl
apply-encode true (risk direct_only) n false none = refl
apply-encode true (risk direct_only) n true (some innocuous) = refl
apply-encode true (risk direct_only) n false (some innocuous) = refl
apply-encode true (risk direct_only) n true (some direct_only) = refl
apply-encode true (risk direct_only) n false (some direct_only) = refl

-- Any chain of settings does to the flags what it does to the choices: the last call of each kind
-- counts, at most one risk level is set, and a wrong number of arguments panics.
pub configure-encode :
    (modern : Bool) (settings : List Setting) (c : Choice)
    → configure modern settings (encode c) ≡ map_ok encode (choices modern settings c)
unfolding configure
configure-encode modern [] c = refl
configure-encode modern (s ∷ settings) c =
    let next = choose modern s c in
    rw
      (
        apply-encode modern s c.n_args c.is_deterministic c.risk_level,
        bind-map_ok next encode (configure modern settings)
            (λ c'. map_ok encode (choices modern settings c')) (configure-encode modern settings),
      )
      (map_ok-bind next (choices modern settings) encode)
