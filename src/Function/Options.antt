-- ===== src/Function/Options.antt =====
-- src/function/mod.rs: FunctionOptions, the flags by which a function is registered.
pub mod Settings
use Prim.Native.Nat.{bit_and, bit_or}
use sqlite3_ext.Prelude.{
  ℕ, ◌-◌, ◌^◌, Bool, ◌&&◌, List, [], ◌∷◌, if◌then◌else◌, Outcome, ok, panic, bind,
}
use sqlite3_ext.Prelude.Int.{ℤ, pos, negsuc, leb_ℤ, ltb_ℤ}

abbrev pub sqlite_deterministic : ℕ
sqlite_deterministic = 0x800

abbrev pub sqlite_directonly : ℕ
sqlite_directonly = 0x80000

abbrev pub sqlite_innocuous : ℕ
sqlite_innocuous = 0x200000

pub data RiskLevel : Type 0 where
  innocuous direct_only : RiskLevel

-- `flags` holds the 32 bits of the source's i32.
pub record FunctionOptions : Type 0 where
  pub n_args : ℤ
  pub flags : ℕ

-- `!x` of an i32
abbrev complement : ℕ → ℕ
complement x = 2 ^ 32 - 1 - x

abbrev pub default : FunctionOptions
default = record { n_args = negsuc 0; flags = 0 }

unfoldable pub set_n_args : ℤ → FunctionOptions → Outcome FunctionOptions
set_n_args n o =
    if leb_ℤ (negsuc 0) n && ltb_ℤ n (pos 128) then ok (record o { n_args = n }) else panic

unfoldable pub set_deterministic : Bool → FunctionOptions → FunctionOptions
set_deterministic val o = record o {
  flags =
      if val
      then bit_or o.flags sqlite_deterministic
      else bit_and o.flags (complement sqlite_deterministic);
}

abbrev pub risk_flag : RiskLevel → ℕ
risk_flag innocuous = sqlite_innocuous
risk_flag direct_only = sqlite_directonly

abbrev pub other_flag : RiskLevel → ℕ
other_flag innocuous = sqlite_directonly
other_flag direct_only = sqlite_innocuous

-- `modern` is cfg(modern_sqlite).
unfoldable pub set_risk_level : Bool → RiskLevel → FunctionOptions → FunctionOptions
set_risk_level modern level o = record o {
  flags =
      if modern
      then bit_and (bit_or o.flags (risk_flag level)) (complement (other_flag level))
      else o.flags;
}

-- A chain of calls of the three setters.
pub data Setting : Type 0 where
  args : ℤ → Setting
  deterministic : Bool → Setting
  risk : RiskLevel → Setting

unfoldable pub apply : Bool → Setting → FunctionOptions → Outcome FunctionOptions
apply modern (args n) o = set_n_args n o
apply modern (deterministic val) o = ok (set_deterministic val o)
apply modern (risk level) o = ok (set_risk_level modern level o)

unfoldable pub configure : Bool → List Setting → FunctionOptions → Outcome FunctionOptions
configure modern [] o = ok o
configure modern (s ∷ settings) o = bind (apply modern s o) (configure modern settings)
