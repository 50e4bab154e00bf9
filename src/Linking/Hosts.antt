-- ===== src/Linking/Hosts.antt =====
-- An extension that SQLite loads: it calls the members of its sqlite3_api_routines at their places
-- in the structure of the SQLite that loads it, which may be older and shorter.
use Prim.Native.String.{String}
use text.Mathlib.Text.{◌==◌ as str_eq}
use mathlib.Core.Option as Option
use sqlite3_ext.Prelude.{
  ℕ, zero, suc, ◌≤◌, ◌<◌, ◌≡◌, true, inl, inr, ◌⊎◌, refl, arith, List, [], ◌∷◌, ◌++◌, map,
  get_elem?, Option, none, some, All, leb, if◌then◌else◌,
}
use sqlite3_ext.Linking.{Routine, Group, fields}
use sqlite3_ext.Linking.Api.{sqlite3_api_routines}
use sqlite3_ext.Linking.Guards.{Guard, guards, strglob_guard, errstr_display_guard}
use sqlite3_ext.Linking.Declared.{map-All}
use sqlite3_ext.Version.{supports}

-- The members that the structure has in SQLite of version v.
abbrev pub provided : ℕ → List Group → List Routine
provided v [] = []
provided v (g ∷ gs) = let rest = provided v gs in if leb g.since v then g.members ++ rest else []

abbrev pub position : String → List Routine → ℕ
position n [] = zero
position n (r ∷ rs) = if str_eq r.name n then zero else suc (position n rs)

-- The function found at the place of the member n; `none` where the structure has ended, and the
-- call reads past it.
unfoldable pub call : ℕ → String → Option String
call v n =
    Option.map (λ (r : Routine). r.name)
      (get_elem? (provided v sqlite3_api_routines) (position n (fields sqlite3_api_routines)))

Option-cases : {A : Type 0} (o : Option A) → (o ≡ none) ⊎ ((a : A) × (o ≡ some a))
Option-cases none = inl refl
Option-cases (some a) = inr (a, refl)

module _ {A : Type 0} where
  get_elem?-append :
      (xs ys zs : List A) (i : ℕ) (a : A)
      → ((j : ℕ) → get_elem? ys j ≡ some a → get_elem? zs j ≡ some a)
      → get_elem? (xs ++ ys) i ≡ some a
      → get_elem? (xs ++ zs) i ≡ some a
  get_elem?-append [] ys zs i a h e = h i e
  get_elem?-append (x ∷ xs) ys zs zero a h e = e
  get_elem?-append (x ∷ xs) ys zs (suc i) a h e = get_elem?-append xs ys zs i a h e

provided_mono :
    (v w : ℕ) (gs : List Group) (i : ℕ) (r : Routine)
    → v ≤ w
    → get_elem? (provided v gs) i ≡ some r
    → get_elem? (provided w gs) i ≡ some r
provided_mono v w [] i r h e = e
provided_mono v w (g ∷ gs) i r h e = ground (
  arith,
  get_elem?-append g.members (provided v gs) (provided w gs) i r
      (λ j k. provided_mono v w gs j r h k),
)

all_guards :
    map (λ (g : Guard). map (call g.version) g.calls) guards
    ≡ map (λ (g : Guard). map some g.calls) guards
unfolding call sqlite3_api_routines
all_guards = refl

same_calls :
    (gs : List Guard) (i : ℕ) (g : Guard)
    → map (λ (g : Guard). map (call g.version) g.calls) gs
      ≡ map (λ (g : Guard). map some g.calls) gs
    → get_elem? gs i ≡ some g
    → map (call g.version) g.calls ≡ map some g.calls
same_calls [] i g h e = absurd (cc)
same_calls (x ∷ gs) zero g h e = cc
same_calls (x ∷ gs) (suc i) g h e = same_calls gs i g (cc) e

call_mono : (v w : ℕ) (n m : String) → v ≤ w → call v n ≡ some m → call w n ≡ some m
unfolding call
call_mono v w n m h e =
    grind (arith, provided_mono v w sqlite3_api_routines (position n (fields sqlite3_api_routines)))

call_mono-All :
    (v w : ℕ) (ns : List String)
    → v ≤ w
    → All (λ n. call v n ≡ some n) ns
    → All (λ n. call w n ≡ some n) ns
call_mono-All v w [] h k = tt
call_mono-All v w (n ∷ ns) h k = (call_mono v w n n h k.0, call_mono-All v w ns h k.1)

-- A function that the crate calls below a version guard is found at its place in the structure of
-- every SQLite that passes the guard: for all guards of the crate but those of sqlite3_errstr and
-- sqlite3_strglob, by the versions that the comments of the structure name.
pub call-guards :
    (i : ℕ) (g : Guard) (host : ℕ)
    → get_elem? guards i ≡ some g
    → g.version ≤ host
    → All (λ n. call host n ≡ some n) g.calls
call-guards i g host e h =
    call_mono-All g.version host g.calls h
      (map-All (call g.version) some g.calls (same_calls guards i g all_guards e))

call-none : (v w : ℕ) (n : String) → v ≤ w → call w n ≡ none → call v n ≡ none
call-none v w n h e = elim (Option-cases (call v n)) [
  | inl k ↦ k
  | inr (m, k) ↦ absurd (cc (call_mono v w n m h k))
]

strglob_end : call 3008006 "strglob" ≡ none
unfolding call sqlite3_api_routines
strglob_end = refl

errstr_end : call 3007015 "errstr" ≡ none
unfolding call sqlite3_api_routines
errstr_end = refl

-- The guard of sqlite3_strglob lets versions pass that are too old for a loaded extension: from
-- 3.7.17 to 3.8.6 the arm is taken, and the structure ends before the member.
pub call-strglob :
    (host : ℕ)
    → 3007017 ≤ host
    → host < 3008007
    → (supports (record { modern = true; version = host }) strglob_guard.version ≡ true)
      × (All (λ n. call host n ≡ none) strglob_guard.calls)
unfolding supports
call-strglob host h k =
    (ground arith, (call-none host 3008006 "strglob" (omega arith) strglob_end, tt))

-- So does that of sqlite3_errstr, at 3.7.15.
call-errstr : (host : ℕ) → host ≤ 3007015 → All (λ n. call host n ≡ none) errstr_display_guard.calls
call-errstr host h = (call-none host 3007015 "errstr" h errstr_end, tt)
