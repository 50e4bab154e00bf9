-- ===== src/Linking/Declared.antt =====
-- That the functions which build.rs generates are those which the headers declare, and lead where
-- the macros of the headers lead.
use Prim.Native.String.{String}
use mathlib.Core.Option as Option
use sqlite3_ext.Prelude.{◌≡◌, refl, Bool, true, false, List, [], ◌∷◌, map, Option, some, All, arith}
use sqlite3_ext.Linking.{
  Routine, Signature, ApiMethod, Target, function_of, value_of, calls, is_pointer_to, written,
  sqlite3funcs, api, method, linked, up_to_close_v2, sqlite3_name, api_routines, generate_ffi, find,
  member, fields,
}
use sqlite3_ext.Linking.Api.{sqlite3_api_routines}
use sqlite3_ext.Linking.Header.{declared}
use sqlite3_ext.Linking.Macros.{macros}

module _ {ℓ κ} {A : Type ℓ} {B : Type κ} where
  All-map : (P : B → Type 0) (f : A → B) (xs : List A) → All (λ x. P (f x)) xs → All P (map f xs)
  All-map P f [] h = tt
  All-map P f (x ∷ xs) h = (h.0, All-map P f xs h.1)

-- Two maps that agree on a list agree at each of its elements.
module _ {A : Type 0} {B : Type 0} where
  pub map-All : (f g : A → B) (xs : List A) → map f xs ≡ map g xs → All (λ x. f x ≡ g x) xs
  map-All f g [] h = tt
  map-All f g (x ∷ xs) h = (cc, map-All f g xs (cc))

All-both :
    {A : Type 0} (P Q : A → Type 0) (xs : List A) → All P xs → All Q xs → All (λ x. P x × Q x) xs
All-both P Q [] h k = tt
All-both P Q (x ∷ xs) h k = ((h.0, k.0), All-both P Q xs h.1 k.1)

module _ (P : Routine → Type 0) where
  All-linked : (s : Bool) (rs : List Routine) → All P rs → All P (linked s rs)
  All-linked s [] h = tt
  All-linked s (r ∷ rs) h = ground (arith, All-linked s rs h.1)

  All-up_to_close_v2 : (m : Bool) (rs : List Routine) → All P rs → All P (up_to_close_v2 m rs)
  All-up_to_close_v2 m [] h = tt
  All-up_to_close_v2 m (r ∷ rs) h = ground (arith, All-up_to_close_v2 m rs h.1)

all_declared :
    map (λ r. find (sqlite3_name r.name) declared) (fields sqlite3_api_routines)
    ≡ map (λ r. some r.signature) (fields sqlite3_api_routines)
unfolding sqlite3_name declared sqlite3_api_routines
all_declared = refl

all_named :
    map (λ r. member (sqlite3_name r.name) macros) (fields sqlite3_api_routines)
    ≡ map (λ r. some r.name) (fields sqlite3_api_routines)
unfolding sqlite3_name macros sqlite3_api_routines
all_named = refl

-- Where a call of that name leads in C: to the function, or through its macro to a member.
abbrev pub c_target : Bool → String → Option Target
c_target true n = some (sqlite3funcs n)
c_target false n = Option.map api (member n macros)

-- A function through which one with that signature can be used: it takes the same parameters,
-- returns the same and calls it, or, where the number of arguments is variable, takes none and
-- returns a pointer to it.
abbrev pub Serves : Bool → Signature → Target → ApiMethod → Type 0
Serves true s t f = (f.params ≡ []) × (f.result ≡ function_of s) × (f.body ≡ is_pointer_to t)
Serves false s t f = (f.params ≡ s.params) × (f.result ≡ value_of s.result) × (f.body ≡ calls t)

abbrev pub Agrees : Bool → ApiMethod → Type 0
Agrees static_link f =
    (s : Signature) × (t : Target) × (find f.name declared ≡ some s)
    × (c_target static_link f.name ≡ some t)
    × Serves s.variadic_args s t f

written-Agrees :
    (static_link v : Bool) (n : String) (s : Signature) (t : Target)
    → s.variadic_args ≡ v
    → find n declared ≡ some s
    → c_target static_link n ≡ some t
    → Agrees static_link (written v n s t)
written-Agrees b true n s t e h k = (s, t, h, k, rw e (refl, refl, refl))
written-Agrees b false n s t e h k = (s, t, h, k, rw e (refl, refl, refl))

method-Agrees :
    (s : Bool) (r : Routine)
    → (find (sqlite3_name r.name) declared ≡ some r.signature)
      × (member (sqlite3_name r.name) macros ≡ some r.name)
    → Agrees s (method s r)
method-Agrees true r h =
    written-Agrees true r.signature.variadic_args (sqlite3_name r.name) r.signature
      (sqlite3funcs (sqlite3_name r.name)) refl h.0 refl
method-Agrees false r h =
    written-Agrees false r.signature.variadic_args (sqlite3_name r.name) r.signature (api r.name)
      refl h.0 (rw h.1 refl)

All-method :
    (s : Bool) (rs : List Routine)
    → All
        (λ r.
          (find (sqlite3_name r.name) declared ≡ some r.signature)
          × (member (sqlite3_name r.name) macros ≡ some r.name))
        rs
    → All (λ r. Agrees s (method s r)) rs
All-method s [] h = tt
All-method s (r ∷ rs) h = (method-Agrees s r h.0, All-method s rs h.1)

-- In every build, each function that generate_ffi writes has the name of a function that sqlite3.h
-- declares, and leads to what a call of that name reaches in C: the function itself in a static
-- build, else the member of sqlite3_api_routines to which the macro of sqlite3ext.h leads. It takes
-- the parameters of the declaration, returns its type and calls it; where the declaration takes a
-- variable number of arguments, it takes none and returns a pointer to a function of that signature.
pub generate_ffi-Agrees :
    (static_link modern_sqlite : Bool)
    → All
        (Agrees static_link)
        (generate_ffi static_link modern_sqlite (fields sqlite3_api_routines))
unfolding generate_ffi api_routines
generate_ffi-Agrees s m =
    All-map (Agrees s) (method s) (up_to_close_v2 m (linked s (fields sqlite3_api_routines))) (
      All-up_to_close_v2 (λ r. Agrees s (method s r)) m (linked s (fields sqlite3_api_routines))
        (All-linked (λ r. Agrees s (method s r)) s (fields sqlite3_api_routines)
          (All-method s (fields sqlite3_api_routines) (
            All-both _ _ (fields sqlite3_api_routines)
              (map-All _ _ (fields sqlite3_api_routines) all_declared)
              (map-All _ _ (fields sqlite3_api_routines) all_named)))))
