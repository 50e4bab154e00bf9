-- ===== src/Linking/Older.antt =====
-- That a build for an old SQLite has a beginning of the functions of a modern build.
use text.Mathlib.Text.{◌==◌ as str_eq}
use mathlib.Core.List.{map-append}
use sqlite3_ext.Prelude.{◌≡◌, refl, ap, arith, Bool, true, false, List, [], ◌∷◌, ◌++◌, map, All}
use sqlite3_ext.Linking.{
  Routine, ApiMethod, method, linked, up_to_close_v2, api_routines, generate_ffi,
}

modern_takes_all : (rs : List Routine) → up_to_close_v2 true rs ≡ rs
modern_takes_all [] = refl
modern_takes_all (r ∷ rs) = ap (◌∷◌ r) (modern_takes_all rs)

-- What an old build leaves out, from close_v2 on.
from_close_v2 : List Routine → List Routine
from_close_v2 [] = []
from_close_v2 (r ∷ rs) = elim (str_eq r.name "close_v2") [
  | true ↦ r ∷ rs
  | false ↦ from_close_v2 rs
]

abbrev pub IsOld : Routine → Type 0
IsOld r = str_eq r.name "close_v2" ≡ false

IsOld-split :
    (rs : List Routine)
    → (up_to_close_v2 false rs ++ from_close_v2 rs ≡ rs) × All IsOld (up_to_close_v2 false rs)
unfolding from_close_v2
IsOld-split [] = (refl, tt)
IsOld-split (r ∷ rs) = ground (arith, IsOld-split rs)

map-append_to :
    (f : Routine → ApiMethod) (xs ys zs : List Routine)
    → xs ++ ys ≡ zs
    → map f zs ≡ map f xs ++ map f ys
map-append_to f xs ys zs e = rw (← e) (map-append f xs ys)

-- For every table of members, the functions of a build for an old SQLite are the first of those of
-- a modern build, linked in the same way, and none of their members is named close_v2.
generate_ffi-IsOld :
    (static_link : Bool) (fields : List Routine)
    → ((rest : List ApiMethod) × (generate_ffi static_link true fields
          ≡ generate_ffi static_link false fields ++ rest))
      × All IsOld (api_routines static_link false fields)
unfolding generate_ffi api_routines
generate_ffi-IsOld s rs =
    let ls : List Routine = linked s rs in
    let (e, old) = IsOld-split ls in
    (
      (
        map (method s) (from_close_v2 ls),
        rw (modern_takes_all ls)
            (map-append_to (method s) (up_to_close_v2 false ls) (from_close_v2 ls) ls e),
      ),
      old,
    )
