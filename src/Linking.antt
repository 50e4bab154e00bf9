-- ===== src/Linking.antt =====
-- build.rs: the functions `ffi::sqlite3_*` that generate_ffi writes for the members of
-- sqlite3_api_routines, in a build that is linked to SQLite or that SQLite loads.
pub mod Api
pub mod Macros
pub mod Header
pub mod Declared
pub mod Guards
pub mod Older
pub mod Hosts
use Prim.Native.String.{String, ◌++◌ as str_append}
use text.Mathlib.Text.{◌==◌ as str_eq}
use sqlite3_ext.Prelude.{
  ℕ, Bool, true, false, not, ◌&&◌, ◌||◌, List, [], ◌∷◌, ◌++◌, map, Option, none, some,
  if◌then◌else◌,
}

-- The types of C, where `const` is left out and a pointer to a function is a callback.
pub data CType : Type 0 where
  void int unsigned_int unsigned_char char int64 uint64 double va_list callback : CType
  ptr : String → CType

pub record Signature : Type 0 where
  pub params : List CType
  pub variadic_args : Bool
  pub result : CType

-- A function that is declared, or a member that points to one.
pub record Routine : Type 0 where
  pub name : String
  pub signature : Signature

abbrev pub routine : String → CType → List CType → Routine
routine n t ts = record {
  name = n;
  signature = record { params = ts; variadic_args = false; result = t };
}

abbrev pub variadic : String → CType → List CType → Routine
variadic n t ts = record {
  name = n;
  signature = record { params = ts; variadic_args = true; result = t };
}

-- Pointers that occur often.
abbrev pub db : CType
db = ptr "sqlite3"

abbrev pub stmt : CType
stmt = ptr "sqlite3_stmt"

abbrev pub context : CType
context = ptr "sqlite3_context"

abbrev pub value : CType
value = ptr "sqlite3_value"

abbrev pub chars : CType
chars = ptr "char"

abbrev pub bytes : CType
bytes = ptr "void"

-- Members of the structure below one comment, and the version that it names.
pub record Group : Type 0 where
  pub since : ℕ
  pub members : List Routine

abbrev pub group : ℕ → List Routine → Group
group v rs = record { since = v; members = rs }

abbrev pub concat {ℓ} : {A : Type ℓ} → List (List A) → List A
concat [] = []
concat (xs ∷ xss) = xs ++ concat xss

-- `.filter(..)`
abbrev linked : Bool → List Routine → List Routine
linked static_link [] = []
linked static_link (r ∷ rs) =
    let rest = linked static_link rs in
    if not static_link
      || (not (str_eq r.name "normalized_sql") && not (str_eq r.name "unlock_notify"))
    then r ∷ rest
    else rest

-- `.take_while(..)`
abbrev up_to_close_v2 : Bool → List Routine → List Routine
up_to_close_v2 modern_sqlite [] = []
up_to_close_v2 modern_sqlite (r ∷ rs) =
    let rest = up_to_close_v2 modern_sqlite rs in
    if modern_sqlite || not (str_eq r.name "close_v2") then r ∷ rest else []

unfoldable pub api_routines : Bool → Bool → List Routine → List Routine
api_routines static_link modern_sqlite fields =
    up_to_close_v2 modern_sqlite (linked static_link fields)

unfoldable pub sqlite3_name : String → String
sqlite3_name name =
    if str_eq name "interruptx"
    then "sqlite3_interrupt"
    else if str_eq name "xsnprintf"
    then "sqlite3_snprintf"
    else if str_eq name "xthreadsafe"
    then "sqlite3_threadsafe"
    else if str_eq name "xvsnprintf"
    then "sqlite3_vsnprintf"
    else str_append "sqlite3_" name

-- What a function that is generated calls: a function of sqlite3funcs, or a member of `*API`.
pub data Target : Type 0 where
  sqlite3funcs : String → Target
  api : String → Target

-- What a function that is generated returns: a value, or a pointer to a function.
pub data ReturnType : Type 0 where
  value_of : CType → ReturnType
  function_of : Signature → ReturnType

-- Its body calls the target with its parameters in their order, or is the pointer to the target.
pub data Body : Type 0 where
  calls is_pointer_to : Target → Body

pub record ApiMethod : Type 0 where
  pub name : String
  pub params : List CType
  pub result : ReturnType
  pub body : Body

-- `if let Some(_) = varargs`: a function with a variable number of arguments is not called, but its
-- pointer is returned.
abbrev pub written : Bool → String → Signature → Target → ApiMethod
written true name s target = record {
  name = name;
  params = [];
  result = function_of s;
  body = is_pointer_to target;
}
written false name s target = record {
  name = name;
  params = s.params;
  result = value_of s.result;
  body = calls target;
}

abbrev pub method : Bool → Routine → ApiMethod
method static_link r =
    let target = if static_link then sqlite3funcs (sqlite3_name r.name) else api r.name in
    written r.signature.variadic_args (sqlite3_name r.name) r.signature target

unfoldable pub generate_ffi : Bool → Bool → List Routine → List ApiMethod
generate_ffi static_link modern_sqlite fields =
    map (method static_link) (api_routines static_link modern_sqlite fields)

-- The function of that name.
abbrev pub find : String → List Routine → Option Signature
find n [] = none
find n (r ∷ rs) = if str_eq r.name n then some r.signature else find n rs

-- The member to which a macro leads.
abbrev pub member : String → List (String × String) → Option String
member n [] = none
member n ((f, m) ∷ ms) = if str_eq f n then some m else member n ms

abbrev pub fields : List Group → List Routine
fields [] = []
fields (g ∷ gs) = g.members ++ fields gs
