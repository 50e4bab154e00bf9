-- ===== src/Prelude/Results.antt =====
-- What a call of fallible Rust code does: it returns `Ok`, returns `Err`, or panics. `Error` is
-- the crate's error type (src/types.rs), and the binds are the operator `?`.
use Prim.Native.Nat.{ℕ}
use mathlib.Core.List.{List}
use mathlib.Core.Path.{◌≡◌, refl}
use mathlib.Core.Logic.{◌⊎◌, inl, inr}
use mathlib.Core.Option.{Option, none, some}

-- The bytes of a text: Rust's `str` is UTF-8.
abbrev pub Text : Type 0
Text = List ℕ

-- The errors of std carry no data that the crate looks at.
pub data Error : Type 0 where
  sqlite : ℕ → Option Text → Error
  utf8_error : Error
  nul_error : Error
  version_not_satisfied : ℕ → Error
  module_msg : Text → Error
  no_change : Error

pub data Outcome {ℓ} (A : Type ℓ) : Type ℓ where
  ok : A → Outcome A
  err : Error → Outcome A
  panic : Outcome A

abbrev pub bind {ℓ κ} : {A : Type ℓ} {B : Type κ} → Outcome A → (A → Outcome B) → Outcome B
bind (ok a) f = f a
bind (err e) f = err e
bind panic f = panic

-- `expr.map(f)` on a `Result`.
abbrev pub map_ok {ℓ κ} : {A : Type ℓ} {B : Type κ} → (A → B) → Outcome A → Outcome B
map_ok f (ok a) = ok (f a)
map_ok f (err e) = err e
map_ok f panic = panic

-- `option.ok_or(e)`
abbrev pub ok_or {ℓ} : {A : Type ℓ} → Option A → Error → Outcome A
ok_or (some a) e = ok a
ok_or none e = err e

-- `option.unwrap()`
abbrev pub unwrap {ℓ} : {A : Type ℓ} → Option A → Outcome A
unwrap (some a) = ok a
unwrap none = panic

-- A method of an object: it returns what the call does and the object afterwards, also when the
-- call fails, since what was written stays written.
abbrev pub Method : Type 0 → Type 0 → Type 0
Method S A = S → Outcome A × S

infixl 5 ◌>>=◌ ◌>>◌
abbrev pub ◌>>=◌ : {S A B : Type 0} → Method S A → (A → Method S B) → Method S B
◌>>=◌ m f s =
    let (r, s') = m s in elim r [ ok a ↦ f a s' | err e ↦ (err e, s') | panic ↦ (panic, s') ]

abbrev pub ◌>>◌ : {S A B : Type 0} → Method S A → Method S B → Method S B
m >> k = m >>= λ _. k

abbrev pub pure : {S A : Type 0} → A → Method S A
pure a s = (ok a, s)

abbrev pub throw : {S A : Type 0} → Error → Method S A
throw e s = (err e, s)

abbrev pub lift : {S A : Type 0} → Outcome A → Method S A
lift r s = (r, s)

abbrev pub gets : {S A : Type 0} → (S → A) → Method S A
gets f s = (ok (f s), s)

abbrev pub modify : {S : Type 0} → (S → S) → Method S (Unit {0})
modify f s = (ok tt, f s)

-- The call as a value: the state goes on whatever it does. A panic is not caught.
abbrev pub attempt : {S A B : Type 0} → Method S A → (Outcome A → Method S B) → Method S B
attempt m f s =
    let (r, s') = m s in elim r [ ok a ↦ f (ok a) s' | err e ↦ f (err e) s' | panic ↦ (panic, s') ]

pub Outcome-cases {ℓ} :
    {A : Type ℓ} (r : Outcome A)
    → ((a : A) × (r ≡ ok a)) ⊎ ((e : Error) × (r ≡ err e)) ⊎ (r ≡ panic)
Outcome-cases (ok a) = inl (a, refl)
Outcome-cases (err e) = inr (inl (e, refl))
Outcome-cases panic = inr (inr refl)

pub bind-map_ok :
    {A B C : Type 0} (r : Outcome A) (e : A → B) (f : B → Outcome C) (g : A → Outcome C)
    → ((a : A) → f (e a) ≡ g a)
    → bind (map_ok e r) f ≡ bind r g
bind-map_ok (ok a) e f g h = h a
bind-map_ok (err x) e f g h = refl
bind-map_ok panic e f g h = refl

pub map_ok-bind :
    {A B C : Type 0} (r : Outcome A) (f : A → Outcome B) (g : B → C)
    → bind r (λ a. map_ok g (f a)) ≡ map_ok g (bind r f)
map_ok-bind (ok a) f g = refl
map_ok-bind (err x) f g = refl
map_ok-bind panic f g = refl
