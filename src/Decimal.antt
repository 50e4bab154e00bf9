-- ===== src/Decimal.antt =====
-- examples/decimal.rs: arithmetic, a sum and a collation on decimal numbers of any length. The
-- numbers are those of the crate bigdecimal, which is a parameter.
pub mod Window
pub mod Order
use sqlite3_ext.Prelude.{
  ℕ, zero, suc, Bool, List, [], ◌∷◌, Option, none, some, Outcome, ok, err, panic, bind, map_ok,
  Method, ◌>>=◌, pure, lift, Text,
}
use sqlite3_ext.Prelude.Int.{ℤ, pos, negsuc}
use sqlite3_ext.Value.Access.{
  ValueApi, ValueType, null_type, Value, integer, text, null, typed, get_str,
}
use sqlite3_ext.Function.Aggregate.{Aggregate}
use sqlite3_ext.Function.Calls.{Ordering, ordering_code}

-- What the example uses of BigDecimal; `show` prints the number after `normalized`.
pub record Big (B : Type 0) : Type 0 where
  pub from_str : Text → Option B
  pub default : B
  pub add : B → B → B
  pub sub : B → B → B
  pub mul : B → B → B
  pub cmp : B → B → Ordering
  pub show : B → Text

-- `x.unwrap_or_else(|_| y)`
abbrev pub unwrap_or {ℓ} : {A : Type ℓ} → Option A → A → A
unwrap_or (some a) d = a
unwrap_or none d = d

module _ {B V D R : Type 0} (big : Big B) (api : ValueApi V D R) (is_utf8 : List ℕ → Bool) where
  abbrev parse : Text → B
  parse s = unwrap_or (big.from_str s) big.default

  unfoldable pub process_value : Method V (Option B)
  process_value = typed api >>= λ t. elim t [
    | null_type ↦ pure none
    | _ ↦ get_str api is_utf8 >>= λ s. pure (some (parse s))
  ]

  -- `args.into_iter().map(..).collect()`
  unfoldable pub process_args : List V → Outcome (List (Option B))
  process_args [] = ok []
  process_args (v ∷ vs) = bind (process_value v).0 λ d. map_ok (◌∷◌ d) (process_args vs)

  -- `args.next().unwrap_or(None)`
  abbrev argument : ℕ → List (Option B) → Option B
  argument n [] = none
  argument zero (d ∷ ds) = d
  argument (suc n) (d ∷ ds) = argument n ds

  abbrev both : (B → B → Value D) → Option B → Option B → Option (Value D)
  both ret (some a) (some b) = some (ret a b)
  both ret a b = none

  -- `scalar_method!`: the result that is set, if one is.
  unfoldable pub scalar_method : (B → B → Value D) → List V → Outcome (Option (Value D))
  scalar_method ret args =
      map_ok (λ ds. both ret (argument 0 ds) (argument 1 ds)) (process_args args)

  unfoldable pub decimal_add : List V → Outcome (Option (Value D))
  decimal_add = scalar_method (λ a b. text (big.show (big.add a b)))

  unfoldable pub decimal_sub : List V → Outcome (Option (Value D))
  decimal_sub = scalar_method (λ a b. text (big.show (big.sub a b)))

  unfoldable pub decimal_mul : List V → Outcome (Option (Value D))
  decimal_mul = scalar_method (λ a b. text (big.show (big.mul a b)))

  unfoldable pub decimal_cmp : List V → Outcome (Option (Value D))
  decimal_cmp = scalar_method (λ a b. integer (ordering_code (big.cmp a b)))

  unfoldable pub decimal_collation : Text → Text → Ordering
  decimal_collation a b = big.cmp (parse a) (parse b)

  abbrev accumulate : (B → B → B) → B → Outcome (Option B) → Outcome (Unit {0}) × B
  accumulate op cur (ok (some x)) = (ok tt, op cur x)
  accumulate op cur (ok none) = (ok tt, cur)
  accumulate op cur (err e) = (err e, cur)
  accumulate op cur panic = (panic, cur)

  -- `process_value(*args.first_mut().unwrap())?`, then `+=` or `-=`.
  abbrev pub update : {X : Type 0} → (B → B → B) → List V → B → X → Outcome (Unit {0}) × B × X
  update op [] cur x = (panic, cur, x)
  update op (v ∷ vs) cur x = let (r, cur') = accumulate op cur (process_value v).0 in (r, cur', x)

  -- `Sum`. The context is the result that was set last, if any.
  abbrev pub sum : Aggregate (Unit {0}) (List V) (Outcome (Option (Value D))) B
  sum = record {
    from_user_data = λ u. big.default;
    default_value = λ u x. (ok tt, ok (some null));
    step = λ args cur x. update big.add args cur x;
    value = λ cur x. (ok tt, ok (some (text (big.show cur))));
    inverse = λ args cur x. update big.sub args cur x;
    report = λ e x. err e;
  }
