-- ===== src/Function/Calls.antt =====
-- src/function/stubs.rs: the callbacks of scalar functions and of collations.
use sqlite3_ext.Prelude.{ℕ, List, Option, none, some, Outcome, ok, err, panic, bind, Text, Error}
use sqlite3_ext.Prelude.Int.{ℤ, pos, negsuc}
use sqlite3_ext.Value.Access.{from_raw_parts}

-- `call` is the function, which may write to the context `X`, and `report` is `set_result` with an
-- error.
unfoldable pub call_scalar :
    {A X : Type 0} → (A → X → Outcome (Unit {0}) × X) → (Error → X → X) → A → X → Outcome X
call_scalar call report args ctx =
    let (r, ctx') = call args ctx in
    elim r [ ok _ ↦ ok ctx' | err e ↦ ok (report e ctx') | panic ↦ panic ]

-- `std::cmp::Ordering`
pub data Ordering : Type 0 where
  less equal greater : Ordering

abbrev pub ordering_code : Ordering → ℤ
ordering_code less = negsuc 0
ordering_code equal = pos 0
ordering_code greater = pos 1

-- The two texts are given as memory and length, and are taken for UTF-8.
unfoldable pub compare :
    (Text → Text → Outcome Ordering) → ℕ → Option (List ℕ) → ℕ → Option (List ℕ) → Outcome ℤ
compare func len_a bytes_a len_b bytes_b =
    bind (from_raw_parts bytes_a len_a)
      λ a. bind (from_raw_parts bytes_b len_b) λ b. bind (func a b) λ o. ok (ordering_code o)

-- `func` may register the collation, which changes the connection `C`. A name that is not UTF-8 is
-- passed over.
unfoldable pub collation_needed :
    {C : Type 0} → (Text → Option Text) → (Text → C → C) → Text → C → C
collation_needed to_str func name conn = elim (to_str name) [ some s ↦ func s conn | none ↦ conn ]
