-- ===== src/Tests/Functions.antt =====
-- Results, pointers and values that pass through a context that is the value it holds, with a
-- subtype; and a function that adds up its arguments.
use sqlite3_ext.Prelude.{
  ℕ, zero, suc, ◌+◌, ◌-◌, ◌%◌, ◌≡◌, refl, true, false, List, [], ◌∷◌, ◌++◌, arith, length, take,
  drop, Option, none, some, ok, err, bind, map_ok, ap, if◌then◌else◌, ◌==◌,
}
use sqlite3_ext.Prelude.Int.{ℤ, pos, negsuc}
use sqlite3_ext.Version.{Build, supports}
use sqlite3_ext.Types.Codes.{sqlite_mismatch}
use sqlite3_ext.Value.Blob.{RawPtr}
use sqlite3_ext.Value.Access.{text, ValueApi, to_owned}
use sqlite3_ext.Value.Access.Reading.{Cell, int, real, txt, blb, nul, type_code, payload, IsReader}
use sqlite3_ext.Value.Pointers.{unsafe_ptr, from_value_ref}
use sqlite3_ext.Function.Results.{ContextApi, assign_value, assign_ptr}
use sqlite3_ext.Function.Results.Storing.{IsContext, assign_value-to_owned}
use sqlite3_ext.Function.Results.Pointing.{KeepsSubtype, assign_ptr-from_value_ref}
use sqlite3_ext.Function.Aggregate.{
  AggregateContext, Aggregate, step, inverse, value, run, aggregate_final,
}
use sqlite3_ext.Function.Aggregate.Folding.{Allocates, zeroed, run-fold}
use sqlite3_ext.Function.Options.{
  args, deterministic, risk, innocuous, direct_only, configure, default,
}
use sqlite3_ext.Function.Options.Settings.{configure-encode, initial}

abbrev zeros : ℕ → List ℕ
zeros zero = []
zeros (suc n) = 0 ∷ zeros n

length-zeros : (n : ℕ) → length (zeros n) ≡ n
length-zeros zero = refl
length-zeros (suc n) = omega (arith, length-zeros n)

-- Floating-point numbers are left out: they are the numbers, and none is NaN.
abbrev pub Held : Type 0
Held = Cell ℕ × ℕ

abbrev size_of : ℤ → ℕ
size_of (pos n) = n
size_of (negsuc n) = 0

abbrev bytes_at : RawPtr → ℕ → List ℕ
bytes_at p n = take n (drop p.offset p.block)

abbrev context_api : ContextApi Held ℕ Held
context_api = record {
  result_null = λ ctx. (nul, 0);
  result_int = λ i ctx. (int i, 0);
  result_int64 = λ i ctx. (int i, 0);
  result_double = λ d ctx. (real d, 0);
  result_text64 = λ p n how ctx. (txt (take n p), 0);
  result_text = λ p n how ctx. (txt (take (size_of n) p), 0);
  result_blob64 = λ p n how ctx. (blb (bytes_at p n), 0);
  result_blob = λ p n how ctx. (blb (bytes_at p (size_of n)), 0);
  result_error = λ p n ctx. ctx;
  result_error_code = λ code ctx. ctx;
  result_subtype = λ n ctx. (ctx.0, n % 256);
  result_value = λ v ctx. v;
}

abbrev output : Held → Cell ℕ
output ctx = ctx.0

context_api-IsContext : (limit : ℕ) → IsContext context_api output (λ d. false) limit
context_api-IsContext limit = record {
  of_null = λ ctx. refl;
  of_int64 = λ i ctx. refl;
  of_double = λ d ctx h. refl;
  of_text64 = λ p n how ctx h k. refl;
  of_text = λ p n how ctx h k. refl;
  of_blob64 = λ p n how ctx h k. refl;
  of_blob = λ p n how ctx h k. refl;
}

abbrev held_bytes : Cell ℕ → List ℕ
held_bytes (txt s) = s
held_bytes (blb s) = s
held_bytes c = []

abbrev held_int : Cell ℕ → ℤ
held_int (int i) = i
held_int c = pos 0

abbrev held_real : Cell ℕ → ℕ
held_real (real d) = d
held_real c = 0

-- The pointer to no bytes is null.
abbrev pointer_to : List ℕ → Option (List ℕ)
pointer_to [] = none
pointer_to (x ∷ s) = some (x ∷ s ++ 0 ∷ [])

abbrev pub value_api : ValueApi Held ℕ ℕ
value_api = record {
  value_type = λ v. type_code v.0;
  value_numeric_type = λ v. (type_code v.0, v);
  value_int64 = λ v. held_int v.0;
  value_double = λ v. held_real v.0;
  value_bytes = λ v. (length (held_bytes v.0), v);
  value_blob = λ v. (pointer_to (held_bytes v.0), v);
  value_subtype = λ v. v.1;
  value_frombind = λ v. 0;
  value_nochange = λ v. 0;
  value_pointer = λ v. none;
}

held_payload : (c : Cell ℕ) (s : List ℕ) → payload c ≡ some s → held_bytes c ≡ s
held_payload (txt t) s h = cc
held_payload (blb t) s h = cc
held_payload (int i) s h = cc
held_payload (real d) s h = cc
held_payload nul s h = cc

value_api-IsReader : IsReader value_api output
value_api-IsReader = record {
  type = λ v. refl;
  int64 = λ v i h. ap held_int h;
  double = λ v d h. ap held_real h;
  bytes = λ v s h. ap length (held_payload v.0 s h);
  kept = λ v s h. h;
  memory = λ v. 0 ∷ [];
  pointer = λ v x s h. ap pointer_to (held_payload v.0 (x ∷ s) h);
  no_bytes = λ v h. ap pointer_to (held_payload v.0 [] h);
}

context_api-KeepsSubtype : KeepsSubtype context_api output value_api (λ ctx. ctx)
context_api-KeepsSubtype = record {
  of_subtype = λ n ctx. refl;
  subtype = λ n ctx. omega arith;
  subtype_bytes = λ v. refl;
}

abbrev modern_build : Build
modern_build = record { modern = true; version = 3038005 }

abbrev empty : Held
empty = (nul, 0)

assign_value-to_owned_example :
    bind
      (assign_value context_api modern_build (text (104 ∷ 105 ∷ [])) empty)
      (λ ctx. (to_owned value_api (λ s. true) zeros ctx).0)
    ≡ ok (text (104 ∷ 105 ∷ []))
assign_value-to_owned_example =
    assign_value-to_owned context_api output (λ d. false) 1000 (context_api-IsContext 1000)
      (omega arith) value_api output value_api-IsReader (λ ctx. ctx) (λ ctx. refl) (λ s. true) zeros
      length-zeros modern_build (txt (104 ∷ 105 ∷ [])) empty (omega arith) refl

assign_ptr-from_value_ref_example :
    (from_value_ref value_api modern_build 8 83
      (assign_ptr context_api modern_build 8 (unsafe_ptr 83 4096) empty)).0
    ≡ ok (unsafe_ptr 83 4096)
unfolding supports
assign_ptr-from_value_ref_example =
    assign_ptr-from_value_ref context_api output (λ d. false) 1000 (context_api-IsContext 1000)
      (omega arith) value_api output value_api-IsReader (λ ctx. ctx) (λ ctx. refl)
      context_api-KeepsSubtype modern_build 8 (unsafe_ptr 83 4096) 83 empty (omega arith)
      (omega arith) (omega arith) (omega arith)

-- A sum, which refuses to add 0; its result and its errors go to the list that is seen.
abbrev sum : Aggregate ℕ ℕ (List ℕ) ℕ
sum = record {
  from_user_data = λ u. u;
  default_value = λ u x. (ok tt, 0 ∷ x);
  step = λ a f x. (if a == 0 then err sqlite_mismatch else ok tt, f + a, x);
  value = λ f x. (ok tt, f ∷ x);
  inverse = λ a f x. (ok tt, f - a, x);
  report = λ e x. 999 ∷ x;
}

abbrev pub allocate : ℕ → Option (AggregateContext ℕ) → Option (AggregateContext ℕ)
allocate n (some m) = some m
allocate zero none = none
allocate (suc n) none = some zeroed

pub allocate-Allocates : Allocates allocate 16
allocate-Allocates = record { first = refl; no_bytes = refl; again = λ n m. refl }

run-fold_example :
    map_ok
      (λ c. c.seen)
      (bind
        (run sum 10 allocate 16
          (step 5 ∷ value ∷ step 0 ∷ inverse 5 ∷ [])
          (record { seen = []; buffer = none }))
        (aggregate_final sum 10 allocate 16))
    ≡ ok (10 ∷ 999 ∷ 15 ∷ [])
run-fold_example =
    run-fold sum 10 allocate 16 allocate-Allocates (step 5 ∷ value ∷ step 0 ∷ inverse 5 ∷ []) []

configure-encode_example :
    configure true
      (args (pos 2) ∷ deterministic true ∷ risk innocuous ∷ risk direct_only ∷ [])
      default
    ≡ ok (record { n_args = pos 2; flags = 0x80800 })
configure-encode_example =
    configure-encode true
      (args (pos 2) ∷ deterministic true ∷ risk innocuous ∷ risk direct_only ∷ []) initial
