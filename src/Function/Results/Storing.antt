-- ===== src/Function/Results/Storing.antt =====
-- What a result that the crate stores reads back as, with the way a value takes through SQLite:
-- assign_to of src/function/context.rs, then to_owned of src/value/mod.rs.
use sqlite3_ext.Prelude.{
  ℕ, ◌+◌, ◌^◌, ◌≤◌, ◌<◌, ◌≡◌, refl, ap, sym, Bool, false, List, [], ◌∷◌, ◌++◌, arith, length, take,
  drop, take-length, drop-append_at, take-append, length-append, if◌then◌else◌, Outcome, ok, panic,
  bind, map_ok, bind-map_ok, Bool-cases, inl, inr,
}
use sqlite3_ext.Prelude.Int.{ℤ, pos, as_i32-pos}
use sqlite3_ext.Version.{Build, match_version}
use sqlite3_ext.Value.Blob.{RawPtr, into_raw}
use sqlite3_ext.Value.Blob.Memory.{
  blob_of, blob_of-Holds, from_slice-blob_of, len-Holds, size-Holds,
}
use sqlite3_ext.Value.Bytes.{to_le, length-to_le}
use sqlite3_ext.Value.Access.Reading.{
  Cell, int, real, txt, blb, nul, owned, IsReader, to_owned-owned,
}
use sqlite3_ext.Value.Access.{Value, ValueApi, to_owned}
use sqlite3_ext.Function.Results.{
  Destructor, ContextApi, contains_nul, cstring_new, append_nul, drop_cstring, drop_blob,
  assign_value, assign_i64, assign_f64, assign_unit, assign_string, assign_blob,
}

-- What SQLite documents for the functions that set a result, which is `output` of the context: a
-- text or a BLOB is as many bytes as the call names, within the limit on its length.
pub record IsContext {C D V : Type 0} (api : ContextApi C D V) (output : C → Cell D)
    (is_nan : D → Bool) (limit : ℕ) : Type 0 where
  pub of_null : (ctx : C) → output (api.result_null ctx) ≡ nul
  pub of_int64 : (i : ℤ) (ctx : C) → output (api.result_int64 i ctx) ≡ int i
  pub of_double : (d : D) (ctx : C) → is_nan d ≡ false → output (api.result_double d ctx) ≡ real d
  pub of_text64 :
      (p : List ℕ) (n : ℕ) (how : Destructor) (ctx : C)
      → n ≤ length p
      → n ≤ limit
      → output (api.result_text64 p n how ctx) ≡ txt (take n p)
  pub of_text :
      (p : List ℕ) (n : ℕ) (how : Destructor) (ctx : C)
      → n ≤ length p
      → n ≤ limit
      → output (api.result_text p (pos n) how ctx) ≡ txt (take n p)
  pub of_blob64 :
      (p : RawPtr) (n : ℕ) (how : Destructor) (ctx : C)
      → n + p.offset ≤ length p.block
      → n ≤ limit
      → output (api.result_blob64 p n how ctx) ≡ blb (take n (drop p.offset p.block))
  pub of_blob :
      (p : RawPtr) (n : ℕ) (how : Destructor) (ctx : C)
      → n + p.offset ≤ length p.block
      → n ≤ limit
      → output (api.result_blob p (pos n) how ctx) ≡ blb (take n (drop p.offset p.block))

-- A text with a nul in it cannot be made into a C string.
abbrev pub has_nul : {D : Type 0} → Cell D → Bool
has_nul (txt s) = contains_nul s
has_nul c = false

-- A number that is one, or bytes within SQLite's limit.
abbrev pub IsStorable : {D : Type 0} → (D → Bool) → ℕ → Cell D → Type 0
IsStorable is_nan limit (real d) = is_nan d ≡ false
IsStorable is_nan limit (txt s) = length s ≤ limit
IsStorable is_nan limit (blb s) = length s ≤ limit
IsStorable is_nan limit c = Unit

append_nul-split : (s : List ℕ) → append_nul s ≡ s ++ (0 ∷ [])
append_nul-split [] = refl
append_nul-split (x ∷ s) = ap (◌∷◌ x) (append_nul-split s)

module _ {C D V : Type 0} (api : ContextApi C D V) (output : C → Cell D) (is_nan : D → Bool)
    (limit : ℕ) (laws : IsContext api output is_nan limit) (bounded : limit < 2 ^ 31)
    (b : Build) where
  abbrev stored : Outcome C → Outcome (Cell D)
  stored r = map_ok output r

  assign_string-output :
      (s : List ℕ) (ctx : C)
      → length s ≤ limit
      → map_ok output (assign_string api b s ctx) ≡ (if contains_nul s then panic else ok (txt s))
  unfolding assign_string match_version cstring_new
  assign_string-output s ctx h =
      let p = append_nul s in
      let fits : length s ≤ length p =
        rw (append_nul-split s, length-append s (0 ∷ [])) (omega arith) in
      let whole : take (length s) p ≡ s = rw (append_nul-split s) (take-append s (0 ∷ [])) in
      ground (
        arith,
        as_i32-pos (length s) (omega arith),
        laws.of_text64 p (length s) drop_cstring ctx fits h,
        laws.of_text p (length s) drop_cstring ctx fits h,
        whole,
      )

  assign_blob-output :
      (s : List ℕ) (ctx : C)
      → length s ≤ limit
      → map_ok output (assign_blob api b (blob_of s) ctx) ≡ ok (blb s)
  unfolding assign_blob match_version into_raw
  assign_blob-output s ctx h =
      let p = into_raw (blob_of s) in
      let holds = blob_of-Holds s (omega arith) in
      let fits : length s + 8 ≤ length p.block = omega (arith, size-Holds (blob_of s) s holds) in
      let whole : take (length s) (drop 8 p.block) ≡ s =
        rw (drop-append_at 8 (to_le 8 (length s)) s (length-to_le 8 (length s))) (take-length s) in
      rw (len-Holds (blob_of s) s holds) (
        ground (
          arith,
          as_i32-pos (length s) (omega arith),
          laws.of_blob64 p (length s) drop_blob ctx fits h,
          laws.of_blob p (length s) drop_blob ctx fits h,
          whole,
        ))

  assign_value-output :
      (is_utf8 : List ℕ → Bool) (fresh : ℕ → List ℕ) (sized : (k : ℕ) → length (fresh k) ≡ k)
      (c : Cell D) {v : Value D} (ctx : C)
      → IsStorable is_nan limit c
      → owned is_utf8 fresh c ≡ ok v
      → map_ok output (assign_value api b v ctx) ≡ (if has_nul c then panic else ok c)
  unfolding assign_value assign_i64 assign_f64 assign_unit
  assign_value-output is_utf8 fresh sized (int i) {v} ctx h e = ground (arith, laws.of_int64 i ctx)
  assign_value-output is_utf8 fresh sized (real d) {v} ctx h e =
      ground (arith, laws.of_double d ctx h)
  assign_value-output is_utf8 fresh sized (txt s) {v} ctx h e =
      ground (arith, assign_string-output s ctx h)
  assign_value-output is_utf8 fresh sized (blb s) {v} ctx h e =
      ground (arith, assign_blob-output s ctx h, from_slice-blob_of fresh sized s (omega arith))
  assign_value-output is_utf8 fresh sized nul {v} ctx h e = ground (arith, laws.of_null ctx)

-- A value that a function returns reads back as the same value, BLOBs byte for byte, save that a
-- text with a nul in it panics. `result` is the value that SQLite makes of the context; numbers
-- are not NaN, and texts and BLOBs are within SQLite's limit.
pub assign_value-to_owned :
    {C D V R : Type 0} (ctx_api : ContextApi C D V) (output : C → Cell D) (is_nan : D → Bool)
    (limit : ℕ)
    → IsContext ctx_api output is_nan limit
    → limit < 2 ^ 31
    → (value_api : ValueApi V D R) (cell : V → Cell D) → IsReader value_api cell
    → (result : C → V) → ((ctx : C) → cell (result ctx) ≡ output ctx)
    → (is_utf8 : List ℕ → Bool) (fresh : ℕ → List ℕ) → ((k : ℕ) → length (fresh k) ≡ k)
    → (b : Build) (c : Cell D) {v : Value D} (ctx : C) → IsStorable is_nan limit c
    → owned is_utf8 fresh c ≡ ok v
    → bind
        (assign_value ctx_api b v ctx)
        (λ ctx'. (to_owned value_api is_utf8 fresh (result ctx')).0)
      ≡ (if has_nul c then panic else ok v)
assign_value-to_owned ctx_api output is_nan limit laws bounded value_api cell reader result same
      is_utf8 fresh sized b c {v} ctx h e =
    rw
      (
        ← bind-map_ok (assign_value ctx_api b v ctx) output (owned is_utf8 fresh)
            (λ ctx'. (to_owned value_api is_utf8 fresh (result ctx')).0)
            (λ ctx'. sym (
              to_owned-owned value_api cell reader is_utf8 fresh (result ctx') (output ctx')
                (same ctx'))),
        assign_value-output ctx_api output is_nan limit laws bounded b is_utf8 fresh sized c ctx h
            e,
      )
      (elim (Bool-cases (has_nul c)) [ inl n ↦ rw n refl | inr n ↦ rw n e ])
