-- ===== src/Function/Results/Pointing.antt =====
-- The way of an UnsafePtr through SQLite: stored as the result of one function, read as an
-- argument of another.
use sqlite3_ext.Prelude.{
  [], ◌∷◌, ℕ, Bool-cases, inl, inr, ◌^◌, ◌%◌, ◌≤◌, ◌<◌, ◌≡◌, ◌≢◌, refl, ap, Bool, true, not, ◌&&◌,
  List, arith, length, take-length, take-append, length-append, ◌==◌, if◌then◌else◌, some, ok, err,
}
use sqlite3_ext.Version.{Build, match_version, supports}
use sqlite3_ext.Types.Codes.{sqlite_mismatch}
use sqlite3_ext.Value.Bytes.{to_le, from_le, length-to_le, from_le-to_le}
use sqlite3_ext.Value.Access.{ValueApi}
use sqlite3_ext.Value.Access.Reading.{Cell, blb, payload, IsReader}
use sqlite3_ext.Value.Pointers.{UnsafePtr, unsafe_ptr, to_bytes, from_value_ref}
use sqlite3_ext.Function.Results.{ContextApi, slice_ptr, assign_slice, assign_ptr, transient}
use sqlite3_ext.Function.Results.Storing.{IsContext}
use sqlite3_ext.Prelude.Int.{as_i32-pos}

-- The subtype goes with the result, and its low eight bits are kept.
pub record KeepsSubtype {C D V R : Type 0} (ctx_api : ContextApi C D V) (output : C → Cell D)
    (value_api : ValueApi V D R) (result : C → V) : Type 0 where
  pub of_subtype : (n : ℕ) (ctx : C) → output (ctx_api.result_subtype n ctx) ≡ output ctx
  pub subtype :
      (n : ℕ) (ctx : C)
      → value_api.value_subtype (result (ctx_api.result_subtype n ctx)) % 256 ≡ n % 256
  pub subtype_bytes :
      (v : V) → value_api.value_subtype (value_api.value_bytes v).1 ≡ value_api.value_subtype v

module _ {V D R : Type 0} (api : ValueApi V D R) (cell : V → Cell D) (laws : IsReader api cell)
    (b : Build) (size : ℕ) where
  -- What is read of a text or a BLOB of the right size.
  from_value_ref-payload :
      (v : V) (s : List ℕ) (subtype : ℕ)
      → payload (cell v) ≡ some s
      → length s ≡ size
      → size ≢ 0
      → (from_value_ref api b size subtype v).0 ≡ (
          if supports b 3009000 && not ((api.value_subtype (api.value_bytes v).1 % 256) == subtype)
          then err sqlite_mismatch
          else ok (unsafe_ptr subtype (from_le s)))
  unfolding from_value_ref match_version
  from_value_ref-payload v [] subtype h e ne = absurd (ne (omega (arith, e)))
  from_value_ref-payload v (x ∷ s) subtype h e ne = ground (
    arith,
    laws.bytes v (x ∷ s) h,
    laws.pointer (api.value_bytes v).1 x s (laws.kept v (x ∷ s) h),
    take-append (x ∷ s) (laws.memory (api.value_bytes v).1),
    length-append (x ∷ s) (laws.memory (api.value_bytes v).1),
  )

module _ {C D V : Type 0} (api : ContextApi C D V) (output : C → Cell D) (is_nan : D → Bool)
    (limit : ℕ) (laws : IsContext api output is_nan limit) (bounded : limit < 2 ^ 31)
    (b : Build) where
  assign_slice-output :
      (s : List ℕ) (ctx : C) → length s ≤ limit → output (assign_slice api b s ctx) ≡ blb s
  unfolding assign_slice match_version
  assign_slice-output s ctx h =
      let p = slice_ptr s in
      ground (
        arith,
        as_i32-pos (length s) (omega arith),
        laws.of_blob64 p (length s) transient ctx (omega arith) h,
        laws.of_blob p (length s) transient ctx (omega arith) h,
        take-length s,
      )

module _ {C D V R : Type 0} (ctx_api : ContextApi C D V) (output : C → Cell D) (is_nan : D → Bool)
    (limit : ℕ) (laws : IsContext ctx_api output is_nan limit) (bounded : limit < 2 ^ 31)
    (value_api : ValueApi V D R) (cell : V → Cell D) (reader : IsReader value_api cell)
    (result : C → V) (same : (ctx : C) → cell (result ctx) ≡ output ctx)
    (keeps : KeepsSubtype ctx_api output value_api result) (b : Build) where
  assign_ptr-output :
      (size : ℕ) (p : UnsafePtr) (ctx : C)
      → size ≤ limit
      → output (assign_ptr ctx_api b size p ctx) ≡ blb (to_le size p.ptr)
  unfolding assign_ptr match_version to_bytes
  assign_ptr-output size p ctx h =
      let s = to_le size p.ptr in
      let stored = assign_slice ctx_api b s ctx in
      ground (
        arith,
        keeps.of_subtype p.subtype stored,
        assign_slice-output ctx_api output is_nan limit laws bounded b s ctx
            (omega (arith, length-to_le size p.ptr)),
      )

  assign_ptr-subtype :
      (size : ℕ) (p : UnsafePtr) (ctx : C)
      → supports b 3009000 ≡ true
      → p.subtype < 256
      → value_api.value_subtype (result (assign_ptr ctx_api b size p ctx)) % 256 ≡ p.subtype
  unfolding assign_ptr match_version
  assign_ptr-subtype size p ctx h byte =
      ground (arith, keeps.subtype p.subtype (assign_slice ctx_api b (to_bytes size p) ctx))

  -- A pointer that a function returns is the pointer that another function reads, if it asks for
  -- the same subtype; before 3.9.0 the subtype is not looked at. With another subtype the answer
  -- is SQLITE_MISMATCH. The subtype fits a byte, and the address fits a reference.
  pub assign_ptr-from_value_ref :
      (size : ℕ) (p : UnsafePtr) (subtype : ℕ) (ctx : C)
      → size ≢ 0
      → size ≤ limit
      → p.ptr < 256 ^ size
      → p.subtype < 256
      → (from_value_ref value_api b size subtype (result (assign_ptr ctx_api b size p ctx))).0 ≡ (
          if supports b 3009000 && not (p.subtype == subtype)
          then err sqlite_mismatch
          else ok (unsafe_ptr subtype p.ptr))
  assign_ptr-from_value_ref size p subtype ctx ne h fits byte =
      let v = result (assign_ptr ctx_api b size p ctx) in
      let held : payload (cell v) ≡ some (to_le size p.ptr) =
        rw (same (assign_ptr ctx_api b size p ctx)) (ap payload (assign_ptr-output size p ctx h)) in
      rw
        (
          from_value_ref-payload value_api cell reader b size v (to_le size p.ptr) subtype held
              (length-to_le size p.ptr) ne,
          keeps.subtype_bytes v,
          from_le-to_le size p.ptr fits,
        )
        (elim (Bool-cases (supports b 3009000)) [
          | inl y ↦ rw (y, assign_ptr-subtype size p ctx y byte) refl
          | inr n ↦ rw n refl
        ])
