-- ===== src/Query/Params/Bound.antt =====
-- What is bound to the parameters of a statement after a call of bind_param.
use mathlib.Core.Path.{subst}
use sqlite3_ext.Prelude.{
  ℕ, ◌+◌, ◌^◌, ◌≤◌, ◌<◌, ◌≡◌, refl, ap, Bool, false, ◌&&◌, not, List, [], ◌∷◌, arith, length, take,
  drop, take-length, drop-append_at, leb, ◌==◌, if◌then◌else◌, Outcome, ok, err, Text, Bool-cases,
  inl, inr, ◌∙◌,
}
use sqlite3_ext.Prelude.Int.{ℤ, pos, as_i32-pos}
use sqlite3_ext.Version.{Build, match_version, supports}
use sqlite3_ext.Types.{from_sqlite}
use sqlite3_ext.Types.Codes.{sqlite_range}
use sqlite3_ext.Value.Blob.{RawPtr, into_raw}
use sqlite3_ext.Value.Blob.Memory.{
  blob_of, blob_of-Holds, from_slice-blob_of, len-Holds, size-Holds,
}
use sqlite3_ext.Value.Bytes.{to_le, length-to_le}
use sqlite3_ext.Value.Access.{Value, integer, float, text, blob, null}
use sqlite3_ext.Value.Access.Reading.{Cell, int, real, txt, blb, nul, owned}
use sqlite3_ext.Function.Results.{Destructor, transient, drop_blob, contains_nul}
use sqlite3_ext.Function.Results.Storing.{IsStorable}
use sqlite3_ext.Query.Params.{
  BindApi, checked_code, bind_unit, bind_i64, bind_f64, bind_blob, bind_str, bind_value,
  parameter_position, bind_named,
}

module _ {S D : Type 0} (bound : S → ℕ → Cell D) (count : S → ℕ) where
  -- Parameters are numbered from 1 on.
  abbrev pub in_range : ℕ → S → Bool
  in_range p s = leb 1 p && leb p (count s)

  -- The code of a call that binds at position p: SQLITE_OK or SQLITE_RANGE.
  abbrev pub code : ℕ → S → ℕ
  code p s = if in_range p s then 0 else 25

  -- What is bound afterwards: the value at its position, and the rest as before.
  abbrev pub put : ℕ → Cell D → S → ℕ → Cell D
  put p c s q = if in_range p s && (q == p) then c else bound s q

  abbrev pub Writes : ℕ × S → ℕ → Cell D → S → Type 0
  Writes r p c s = (r.0 ≡ code p s) × (bound r.1 ≡ put p c s)

-- What SQLite documents for sqlite3_bind_*: a text or a BLOB is as many bytes as the call names,
-- within the limit on its length; and names have positions of the statement.
pub record IsBinder {S D V P : Type 0} (api : BindApi S D V P) (bound : S → ℕ → Cell D)
    (count : S → ℕ) (is_nan : D → Bool) (limit : ℕ) : Type 0 where
  pub of_null : (p : ℕ) (s : S) → Writes bound count (api.bind_null p s) p nul s
  pub of_int64 : (p : ℕ) (i : ℤ) (s : S) → Writes bound count (api.bind_int64 p i s) p (int i) s
  pub of_double :
      (p : ℕ) (d : D) (s : S)
      → is_nan d ≡ false
      → Writes bound count (api.bind_double p d s) p (real d) s
  pub of_text64 :
      (p : ℕ) (m : List ℕ) (n : ℕ) (how : Destructor) (s : S)
      → n ≤ length m
      → n ≤ limit
      → Writes bound count (api.bind_text64 p m n how s) p (txt (take n m)) s
  pub of_text :
      (p : ℕ) (m : List ℕ) (n : ℕ) (how : Destructor) (s : S)
      → n ≤ length m
      → n ≤ limit
      → Writes bound count (api.bind_text p m (pos n) how s) p (txt (take n m)) s
  pub of_blob64 :
      (p : ℕ) (m : RawPtr) (n : ℕ) (how : Destructor) (s : S)
      → n + m.offset ≤ length m.block
      → n ≤ limit
      → Writes bound count (api.bind_blob64 p m n how s) p (blb (take n (drop m.offset m.block))) s
  pub of_blob :
      (p : ℕ) (m : RawPtr) (n : ℕ) (how : Destructor) (s : S)
      → n + m.offset ≤ length m.block
      → n ≤ limit
      → Writes bound count
          (api.bind_blob p m (pos n) how s)
          p
          (blb (take n (drop m.offset m.block)))
          s
  pub index : (name : Text) (s : S) → api.parameter_index name s ≤ count s

module _ {S D V P : Type 0} (api : BindApi S D V P) (bound : S → ℕ → Cell D) (count : S → ℕ)
    (is_nan : D → Bool) (limit : ℕ) (laws : IsBinder api bound count is_nan limit)
    (bounded : limit < 2 ^ 31) (b : Build) where
  abbrev pub answer : ℕ → S → Outcome (Unit {0})
  answer p s = if in_range bound count p s then ok tt else err sqlite_range

  abbrev Binds : Outcome (Unit {0}) × S → ℕ → Cell D → S → Type 0
  Binds r p c s = (r.0 ≡ answer p s) × (bound r.1 ≡ put bound count p c s)

  code-answer : (p : ℕ) (s : S) → from_sqlite (code bound count p s) ≡ answer p s
  unfolding from_sqlite
  code-answer p s = elim (Bool-cases (in_range bound count p s)) [
    | inl e ↦ rw e refl
    | inr e ↦ rw e refl
  ]

  checked_code-Binds :
      (r : ℕ × S) (p : ℕ) (c : Cell D) (s : S)
      → Writes bound count r p c s
      → Binds (checked_code r) p c s
  checked_code-Binds r p c s w = (ap from_sqlite w.0 ∙ code-answer p s, w.1)

  either :
      (v : ℕ) {r r' : ℕ × S} (p : ℕ) (c : Cell D) (s : S)
      → Writes bound count r p c s
      → Writes bound count r' p c s
      → Binds (checked_code (match_version b ((v, r) ∷ []) r')) p c s
  unfolding match_version
  either v {r} {r'} p c s w w' = elim (Bool-cases (supports b v)) [
    | inl e ↦ rw e (checked_code-Binds r p c s w)
    | inr e ↦ rw e (checked_code-Binds r' p c s w')
  ]

  bind_str-Binds :
      (m : List ℕ) (p : ℕ) (s : S) → length m ≤ limit → Binds (bind_str api b m p s) p (txt m) s
  unfolding bind_str
  bind_str-Binds m p s h =
      let whole = take-length m in
      let new : Writes bound count (api.bind_text64 p m (length m) transient s) p (txt m) s =
        subst (λ x. Writes bound count (api.bind_text64 p m (length m) transient s) p (txt x) s)
          whole (laws.of_text64 p m (length m) transient s (omega arith) h) in
      let old : Writes bound count (api.bind_text p m (pos (length m)) transient s) p (txt m) s =
        subst (λ x. Writes bound count (api.bind_text p m (pos (length m)) transient s) p (txt x) s)
          whole (laws.of_text p m (length m) transient s (omega arith) h) in
      rw (as_i32-pos (length m) (omega arith)) (either 3008007 p (txt m) s new old)

  bind_blob-Binds :
      (m : List ℕ) (p : ℕ) (s : S)
      → length m ≤ limit
      → Binds (bind_blob api b (blob_of m) p s) p (blb m) s
  unfolding bind_blob into_raw
  bind_blob-Binds m p s h =
      let r = into_raw (blob_of m) in
      let holds = blob_of-Holds m (omega arith) in
      let fits : length m + 8 ≤ length r.block = omega (arith, size-Holds (blob_of m) m holds) in
      let whole : take (length m) (drop 8 r.block) ≡ m =
        rw (drop-append_at 8 (to_le 8 (length m)) m (length-to_le 8 (length m))) (take-length m) in
      let new : Writes bound count (api.bind_blob64 p r (length m) drop_blob s) p (blb m) s =
        subst (λ x. Writes bound count (api.bind_blob64 p r (length m) drop_blob s) p (blb x) s)
          whole (laws.of_blob64 p r (length m) drop_blob s fits h) in
      let old : Writes bound count (api.bind_blob p r (pos (length m)) drop_blob s) p (blb m) s =
        subst (λ x. Writes bound count (api.bind_blob p r (pos (length m)) drop_blob s) p (blb x) s)
          whole (laws.of_blob p r (length m) drop_blob s fits h) in
      rw (bind_blob, len-Holds (blob_of m) m holds, as_i32-pos (length m) (omega arith))
        (either 3008007 p (blb m) s new old)

  at_value :
      {v v' : Value D} (p : ℕ) (c : Cell D) (s : S)
      → v ≡ v'
      → Binds (bind_value api b v p s) p c s
      → Binds (bind_value api b v' p s) p c s
  at_value p c s e h = subst (λ v. Binds (bind_value api b v p s) p c s) e h

  module _ (is_utf8 : List ℕ → Bool) (fresh : ℕ → List ℕ)
      (sized : (k : ℕ) → length (fresh k) ≡ k) where
    -- Binding an owned value at a position of the statement binds that value there, BLOBs and texts
    -- byte for byte, and leaves the other parameters as they are; at any other position the answer
    -- is SQLITE_RANGE and nothing changes. Numbers are not NaN, and texts and BLOBs are within
    -- SQLite's limit.
    pub bind_value-bound :
        (c : Cell D) {v : Value D} (p : ℕ) (s : S)
        → IsStorable is_nan limit c
        → owned is_utf8 fresh c ≡ ok v
        → ((bind_value api b v p s).0 ≡ answer p s)
          × (bound (bind_value api b v p s).1 ≡ put bound count p c s)
    unfolding bind_value bind_i64 bind_f64 bind_unit
    bind_value-bound (int i) {v} p s h e =
        let made : integer i ≡ v = cc in
        at_value p (int i) s made (checked_code-Binds _ p (int i) s (laws.of_int64 p i s))
    bind_value-bound (real d) {v} p s h e =
        let made : float d ≡ v = cc in
        at_value p (real d) s made (checked_code-Binds _ p (real d) s (laws.of_double p d s h))
    bind_value-bound (txt m) {v} p s h e =
        let made : text m ≡ v = ground arith in at_value p (txt m) s made (bind_str-Binds m p s h)
    bind_value-bound (blb m) {v} p s h e =
        let made : blob (blob_of m) ≡ v =
          ground (arith, from_slice-blob_of fresh sized m (omega arith)) in
        at_value p (blb m) s made (bind_blob-Binds m p s h)
    bind_value-bound nul {v} p s h e =
        let made : null ≡ v = cc in
        at_value p nul s made (checked_code-Binds _ p nul s (laws.of_null p s))

    -- A parameter that is bound by its name is bound at the position that the statement has for the
    -- name, whatever position the call was made with; a name that it does not have, or with a nul in
    -- it, is answered by SQLITE_RANGE, and nothing changes.
    pub bind_named-bound :
        (name : Text) (c : Cell D) {v : Value D} (p : ℕ) (s : S)
        → IsStorable is_nan limit c
        → owned is_utf8 fresh c ≡ ok v
        → let i = api.parameter_index name s in
          let known = not (contains_nul name) && not (i == 0) in
          let r = bind_named api b (bind_value api b) (name, v) p s in
          (r.0 ≡ (if known then ok tt else err sqlite_range))
          × (bound r.1 ≡ (if known then put bound count i c s else bound s))
    unfolding bind_named parameter_position
    bind_named-bound name c {v} p s h e =
        let found = bind_value-bound c (api.parameter_index name s) s h e in
        let inside : api.parameter_index name s ≤ count s = laws.index name s in
        elim (Bool-cases (contains_nul name)) [
          | inl n ↦ rw (bind_named, parameter_position, n) (refl, refl)
          | inr n ↦ elim (Bool-cases (api.parameter_index name s == 0)) [
            | inl z ↦ rw (bind_named, parameter_position, n, z) (refl, refl)
            | inr z ↦ rw (bind_named, parameter_position, n, z) (ground (arith, found.0), found.1)
          ]
        ]
