-- ===== src/Value/Blob/Memory.antt =====
-- Which operations of a BLOB stay inside its allocation, and what the data is after them.
use mathlib.Core.List.{append-nil}
use native.Mathlib.Decide.{dec_lt}
use sqlite3_ext.Prelude.{
  ℕ, lt→ltb, ltb→lt, inl, inr, false, Bool-cases, take-take_le, sym, take-append_le, length-take_le,
  ◌+◌, ◌^◌, ◌≤◌, ◌<◌, ◌≡◌, refl, ap, List, ◌++◌, arith, length, take, drop, length-append,
  take-length, take-append_at, drop-append_at, drop-past, length-drop, ok, panic, bind, ltb,
  if◌then◌else◌,
}
use sqlite3_ext.Value.Bytes.{to_le, from_le, length-to_le, from_le-to_le}
use sqlite3_ext.Value.Blob.{
  Blob, set_len, len, as_slice, copy_from_slice, alloc, from_slice, clone, realloc, truncate,
  drop_blob, into_raw, from_raw,
}

-- The allocation of a BLOB with the given data. Its size fits a usize.
pub record Holds (b : Blob) (bytes : List ℕ) : Type 0 where
  pub layout : b.data_ptr ≡ to_le 8 (length bytes) ++ bytes
  pub fits : length bytes + 8 < 2 ^ 64

head8 : (n : ℕ) (xs : List ℕ) → take 8 (to_le 8 n ++ xs) ≡ to_le 8 n
head8 n xs = take-append_at 8 (to_le 8 n) xs (length-to_le 8 n)

tail8 : (n : ℕ) (xs : List ℕ) → drop 8 (to_le 8 n ++ xs) ≡ xs
tail8 n xs = drop-append_at 8 (to_le 8 n) xs (length-to_le 8 n)

size8 : (n : ℕ) (xs : List ℕ) → length (to_le 8 n ++ xs) ≡ 8 + length xs
size8 n xs = omega (arith, length-append (to_le 8 n) xs, length-to_le 8 n)

read8 : (n : ℕ) (xs : List ℕ) → n < 2 ^ 64 → from_le (take 8 (to_le 8 n ++ xs)) ≡ n
read8 n xs h = rw (head8 n xs) (from_le-to_le 8 n (omega arith))

pub size-Holds : (b : Blob) (bytes : List ℕ) → Holds b bytes → length b.data_ptr ≡ 8 + length bytes
size-Holds b bytes h = rw h.layout (size8 (length bytes) bytes)

pub len-Holds : (b : Blob) (bytes : List ℕ) → Holds b bytes → len b ≡ ok (length bytes)
unfolding len
len-Holds b bytes h =
    rw h.layout (
      ground
        (arith, size8 (length bytes) bytes, read8 (length bytes) bytes (omega (arith, h.fits))))

pub as_slice-Holds : (b : Blob) (bytes : List ℕ) → Holds b bytes → as_slice b ≡ ok bytes
unfolding as_slice
as_slice-Holds b bytes h =
    rw (len-Holds b bytes h, h.layout)
      (ground (arith, size8 (length bytes) bytes, tail8 (length bytes) bytes, take-length bytes))

-- After a copy of the right length the data is what was copied.
copy-Holds :
    (b : Blob) (val old : List ℕ)
    → Holds b old
    → length val ≡ length old
    → copy_from_slice b val ≡ ok (record { data_ptr = to_le 8 (length val) ++ val })
unfolding copy_from_slice
copy-Holds b val old h e =
    rw (len-Holds b old h, h.layout)
      (ground (
        arith,
        size8 (length old) old,
        head8 (length old) old,
        drop-past (8 + length old) (to_le 8 (length old) ++ old),
        append-nil val,
      ))

abbrev pub blob_of : List ℕ → Blob
blob_of bytes = record { data_ptr = to_le 8 (length bytes) ++ bytes }

pub blob_of-Holds : (bytes : List ℕ) → length bytes + 8 < 2 ^ 64 → Holds (blob_of bytes) bytes
blob_of-Holds bytes h = record { layout = refl; fits = h }

module _ (fresh : ℕ → List ℕ) (sized : (k : ℕ) → length (fresh k) ≡ k) where
  abbrev rest : ℕ → List ℕ
  rest n = drop 8 (fresh (n + 8))

  length-rest : (n : ℕ) → length (rest n) ≡ n
  length-rest n = omega (arith, length-drop 8 (fresh (n + 8)), sized (n + 8))

  alloc-Holds :
      (n : ℕ) → n + 8 < 2 ^ 64 → Holds (record { data_ptr = to_le 8 n ++ rest n }) (rest n)
  alloc-Holds n h = record {
    layout = ap (λ k. to_le 8 k ++ rest n) (sym (length-rest n));
    fits = omega (arith, length-rest n);
  }

  alloc-rest : (n : ℕ) → alloc fresh n ≡ ok (record { data_ptr = to_le 8 n ++ rest n })
  unfolding alloc set_len
  alloc-rest n = ground (arith, sized (n + 8))

  pub from_slice-blob_of :
      (val : List ℕ) → length val + 8 < 2 ^ 64 → from_slice fresh val ≡ ok (blob_of val)
  unfolding from_slice
  from_slice-blob_of val h = rw (alloc-rest (length val)) (
      copy-Holds _ val (rest (length val)) (alloc-Holds (length val) h)
        (sym (length-rest (length val))))

  clone-blob_of :
      (val : List ℕ) → length val + 8 < 2 ^ 64 → clone fresh (blob_of val) ≡ ok (blob_of val)
  unfolding clone
  clone-blob_of val h =
      let v = blob_of-Holds val h in
      rw
        (len-Holds (blob_of val) val v, alloc-rest (length val), as_slice-Holds (blob_of val) val v)
        (copy-Holds _ val (rest (length val)) (alloc-Holds (length val) h)
          (sym (length-rest (length val))))

  drop-blob_of : (val : List ℕ) → length val + 8 < 2 ^ 64 → drop_blob (blob_of val) ≡ ok tt
  unfolding drop_blob
  drop-blob_of val h =
      rw (len-Holds (blob_of val) val (blob_of-Holds val h))
        (ground (arith, size8 (length val) val))

  -- A BLOB made of some bytes gives back these bytes; its copy is the same, and it survives the
  -- way through a raw pointer; and freeing it hands the layout of its allocation to dealloc.
  pub from_slice-as_slice :
      (val : List ℕ)
      → length val + 8 < 2 ^ 64
      → (bind (from_slice fresh val) as_slice ≡ ok val)
        × (bind (bind (from_slice fresh val) (clone fresh)) as_slice ≡ ok val)
        × (bind (bind (from_slice fresh val) λ b. from_raw (into_raw b)) as_slice ≡ ok val)
        × (bind (from_slice fresh val) drop_blob ≡ ok tt)
  unfolding from_raw into_raw
  from_slice-as_slice val h =
      let read = as_slice-Holds (blob_of val) val (blob_of-Holds val h) in
      rw (from_slice-blob_of val h) (read, rw (clone-blob_of val h) read, read, drop-blob_of val h)

  set_len-blob_of :
      (val : List ℕ) (n : ℕ) → set_len (blob_of val) n ≡ ok (record { data_ptr = to_le 8 n ++ val })
  unfolding set_len
  set_len-blob_of val n = ground (arith, size8 (length val) val, tail8 (length val) val)

  unchanged :
      (val : List ℕ) (n : ℕ)
      → length val + 8 < 2 ^ 64
      → ltb n (length val) ≡ false
      → truncate fresh (blob_of val) n ≡ ok (blob_of val)
  unfolding truncate
  unchanged val n h e = rw (len-Holds (blob_of val) val (blob_of-Holds val h), e)

  truncate-shorter :
      (val : List ℕ) (n : ℕ)
      → length val + 8 < 2 ^ 64
      → n < length val
      → truncate fresh (blob_of val) n ≡ ok (record { data_ptr = take n (to_le 8 n ++ val) })
  unfolding truncate realloc
  truncate-shorter val n h lt =
      rw
        (
          len-Holds (blob_of val) val (blob_of-Holds val h),
          lt→ltb n (length val) lt,
          set_len-blob_of val n,
        )
        (ground (
          arith,
          size8 n val,
          take-append_le n (to_le 8 n ++ val) (fresh n) (omega (arith, size8 n val)),
        ))

  -- What the truncated allocation begins with, if it is long enough.
  short-len :
      (val : List ℕ) (n : ℕ)
      → length val + 8 < 2 ^ 64
      → n < length val
      → 8 ≤ n
      → len (record { data_ptr = take n (to_le 8 n ++ val) }) ≡ ok n
  unfolding len
  short-len val n h lt k = ground (
    arith,
    length-take_le n (to_le 8 n ++ val),
    size8 n val,
    take-take_le 8 n (to_le 8 n ++ val) k,
    read8 n val (omega arith),
  )

  tiny-len :
      (val : List ℕ) (n : ℕ)
      → n < length val
      → n < 8
      → len (record { data_ptr = take n (to_le 8 n ++ val) }) ≡ panic
  unfolding len
  tiny-len val n lt k = ground (arith, length-take_le n (to_le 8 n ++ val), size8 n val)

  broken :
      (val : List ℕ) (n : ℕ)
      → length val + 8 < 2 ^ 64
      → n < length val
      → let b : Blob = record { data_ptr = take n (to_le 8 n ++ val) } in
        (as_slice b ≡ panic) × (drop_blob b ≡ panic)
  unfolding as_slice drop_blob
  broken val n h lt = elim (dec_lt n 8) [
    | yes k ↦ rw (tiny-len val n lt k) (refl, refl)
    | no k ↦
        rw (short-len val n h lt (omega arith))
          (ground (arith, length-take_le n (to_le 8 n ++ val), size8 n val))
  ]

  -- Truncating to the length or more changes nothing. Truncating to less reallocates without
  -- the room for the length: reading the shortened data afterwards goes past the end of the
  -- allocation, and freeing it hands over a layout that is not that of the allocation.
  pub truncate-as_slice :
      (val : List ℕ) (n : ℕ)
      → length val + 8 < 2 ^ 64
      → (bind (truncate fresh (blob_of val) n) as_slice
          ≡ (if ltb n (length val) then panic else ok val))
        × (bind (truncate fresh (blob_of val) n) drop_blob
            ≡ (if ltb n (length val) then panic else ok tt))
  unfolding truncate
  truncate-as_slice val n h = elim (Bool-cases (ltb n (length val))) [
    | inl shorter ↦
        rw (truncate-shorter val n h (ltb→lt n (length val) shorter), shorter)
          (broken val n h (ltb→lt n (length val) shorter))
    | inr longer ↦
        rw (unchanged val n h longer, longer)
          (as_slice-Holds (blob_of val) val (blob_of-Holds val h), drop-blob_of val h)
  ]
