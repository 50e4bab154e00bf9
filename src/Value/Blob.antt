-- ===== src/Value/Blob.antt =====
-- src/value/blob.rs: an owned BLOB. Its memory is one allocation: eight bytes for the length, then
-- the data. Undefined behaviour (an access outside the allocation, a layout that is not that of
-- the allocation) is the outcome `panic`.
pub mod Memory
use sqlite3_ext.Prelude.{
  ℕ, ◌+◌, ◌≡◌, Bool, List, ◌++◌, ◌==◌, leb, ltb, if◌then◌else◌, length, take, drop, Outcome, ok,
  panic, bind, text_eq,
}
use sqlite3_ext.Value.Bytes.{to_le, from_le}

-- `size_of::<usize>()`
abbrev pub sizeu : ℕ
sizeu = 8

-- The size of the allocation for `len` bytes of data; the alignment is 1.
abbrev pub blob_layout : ℕ → ℕ
blob_layout len = len + sizeu

-- The bytes of the allocation that `data` points to.
pub record Blob : Type 0 where
  pub data_ptr : List ℕ

unfoldable pub set_len : Blob → ℕ → Outcome Blob
set_len b n =
    if leb sizeu (length b.data_ptr)
    then ok (record { data_ptr = to_le sizeu n ++ drop sizeu b.data_ptr })
    else panic

unfoldable pub len : Blob → Outcome ℕ
len b = if leb sizeu (length b.data_ptr) then ok (from_le (take sizeu b.data_ptr)) else panic

unfoldable pub as_slice : Blob → Outcome (List ℕ)
as_slice b =
    bind (len b) λ n.
      if leb (sizeu + n) (length b.data_ptr) then ok (take n (drop sizeu b.data_ptr)) else panic

-- `as_mut_slice().copy_from_slice(val)`, which panics where the lengths differ.
unfoldable pub copy_from_slice : Blob → List ℕ → Outcome Blob
copy_from_slice b val = bind (len b) λ n.
    if leb (sizeu + n) (length b.data_ptr)
    then (if length val == n
        then ok
            (record { data_ptr = take sizeu b.data_ptr ++ (val ++ drop (sizeu + n) b.data_ptr) })
        else panic)
    else panic

-- `fresh n` is what std's alloc returns for n bytes, of unspecified content.
module _ (fresh : ℕ → List ℕ) where
  unfoldable pub alloc : ℕ → Outcome Blob
  alloc n = set_len (record { data_ptr = fresh (blob_layout n) }) n

  -- `From<&[u8]>`; the two conversions from arrays do the same.
  unfoldable pub from_slice : List ℕ → Outcome Blob
  from_slice val = bind (alloc (length val)) λ ret. copy_from_slice ret val

  unfoldable pub clone : Blob → Outcome Blob
  clone b =
      bind (len b) λ n. bind (alloc n) λ ret. bind (as_slice b) λ bytes. copy_from_slice ret bytes

  -- std's realloc keeps the bytes up to the smaller of the two sizes, and wants the layout of the
  -- allocation.
  abbrev std_realloc : List ℕ → ℕ → ℕ → Outcome (List ℕ)
  std_realloc block size new_size =
      if size == length block then ok (take new_size (block ++ fresh new_size)) else panic

  unfoldable pub realloc : Blob → ℕ → Outcome Blob
  realloc b new_len = bind (len b) λ old_len. bind (set_len b new_len) λ b'.
      bind (std_realloc b'.data_ptr (blob_layout old_len) new_len)
        λ block. ok (record { data_ptr = block })

  unfoldable pub truncate : Blob → ℕ → Outcome Blob
  truncate b n = bind (len b) λ old_len. if ltb n old_len then realloc b n else ok b

-- `Drop`: the layout that is handed to dealloc must be that of the allocation.
unfoldable pub drop_blob : Blob → Outcome (Unit {0})
drop_blob b = bind (len b) λ n. if blob_layout n == length b.data_ptr then ok tt else panic

unfoldable pub eq : Blob → Blob → Outcome Bool
eq a b = bind (as_slice a) λ x. bind (as_slice b) λ y. ok (text_eq x y)

-- A pointer into an allocation. `into_raw` points at the data, and `from_raw` back at the start.
pub record RawPtr : Type 0 where
  pub block : List ℕ
  pub offset : ℕ

unfoldable pub into_raw : Blob → RawPtr
into_raw b = record { block = b.data_ptr; offset = sizeu }

-- Stepping back past the start of the allocation is undefined behaviour; a pointer to any other
-- place than `into_raw` gave is too, by the function's contract.
unfoldable pub from_raw : RawPtr → Outcome Blob
from_raw p = if p.offset == sizeu then ok (record { data_ptr = p.block }) else panic
