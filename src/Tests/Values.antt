-- ===== src/Tests/Values.antt =====
-- BLOBs and strings.
use sqlite3_ext.Prelude.{ℕ, zero, suc, ◌≡◌, refl, List, [], ◌∷◌, arith, ok, panic, bind, length}
use sqlite3_ext.Value.Blob.{from_slice, as_slice, clone, into_raw, from_raw, drop_blob, truncate}
use sqlite3_ext.Value.Blob.Memory.{blob_of, from_slice-as_slice, truncate-as_slice}

abbrev zeros : ℕ → List ℕ
zeros zero = []
zeros (suc n) = 0 ∷ zeros n

length-zeros : (n : ℕ) → length (zeros n) ≡ n
length-zeros zero = refl
length-zeros (suc n) = omega (arith, length-zeros n)

abbrev sample : List ℕ
sample = 1 ∷ 2 ∷ 3 ∷ []

from_slice-as_slice_example :
    (bind (from_slice zeros sample) as_slice ≡ ok sample)
    × (bind (bind (from_slice zeros sample) (clone zeros)) as_slice ≡ ok sample)
    × (bind (bind (from_slice zeros sample) λ b. from_raw (into_raw b)) as_slice ≡ ok sample)
    × (bind (from_slice zeros sample) drop_blob ≡ ok tt)
from_slice-as_slice_example = from_slice-as_slice zeros length-zeros sample (omega arith)

truncate-as_slice_example :
    (bind (truncate zeros (blob_of sample) 1) as_slice ≡ panic)
    × (bind (truncate zeros (blob_of sample) 1) drop_blob ≡ panic)
truncate-as_slice_example = truncate-as_slice zeros length-zeros sample 1 (omega arith)
