-- ===== src/Query/Prepare/Columns.antt =====
-- Which columns of a row can be read.
use sqlite3_ext.Prelude.{
  ℕ, zero, suc, ◌+◌, ◌≡◌, refl, arith, ltb, if◌then◌else◌, get_elem?, ok, panic, unwrap,
}
use sqlite3_ext.Query.Prepare.{
  PrepareApi, PreparedStatement, columns_from, new_statement, len, index, column_count,
}

columns_from_lem :
    (i n k : ℕ)
    → unwrap (get_elem? (columns_from i n) k)
      ≡ (if ltb k n then ok (record { position = i + k }) else panic)
unfolding columns_from
columns_from_lem i zero k = ground arith
columns_from_lem i (suc n) zero = ground arith
columns_from_lem i (suc n) (suc k) = rw (columns_from_lem (suc i) n k) (ground arith)

module _ {Conn Raw : Type 0} (api : PrepareApi Conn Raw) where
  -- A row can be read at the columns that its statement had when it was prepared, each at its own
  -- position; reading a further one panics. `len` counts the columns that the statement has now, so
  -- after a change of the schema the two can differ.
  pub index-len :
      (stmt now : Raw) (k : ℕ)
      → let s : PreparedStatement Raw = record (new_statement api stmt) { base = now } in
        (len api s ≡ api.column_count now)
        × (index api k s
            ≡ (if ltb k (api.column_count stmt) then ok (record { position = k }) else panic))
  unfolding len index column_count
  index-len stmt now k = (refl, ground (arith, columns_from_lem 0 (api.column_count stmt) k))
