-- ===== src/Query/Rows.antt =====
-- Reading all rows of a query.
use sqlite3_ext.Prelude.{
  ℕ, zero, suc, ◌<◌, ◌≡◌, ◌≢◌, true, false, List, [], ◌∷◌, map, arith, length, Outcome, ok, some,
}
use sqlite3_ext.Query.Statement.{Api, active, finished, Statement, next, collect}

module _ {Raw V : Type 0} (api : Api Raw V) where
  -- SQLite steps through the rows `rows` and then reports the end, in the state `last`.
  pub data Yields : Raw → List Raw → Raw → Type 0 where
    ends : {raw last : Raw} → api.step raw ≡ (101, last) → Yields raw [] last
    yields :
        {raw row last : Raw} {rows : List Raw}
        → api.step raw ≡ (100, row)
        → Yields row rows last
        → Yields raw (row ∷ rows) last

  next-row :
      (s : Statement Raw) (row : Raw)
      → s.state ≢ finished
      → api.step s.base ≡ (100, row)
      → next api s ≡ (ok true, record { base = row; state = active })
  unfolding next
  next-row s row n e = ground arith

  next-end :
      (s : Statement Raw) (last : Raw)
      → s.state ≢ finished
      → api.step s.base ≡ (101, last)
      → next api s ≡ (ok false, record { base = last; state = finished })
  unfolding next
  next-end s last n e = ground arith

  -- When the function maps every row to a value, reading all rows gives the values in order, and
  -- leaves the statement finished. One call of `next` more than there are rows is enough.
  pub collect-rows :
      {B : Type 0} (f : Statement Raw → Outcome B) (g : Raw → B) (fuel : ℕ) (s : Statement Raw)
      (rows : List Raw) (last : Raw)
      → ((row : Raw) → f (record { base = row; state = active }) ≡ ok (g row))
      → s.state ≢ finished
      → Yields s.base rows last
      → length rows < fuel
      → collect api f fuel s ≡ some (ok (map g rows), record { base = last; state = finished })
  unfolding collect
  collect-rows f g zero s rows last total n y h = absurd (omega arith)
  collect-rows f g (suc fuel) s rows last total n (ends e) h = ground (arith, next-end s last n e)
  collect-rows f g (suc fuel) s rows last total n (yields {row = row} {rows = rest} e y) h =
      ground (
        arith,
        next-row s row n e,
        total row,
        collect-rows f g fuel (record { base = row; state = active }) rest last total (λ x. cc) y
            (omega arith),
      )
