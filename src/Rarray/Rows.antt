-- ===== src/Rarray/Rows.antt =====
-- That rarray has a row for each value of the array, in its order, and none for what is no array.
use sqlite3_ext.Prelude.{
  ℕ, zero, suc, ◌<◌, ◌≤◌, ◌^◌, ◌≡◌, ◌≢◌, refl, sym, arith, true, List, [], ◌∷◌, length, drop, map,
  get_elem?, Option, none, some, ok,
}
use sqlite3_ext.Prelude.Int.{pos, ◌+ℤ◌}
use sqlite3_ext.Version.{Build, supports}
use sqlite3_ext.Value.Passed.{PassedRef, new}
use sqlite3_ext.Value.Passed.Checking.{get_ref-new}
use sqlite3_ext.Series.{checked}
use sqlite3_ext.Rarray.{Cursor, filter, next, eof, column, scan, run}

module _ {A : Type 0} where
  drop-cons :
      (l : List A) (n : ℕ) (x : A) (xs : List A)
      → drop n l ≡ x ∷ xs
      → (get_elem? l n ≡ some x) × (drop (suc n) l ≡ xs) × (n < length l)
  drop-cons [] zero x xs h = absurd (cc)
  drop-cons [] (suc n) x xs h = absurd (cc)
  drop-cons (y ∷ ys) zero x xs h = (cc, cc, omega arith)
  drop-cons (y ∷ ys) (suc n) x xs h = let (e, d, k) = drop-cons ys n x xs h in (e, d, omega arith)

  drop-nil : (l : List A) (n : ℕ) → drop n l ≡ [] → length l ≤ n
  drop-nil [] n h = omega arith
  drop-nil (y ∷ ys) zero h = absurd (cc)
  drop-nil (y ∷ ys) (suc n) h = omega (arith, drop-nil ys n h)

checked-suc : (n : ℕ) → suc n < 2 ^ 63 → checked (pos n +ℤ pos 1) ≡ ok (pos (suc n))
unfolding ◌+ℤ◌
checked-suc n h = ground arith

module _ (Val : ℕ → Type 0) (t : ℕ) {A : Type 0} (items : Val t → List A) where
  abbrev row : A → Option (Option A)
  row x = some (some x)

  abbrev at : ℕ → Val t → Cursor (Val t)
  at n a = record { rowid = pos n; array = some a }

  scan-drop :
      (a : Val t) (xs : List A) (n fuel : ℕ)
      → length (items a) < 2 ^ 63
      → drop n (items a) ≡ xs
      → length xs < fuel
      → scan Val t items fuel (at n a) ≡ some (ok (map row xs))
  unfolding scan eof column next
  scan-drop a xs n zero h d k = absurd (omega arith)
  scan-drop a [] n (suc fuel) h d k = ground (arith, drop-nil (items a) n d)
  scan-drop a (x ∷ xs) n (suc fuel) h d k =
      let (e, d', l) = drop-cons (items a) n x xs d in
      ground
        (arith, e, l, checked-suc n (omega arith), scan-drop a xs (suc n) fuel h d' (omega arith))

  scan-none :
      (fuel : ℕ)
      → 0 < fuel
      → scan Val t items fuel (record { rowid = pos 0; array = none }) ≡ some (ok [])
  unfolding scan eof
  scan-none zero h = absurd (omega arith)
  scan-none (suc fuel) h = refl

  -- From 3.20.0 on, rarray has the values of an array that was passed for its rows, in the order of
  -- the array, and no rows where a value of another type was passed: with fuel for one row more
  -- than there are.
  pub run-new :
      (fuel : ℕ) (b : Build) (a : Val t) (t' : ℕ) (other : Val t')
      (args : List (Option (PassedRef Val)))
      → supports b 3020000 ≡ true
      → t' ≢ t
      → length (items a) < 2 ^ 63
      → length (items a) < fuel
      → (run Val t items fuel b (some (new Val t a) ∷ args) ≡ some (ok (map row (items a))))
        × (run Val t items fuel b (some (new Val t' other) ∷ args) ≡ some (ok []))
  unfolding run filter
  run-new fuel b a t' other args s ne h k = (
    rw (run, filter, (get_ref-new Val b t t' a (λ e. ne (sym e))).0, s)
        (scan-drop a (items a) 0 fuel h refl k),
    rw (run, filter, (get_ref-new Val b t' t other ne).1) (scan-none fuel (omega arith)),
  )
