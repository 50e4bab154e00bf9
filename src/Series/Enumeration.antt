-- ===== src/Series/Enumeration.antt =====
-- The values that a cursor goes through.
use sqlite3_ext.Prelude.{
  ℕ, zero, suc, ◌+◌, ◌^◌, ◌≤◌, ◌<◌, ◌≡◌, refl, true, false, List, [], ◌∷◌, arith, ok, some, ◌⊎◌,
  inl, inr,
}
use sqlite3_ext.Prelude.Int.{
  ℤ, pos, negsuc, pos_part, neg_part, ◌+ℤ◌, ◌-ℤ◌, ◌≤ℤ◌, ◌<ℤ◌, ltb_ℤ, +ℤ_parts, -ℤ_parts,
}
use sqlite3_ext.Series.{Cursor, checked, next, eof, scan, column}

-- n values from v on, upwards and downwards, s apart.
abbrev pub upward : ℤ → ℕ → ℕ → List ℤ
upward v s zero = []
upward v s (suc n) = v ∷ upward (v +ℤ pos s) s n

abbrev pub downward : ℤ → ℕ → ℕ → List ℤ
downward v s zero = []
downward v s (suc n) = v ∷ downward (v -ℤ pos s) s n

-- n is how many of the values v, v + s, v + 2 s and so on are at most `max`.
abbrev pub CountUp : ℤ → ℕ → ℤ → ℕ → Type 0
CountUp v s max zero = max <ℤ v
CountUp v s max (suc n) = (v ≤ℤ max) × CountUp (v +ℤ pos s) s max n

abbrev pub CountDown : ℤ → ℕ → ℤ → ℕ → Type 0
CountDown v s min zero = v <ℤ min
CountDown v s min (suc n) = (min ≤ℤ v) × CountDown (v -ℤ pos s) s min n

abbrev pub InI64 : ℤ → Type 0
InI64 z = (pos_part z < 2 ^ 63) × (neg_part z ≤ 2 ^ 63)

pub checked-InI64 : (z : ℤ) → InI64 z → checked z ≡ ok z
checked-InI64 (pos n) h = ground arith
checked-InI64 (negsuc n) h = ground arith

pos_add_one : (r : ℕ) → pos r +ℤ pos 1 ≡ pos (r + 1)
unfolding ◌+ℤ◌
pos_add_one r = ground arith

next-up :
    (c : Cursor) (s r : ℕ)
    → c.desc ≡ false
    → c.step ≡ pos s
    → c.rowid ≡ pos r
    → InI64 (c.value +ℤ pos s)
    → r + 1 < 2 ^ 63
    → next c ≡ ok (record c { value = c.value +ℤ pos s; rowid = pos (r + 1) })
unfolding next
next-up c s r d e q h k = rw (
  d,
  e,
  q,
  checked-InI64 (c.value +ℤ pos s) h,
  pos_add_one r,
  checked-InI64 (pos (r + 1)) (omega arith),
)

next-down :
    (c : Cursor) (s r : ℕ)
    → c.desc ≡ true
    → c.step ≡ pos s
    → c.rowid ≡ pos r
    → InI64 (c.value -ℤ pos s)
    → r + 1 < 2 ^ 63
    → next c ≡ ok (record c { value = c.value -ℤ pos s; rowid = pos (r + 1) })
unfolding next
next-down c s r d e q h k = rw (
  d,
  e,
  q,
  checked-InI64 (c.value -ℤ pos s) h,
  pos_add_one r,
  checked-InI64 (pos (r + 1)) (omega arith),
)

abbrev pub at : Cursor → ℤ → ℕ → Cursor
at c v r = record c { value = v; rowid = pos r }

pub ltb_ℤ-true : (x y : ℤ) → x <ℤ y → ltb_ℤ x y ≡ true
ltb_ℤ-true x y h = ground arith

ltb_ℤ-false : (x y : ℤ) → y ≤ℤ x → ltb_ℤ x y ≡ false
ltb_ℤ-false x y h = ground arith

eof-up : (c : Cursor) → c.desc ≡ false → eof c ≡ ltb_ℤ c.max_value c.value
unfolding eof
eof-up c d = rw d refl

-- A ℤ is a positive or a negative part, never both.
pub one_part : (z : ℤ) → (pos_part z ≡ 0) ⊎ (neg_part z ≡ 0)
one_part (pos n) = inr refl
one_part (negsuc n) = inl refl

up-InI64 :
    (v m : ℤ) (s : ℕ) → neg_part v ≤ 2 ^ 63 → InI64 (m +ℤ pos s) → v ≤ℤ m → InI64 (v +ℤ pos s)
up-InI64 v m s lo hi h =
    let p = +ℤ_parts v (pos s) in
    let q = +ℤ_parts m (pos s) in
    elim (one_part (v +ℤ pos s)) [
      | inl e ↦ (omega arith, omega arith)
      | inr e ↦ (omega arith, omega arith)
    ]

pub scan-up :
    (n fuel : ℕ) (c : Cursor) (v : ℤ) (s r : ℕ)
    → c.desc ≡ false
    → c.step ≡ pos s
    → neg_part v ≤ 2 ^ 63
    → InI64 (c.max_value +ℤ pos s)
    → r + n < 2 ^ 63
    → CountUp v s c.max_value n
    → n < fuel
    → scan fuel (at c v r) ≡ some (ok (upward v s n))
unfolding scan column
scan-up zero (suc fuel) c v s r d e lo hi k m f =
    rw (eof-up (at c v r) d, ltb_ℤ-true (c.max_value) v m) refl
scan-up (suc n) (suc fuel) c v s r d e lo hi k m f =
    let b = up-InI64 v c.max_value s lo hi (m.0) in
    rw
      (
        eof-up (at c v r) d,
        ltb_ℤ-false c.max_value v (m.0),
        next-up (at c v r) s r d e refl b (omega arith),
        scan-up n fuel c (v +ℤ pos s) s (r + 1) d e (b.1) hi (omega arith) (m.1) (omega arith),
      )
      refl
scan-up n zero c v s r d e lo hi k m f = absurd (omega arith)

eof-down : (c : Cursor) → c.desc ≡ true → eof c ≡ ltb_ℤ c.value c.min_value
unfolding eof
eof-down c d = rw d refl

down-InI64 :
    (v m : ℤ) (s : ℕ) → pos_part v < 2 ^ 63 → InI64 (m -ℤ pos s) → m ≤ℤ v → InI64 (v -ℤ pos s)
down-InI64 v m s hi lo h =
    let p = -ℤ_parts v (pos s) in
    let q = -ℤ_parts m (pos s) in
    elim (one_part (v -ℤ pos s)) [
      | inl e ↦ (omega arith, omega arith)
      | inr e ↦ (omega arith, omega arith)
    ]

pub scan-down :
    (n fuel : ℕ) (c : Cursor) (v : ℤ) (s r : ℕ)
    → c.desc ≡ true
    → c.step ≡ pos s
    → pos_part v < 2 ^ 63
    → InI64 (c.min_value -ℤ pos s)
    → r + n < 2 ^ 63
    → CountDown v s c.min_value n
    → n < fuel
    → scan fuel (at c v r) ≡ some (ok (downward v s n))
unfolding scan column
scan-down zero (suc fuel) c v s r d e hi lo k m f =
    rw (eof-down (at c v r) d, ltb_ℤ-true v c.min_value m) refl
scan-down (suc n) (suc fuel) c v s r d e hi lo k m f =
    let b = down-InI64 v c.min_value s hi lo (m.0) in
    rw
      (
        eof-down (at c v r) d,
        ltb_ℤ-false v c.min_value (m.0),
        next-down (at c v r) s r d e refl b (omega arith),
        scan-down n fuel c (v -ℤ pos s) s (r + 1) d e (b.0) lo (omega arith) (m.1) (omega arith),
      )
      refl
scan-down n zero c v s r d e hi lo k m f = absurd (omega arith)
