-- ===== src/IndexInfo/Ops.antt =====
-- The operators of constraints.
use sqlite3_ext.Prelude.{
  ℕ, ◌≤◌, ◌≡◌, refl, ◌==◌, leb, ◌&&◌, if◌then◌else◌, arith, Outcome, ok, panic, ◌↔◌,
}

pub data ConstraintOp : Type 0 where
  eq gt le lt ge match like glob regexp ne is_not is_not_null is_null is limit offset : ConstraintOp
  function : ℕ → ConstraintOp

unfoldable pub from_sqlite : ℕ → Outcome ConstraintOp
from_sqlite val =
    if val == 2
    then ok eq
    else if val == 4
    then ok gt
    else if val == 8
    then ok le
    else if val == 16
    then ok lt
    else if val == 32
    then ok ge
    else if val == 64
    then ok match
    else if val == 65
    then ok like
    else if val == 66
    then ok glob
    else if val == 67
    then ok regexp
    else if val == 68
    then ok ne
    else if val == 69
    then ok is_not
    else if val == 70
    then ok is_not_null
    else if val == 71
    then ok is_null
    else if val == 72
    then ok is
    else if val == 73
    then ok limit
    else if val == 74
    then ok offset
    else if leb 150 val && leb val 255
    then ok (function val)
    else panic

unfoldable pub assert_valid_function_constraint : ConstraintOp → Outcome (Unit {0})
assert_valid_function_constraint (function val) = if leb 150 val then ok tt else panic
assert_valid_function_constraint op = panic

-- The number of an operator in SQLite.
abbrev pub op_code : ConstraintOp → ℕ
op_code eq = 2
op_code gt = 4
op_code le = 8
op_code lt = 16
op_code ge = 32
op_code match = 64
op_code like = 65
op_code glob = 66
op_code regexp = 67
op_code ne = 68
op_code is_not = 69
op_code is_not_null = 70
op_code is_null = 71
op_code is = 72
op_code limit = 73
op_code offset = 74
op_code (function n) = n

-- An operator that SQLite has: a function that overloads one has a number from 150 on.
abbrev pub IsOp : ConstraintOp → Type 0
IsOp (function n) = (150 ≤ n) × (n ≤ 255)
IsOp op = Unit

valid-op : (op : ConstraintOp) → IsOp op → from_sqlite (op_code op) ≡ ok op
unfolding from_sqlite
valid-op (function n) h = ground arith
valid-op op h = refl

-- A number is read as an operator exactly if it is the number of that operator; all numbers that
-- belong to none panic.
from_sqlite-op_code :
    (val : ℕ) (op : ConstraintOp) → (from_sqlite val ≡ ok op) ↔ ((op_code op ≡ val) × IsOp op)
unfolding from_sqlite
from_sqlite-op_code val op = (λ h. (ground arith, ground arith), λ (e, v). rw (← e) (valid-op op v))
