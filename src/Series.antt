-- ===== src/Series.antt =====
-- examples/generate_series.rs: the table-valued function generate_series. An i64 that overflows is
-- a panic, as in the build that runs the tests.
pub mod Enumeration
pub mod Arguments
pub mod Plan
pub mod Taking
pub mod Reversal
use sqlite3_ext.Prelude.{
  ℕ, zero, suc, ◌+◌, ◌*◌, ◌/◌, ◌%◌, ◌≡◌, Bool, true, false, not, ◌&&◌, ◌||◌, List, [], ◌∷◌, ◌==◌,
  ltb, leb, if◌then◌else◌, Outcome, ok, err, panic, bind, Option, none, some,
}
use sqlite3_ext.Prelude.Int.{ℤ, pos, negsuc, ◌+ℤ◌, ◌-ℤ◌, ltb_ℤ, eqb_ℤ, rem_ℤ, fits}

-- Arithmetic of i64.
abbrev pub checked : ℤ → Outcome ℤ
checked z = if fits 63 z then ok z else panic

abbrev pub i64_max : ℤ
i64_max = pos 9223372036854775807

-- `struct Cursor`
pub record Cursor : Type 0 where
  pub desc : Bool
  pub rowid : ℤ
  pub value : ℤ
  pub min_value : ℤ
  pub max_value : ℤ
  pub step : ℤ

-- `Cursor::default()`, by `open`
abbrev pub default_cursor : Cursor
default_cursor = record {
  desc = false;
  rowid = pos 0;
  value = pos 0;
  min_value = pos 0;
  max_value = pos 0;
  step = pos 0;
}

-- `query_plan & 2 ^ k != 0`
abbrev pub has_bit : ℕ → ℕ → Bool
has_bit plan bit = ((plan / bit) % 2) == 1

-- `query_plan |= bit`
abbrev pub with_bit : ℕ → ℕ → ℕ
with_bit plan bit = if has_bit plan bit then plan else plan + bit

-- An argument of `filter`: SQL NULL, or what `get_i64` returns for it.
abbrev pub Arg : Type 0
Arg = Option ℤ

abbrev pub any_null : List Arg → Bool
any_null [] = false
any_null (none ∷ args) = true
any_null (some v ∷ args) = any_null args

-- `(*args.next().unwrap()).get_i64()`; get_i64 of NULL is 0.
abbrev pub next_arg : List Arg → Outcome (ℤ × List Arg)
next_arg [] = panic
next_arg (none ∷ args) = ok (pos 0, args)
next_arg (some v ∷ args) = ok (v, args)

-- The step and the plan, from the argument; `-self.step` overflows at i64::MIN.
unfoldable pub set_step : ℕ → ℤ → Outcome (ℤ × ℕ)
set_step plan v =
    if ltb_ℤ v (pos 0)
    then bind (checked (pos 0 -ℤ v))
        (λ s. ok (s, if has_bit plan 16 then plan else with_bit plan 8))
    else ok (if eqb_ℤ v (pos 0) then pos 1 else v, plan)

abbrev pub magnitude : ℤ → ℕ
magnitude (pos n) = n
magnitude (negsuc n) = suc n

-- The value that a descending enumeration begins with.
unfoldable pub last_value : Cursor → Outcome ℤ
last_value c =
    if ltb_ℤ (pos 0) c.step
    then (bind (checked (c.max_value -ℤ c.min_value))
        λ span. checked (c.max_value -ℤ rem_ℤ span (magnitude c.step)))
    else ok c.max_value

-- Where the enumeration begins.
abbrev pub start_at : ℕ → Cursor → Outcome Cursor
start_at plan c =
    if has_bit plan 8
    then (bind (last_value c) λ v. ok (record c { desc = true; value = v; rowid = pos 1 }))
    else ok (record c { desc = false; value = c.min_value; rowid = pos 1 })

abbrev pub take_start : ℕ → Cursor → List Arg → Outcome (Cursor × List Arg)
take_start plan c args =
    if has_bit plan 1
    then bind (next_arg args) (λ a. ok (record c { min_value = a.0 }, a.1))
    else ok (c, args)

abbrev pub take_stop : ℕ → Cursor → List Arg → Outcome (Cursor × List Arg)
take_stop plan c args =
    if has_bit plan 2
    then bind (next_arg args) (λ a. ok (record c { max_value = a.0 }, a.1))
    else ok (record c { max_value = i64_max }, args)

abbrev pub take_step : ℕ → Cursor → List Arg → Outcome (Cursor × ℕ)
take_step plan c args =
    if has_bit plan 4
    then bind (next_arg args)
        (λ a. bind (set_step plan a.0) (λ s. ok (record c { step = s.0 }, s.1)))
    else ok (record c { step = pos 1 }, plan)

unfoldable pub filter : ℕ → List Arg → Cursor → Outcome Cursor
filter plan args c =
    if any_null args
    then ok (record c { max_value = negsuc 0 })
    else bind (take_start plan c args)
        λ a. bind (take_stop plan a.0 a.1) λ b. bind (take_step plan b.0 b.1) λ s. start_at s.1 s.0

unfoldable pub next : Cursor → Outcome Cursor
next c =
    bind (checked (if c.desc then c.value -ℤ c.step else c.value +ℤ c.step))
      λ v. bind (checked (c.rowid +ℤ pos 1)) λ r. ok (record c { value = v; rowid = r })

unfoldable pub eof : Cursor → Bool
eof c = if c.desc then ltb_ℤ c.value c.min_value else ltb_ℤ c.max_value c.value

unfoldable pub column : ℕ → Cursor → ℤ
column idx c =
    if idx == 1
    then c.min_value
    else if idx == 2
    then c.max_value
    else if idx == 3
    then c.step
    else c.value

-- SQLite's loop over a cursor after `filter`: it reads the value of each row until `eof`. `none`
-- means that the fuel ran out.
unfoldable pub scan : ℕ → Cursor → Option (Outcome (List ℤ))
unfolding eof
scan zero c = none
scan (suc fuel) c =
    let rest : Option (Outcome (List ℤ)) = elim (next c) [
      | ok c' ↦ scan fuel c'
      | err e ↦ some (err e)
      | panic ↦ some panic
    ] in
    if eof c
    then some (ok [])
    else elim rest [ some r ↦ some (bind r λ xs. ok (column 0 c ∷ xs)) | none ↦ none ]

-- `filter`, then the loop.
unfoldable pub run : ℕ → ℕ → List Arg → Cursor → Option (Outcome (List ℤ))
run fuel plan args c = elim (filter plan args c) [
  | ok c' ↦ scan fuel c'
  | err e ↦ some (err e)
  | panic ↦ some panic
]
