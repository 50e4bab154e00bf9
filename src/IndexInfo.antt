-- ===== src/IndexInfo.antt =====
-- src/vtab/index_info.rs: the query plan that SQLite and a virtual table exchange. A C pointer is
-- null, points to a static string, or to a block of the heap of SQLite; an f64 is its bits.
pub mod Passing
pub mod Distinct
pub mod Constraints
pub mod Ops
pub mod IndexStr
pub mod Fields
use sqlite3_ext.Prelude.{
  ℕ, zero, suc, ◌+◌, ◌-◌, ◌%◌, ◌^◌, Bool, true, false, not, List, [], ◌∷◌, ◌==◌, ltb, if◌then◌else◌,
  Outcome, ok, err, panic, bind, map_ok, Method, ◌>>=◌, ◌>>◌, pure, lift, gets, modify, throw,
  Option, none, some, length, Text,
}
use sqlite3_ext.Prelude.Int.{ℤ, pos, negsuc, ◌-ℤ◌}
use sqlite3_ext.Version.{Build, match_version, require_version}
use sqlite3_ext.Ffi.{str_to_sqlite3, to_bytes}

pub data Pointer : Type 0 where
  null : Pointer
  static : List ℕ → Pointer
  block : ℕ → Pointer

-- The blocks that are allocated, each a C string with its nul. An address is used once.
pub record Heap : Type 0 where
  pub content : ℕ → Option (List ℕ)
  pub fresh : ℕ

-- `sqlite3_index_info_sqlite3_index_constraint`, `.._constraint_usage` and `.._orderby`
pub record Constraint : Type 0 where
  pub i_column : ℤ
  pub op : ℕ
  pub usable : ℕ

pub record Usage : Type 0 where
  pub argv_index : ℤ
  pub omit : ℕ

pub record OrderBy : Type 0 where
  pub i_column : ℤ
  pub desc : ℕ

pub record IndexInfo : Type 0 where
  pub a_constraint : List Constraint
  pub a_constraint_usage : List Usage
  pub a_order_by : List OrderBy
  pub idx_num : ℤ
  pub idx_str : Pointer
  pub need_to_free_idx_str : ℕ
  pub order_by_consumed : ℕ
  pub estimated_cost : ℕ
  pub estimated_rows : ℤ
  pub idx_flags : ℤ
  pub col_used : ℕ
  pub heap : Heap

abbrev pub update : (ℕ → Option (List ℕ)) → ℕ → Option (List ℕ) → ℕ → Option (List ℕ)
update f i v j = if j == i then v else f j

-- `sqlite3_free`: a block that is not allocated, or a static string, must not be freed.
unfoldable pub free : Pointer → Heap → Outcome Heap
free null h = ok h
free (static s) h = panic
free (block i) h = elim (h.content i) [
  | some s ↦ ok (record h { content = update h.content i none })
  | none ↦ panic
]

-- The string at a pointer, through `CStr::from_ptr`.
unfoldable pub read : Pointer → Heap → Outcome (Option (List ℕ))
read null h = ok none
read (static s) h = ok (some s)
read (block i) h = elim (h.content i) [ some s ↦ ok (some s) | none ↦ panic ]

-- Where the C string that `str_to_sqlite3` makes is put.
abbrev pub allocate : Option (List ℕ) → Heap → Pointer × Heap
allocate none h = (null, h)
allocate (some s) h =
    (block h.fresh, record { content = update h.content h.fresh (some s); fresh = h.fresh + 1 })

abbrev pub freed : IndexInfo → Outcome IndexInfo
freed info =
    if info.need_to_free_idx_str == 0
    then ok info
    else map_ok (λ h. record info { heap = h }) (free info.idx_str info.heap)

abbrev pub index_num : IndexInfo → ℤ
index_num info = info.idx_num

abbrev pub set_index_num : ℤ → IndexInfo → IndexInfo
set_index_num val info = record info { idx_num = val }

-- `to_str` is std's check for UTF-8.
unfoldable pub index_str : (Text → Option Text) → IndexInfo → Outcome (Option Text)
index_str to_str info =
    map_ok (λ p. elim p [ none ↦ none | some s ↦ to_str (to_bytes s) ])
      (read info.idx_str info.heap)

-- The new string, if it could be made. A text is its length, at the start of the bytes that can
-- be read from its address on.
abbrev pub put_str : Outcome (Option (List ℕ)) → Method IndexInfo (Unit {0})
put_str (ok s) info =
    let (p, h) = allocate s info.heap in
    (ok tt, record info { idx_str = p; need_to_free_idx_str = 1; heap = h })
put_str (err e) info = (err e, info)
put_str panic info = (panic, info)

abbrev pub put_index_str : (ℕ → Bool) → Option (List ℕ × ℕ) → Method IndexInfo (Unit {0})
put_index_str malloc none info = (ok tt, record info { idx_str = null; need_to_free_idx_str = 0 })
put_index_str malloc (some (memory, len)) info = put_str (str_to_sqlite3 malloc memory len) info

unfoldable pub set_index_str : (ℕ → Bool) → Option (List ℕ × ℕ) → Method IndexInfo (Unit {0})
set_index_str malloc val info = elim (freed info) [
  | ok info' ↦ put_index_str malloc val info'
  | err e ↦ (err e, info)
  | panic ↦ (panic, info)
]

unfoldable pub set_index_str_static : List ℕ → Method IndexInfo (Unit {0})
set_index_str_static val info = elim (freed info) [
  | ok info' ↦ (ok tt, record info' { idx_str = static val; need_to_free_idx_str = 0 })
  | err e ↦ (err e, info)
  | panic ↦ (panic, info)
]

abbrev pub as_flag : Bool → ℕ
as_flag true = 1
as_flag false = 0

abbrev pub order_by_consumed : IndexInfo → Bool
order_by_consumed info = not (info.order_by_consumed == 0)

abbrev pub set_order_by_consumed : Bool → IndexInfo → IndexInfo
set_order_by_consumed val info = record info { order_by_consumed = as_flag val }

abbrev pub estimated_cost : IndexInfo → ℕ
estimated_cost info = info.estimated_cost

abbrev pub set_estimated_cost : ℕ → IndexInfo → IndexInfo
set_estimated_cost val info = record info { estimated_cost = val }

unfoldable pub estimated_rows : Build → IndexInfo → Outcome ℤ
estimated_rows b info = require_version b 3008002 (ok info.estimated_rows)

unfoldable pub set_estimated_rows : Build → ℤ → IndexInfo → IndexInfo
set_estimated_rows b val info =
    match_version b ((3008220, record info { estimated_rows = val }) ∷ []) info

-- `as i32` of a usize, `as usize` of an i32, and the same to and from a u32.
abbrev pub to_i32 : ℕ → ℤ
to_i32 n = if ltb (n % 2 ^ 32) (2 ^ 31) then pos (n % 2 ^ 32) else negsuc (2 ^ 32 - n % 2 ^ 32 - 1)

abbrev pub to_unsigned : ℕ → ℤ → ℕ
to_unsigned w (pos n) = n % 2 ^ w
to_unsigned w (negsuc n) = 2 ^ w - 1 - n % 2 ^ w

unfoldable pub scan_flags : Build → IndexInfo → Outcome ℕ
scan_flags b info = require_version b 3009000 (ok (to_unsigned 64 info.idx_flags))

unfoldable pub set_scan_flags : Build → ℕ → IndexInfo → IndexInfo
set_scan_flags b val info =
    match_version b ((3009000, record info { idx_flags = to_i32 val }) ∷ []) info

unfoldable pub columns_used : Build → IndexInfo → Outcome ℕ
columns_used b info = require_version b 3010000 (ok info.col_used)
