-- ===== src/Query/Prepare.antt =====
-- src/query/mod.rs: preparing a statement, its text and parameters, and the columns of its rows.
pub mod Columns
use sqlite3_ext.Prelude.{
  ℕ, zero, suc, ◌+◌, List, [], ◌∷◌, leb, if◌then◌else◌, length, drop, get_elem?, Option, none, some,
  Outcome, ok, err, panic, bind, map_ok, ok_or, unwrap, utf8_error, Text,
}
use sqlite3_ext.Prelude.Int.{ℤ, as_i32}
use sqlite3_ext.Version.{Build, match_version}
use sqlite3_ext.Types.{from_sqlite_desc}
use sqlite3_ext.Types.Codes.{sqlite_nomem, sqlite_misuse}
use sqlite3_ext.Query.Statement.{QueryState, ready}

-- SQLite's functions on a connection and on its statements, which are `Raw`. To prepare is given
-- the text and its length as an int, and returns the code, the statement or null, and where the
-- rest of the text begins. The names of a column are C strings, or null.
pub record PrepareApi (Conn Raw : Type 0) : Type 0 where
  pub prepare_v3 : List ℕ → ℤ → ℕ → Conn → ℕ × Option Raw × ℕ
  pub prepare_v2 : List ℕ → ℤ → Conn → ℕ × Option Raw × ℕ
  pub errmsg : Conn → Text
  pub column_count : Raw → ℕ
  pub column_name : Raw → ℕ → Option Text
  pub column_database_name : Raw → ℕ → Option Text
  pub column_table_name : Raw → ℕ → Option Text
  pub column_origin_name : Raw → ℕ → Option Text
  pub column_decltype : Raw → ℕ → Option Text
  pub sql : Raw → Text
  pub parameter_name : Raw → ℕ → Option Text
  -- std's check for UTF-8
  pub to_str : Text → Option Text

pub record Column : Type 0 where
  pub position : ℕ

-- The fields of a Statement; the column objects are made when it is prepared.
pub record PreparedStatement (Raw : Type 0) : Type 0 where
  pub base : Raw
  pub state : QueryState
  pub columns : List Column

-- `(0..len).map(|i| Column::new(stmt, i)).collect()`, from the position i on.
unfoldable pub columns_from : ℕ → ℕ → List Column
columns_from i zero = []
columns_from i (suc n) = record { position = i } ∷ columns_from (suc i) n

module _ {Conn Raw : Type 0} (api : PrepareApi Conn Raw) where
  abbrev pub new_statement : Raw → PreparedStatement Raw
  new_statement stmt = record {
    base = stmt;
    state = ready;
    columns = columns_from 0 (api.column_count stmt);
  }

  abbrev prepared : Option Raw → Option (PreparedStatement Raw)
  prepared none = none
  prepared (some stmt) = some (new_statement stmt)

  -- `sql.get_unchecked(offset..)`
  abbrev get_unchecked : List ℕ → ℕ → Outcome (List ℕ)
  get_unchecked text offset = if leb offset (length text) then ok (drop offset text) else panic

  abbrev prepare_result :
      Text → List ℕ → ℕ × Option Raw × ℕ → Outcome (Option (PreparedStatement Raw) × List ℕ)
  prepare_result msg text (rc, stmt, tail) =
      bind (from_sqlite_desc api.to_str rc msg)
        λ _. bind (get_unchecked text tail) λ rest. ok (prepared stmt, rest)

  unfoldable pub prepare_first :
      Build → List ℕ → Conn → Outcome (Option (PreparedStatement Raw) × List ℕ)
  prepare_first b text conn = prepare_result (api.errmsg conn) text (
      match_version b ((3020000, api.prepare_v3 text (as_i32 (length text)) 0 conn) ∷ [])
        (api.prepare_v2 text (as_i32 (length text)) conn))

  unfoldable pub prepare : Build → List ℕ → Conn → Outcome (PreparedStatement Raw)
  prepare b text conn = bind (prepare_first b text conn) λ r. ok_or r.0 sqlite_misuse

  -- `CStr::from_ptr(ret).to_str()?`
  abbrev to_text : Text → Outcome Text
  to_text s = ok_or (api.to_str s) utf8_error

  unfoldable pub sql : PreparedStatement Raw → Outcome Text
  sql s = to_text (api.sql s.base)

  unfoldable pub parameter_name : PreparedStatement Raw → ℕ → Option Text
  parameter_name s position = api.parameter_name s.base position

  unfoldable pub column_count : PreparedStatement Raw → ℕ
  column_count s = api.column_count s.base

  -- `QueryResult::len` and its Index and IndexMut
  unfoldable pub len : PreparedStatement Raw → ℕ
  len s = column_count s

  unfoldable pub index : ℕ → PreparedStatement Raw → Outcome Column
  index i s = unwrap (get_elem? s.columns i)

  unfoldable pub name : Raw → Column → Outcome Text
  name stmt c = elim (api.column_name stmt c.position) [
    | none ↦ err sqlite_nomem
    | some s ↦ to_text s
  ]

  -- A name that may be null.
  abbrev optional : Option Text → Outcome (Option Text)
  optional none = ok none
  optional (some s) = map_ok some (to_text s)

  unfoldable pub database_name : Raw → Column → Outcome (Option Text)
  database_name stmt c = optional (api.column_database_name stmt c.position)

  unfoldable pub table_name : Raw → Column → Outcome (Option Text)
  table_name stmt c = optional (api.column_table_name stmt c.position)

  unfoldable pub origin_name : Raw → Column → Outcome (Option Text)
  origin_name stmt c = optional (api.column_origin_name stmt c.position)

  unfoldable pub decltype : Raw → Column → Outcome (Option Text)
  decltype stmt c = optional (api.column_decltype stmt c.position)
