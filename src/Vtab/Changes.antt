-- ===== src/Vtab/Changes.antt =====
-- src/vtab/mod.rs: ChangeInfo, the arguments of an INSERT, UPDATE or DELETE on a virtual table, and
-- the conflict modes. `V` stands for the values of SQLite.
pub mod Requests
use sqlite3_ext.Prelude.{
  ℕ, ◌-◌, Bool, true, List, [], ◌∷◌, ◌==◌, leb, if◌then◌else◌, length, take, drop, get_elem?,
  Outcome, ok, panic, bind, unwrap,
}
use sqlite3_ext.Version.{Build, match_version}

pub data ChangeType : Type 0 where
  insert delete update : ChangeType

pub data ConflictMode : Type 0 where
  rollback ignore fail abort replace : ConflictMode

pub record ChangeInfo (V : Type 0) : Type 0 where
  pub argc : ℕ
  pub argv : List V

module _ {V : Type 0} where
  -- `&**self.argv`; the assertion of a debug build is the same condition.
  unfoldable pub rowid : ChangeInfo V → Outcome V
  rowid c = unwrap (get_elem? c.argv 0)

  -- `slice::from_raw_parts(self.argv.offset(1), self.argc - 1)`
  unfoldable pub args : ChangeInfo V → Outcome (List V)
  args c =
      if leb 1 c.argc
      then (if leb c.argc (length c.argv) then ok (take (c.argc - 1) (drop 1 c.argv)) else panic)
      else panic

  unfoldable pub change_type : (V → Bool) → ChangeInfo V → Outcome ChangeType
  change_type is_null c = bind (args c) λ rest.
      if length rest == 0
      then ok delete
      else bind (rowid c) λ id. ok (if is_null id then insert else update)

unfoldable pub from_sqlite : ℕ → Outcome ConflictMode
from_sqlite val =
    if val == 1
    then ok rollback
    else if val == 2
    then ok ignore
    else if val == 3
    then ok fail
    else if val == 4
    then ok abort
    else if val == 5
    then ok replace
    else panic

-- `on_conflict` is what sqlite3_vtab_on_conflict returns.
unfoldable pub conflict_mode : Build → ℕ → Outcome ConflictMode
conflict_mode b on_conflict = match_version b ((3007007, from_sqlite on_conflict) ∷ []) (ok abort)
