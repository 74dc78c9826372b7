-- ===== src/Database/State.antt =====
-- include/zidanedb/database.h: the members of `Database`, its files, and how a method reaches them.
use zidanedb.Base.{ℕ, ◌+◌, Option, none, some, [], Bool, true, false, length}
use zidanedb.Base.Results.{Result, ok, throws, could_not_open_db, database_closed, filesystem_error}
use zidanedb.Base.Exec.{Exec, zoom}
use zidanedb.Stream.{Bytes}
use zidanedb.Utils.{string_size}
use zidanedb.Index.{Index, FileExec}
use zidanedb.Database.Report.{RecoveryReason, RecoveryAction, RecoveryReport}

pub data ScanStatus : Type 0 where
  success truncated invalid_length checksum_mismatch invalid_type : ScanStatus

pub record ScanResult : Type 0 where
  pub status : ScanStatus
  pub last_valid_record_offset : ℕ
  pub failing_record_offset : ℕ

-- The members, with the files at `db_path_` and `idx_path_`.
pub record Database : Type 0 where
  pub db_file : Option Bytes
  pub idx_file : Option Bytes
  pub index : Option Index
  pub magic : Bytes
  pub version : ℕ
  pub report : RecoveryReport
  pub closed : Bool

abbrev pub DbExec : Type 0 → Type 0
DbExec A = Exec Database A

-- The object before its constructor's body, over the two files.
unfoldable pub unopened : Option Bytes → Option Bytes → Database
unopened db idx = record {
  db_file = db;
  idx_file = idx;
  index = none;
  magic = [];
  version = 0;
  report = record {
    reason = RecoveryReason.none;
    action = RecoveryAction.none;
    truncated_bytes = 0;
  };
  closed = false;
}

-- An action on the file at `idx_path_`.
abbrev pub on_index : {A : Type 0} → FileExec A → DbExec A
on_index m = zoom (λ (d : Database). d.idx_file) (λ f d. record d { idx_file = f }) m

-- `index_ = ...`
abbrev pub assign_index : Index → DbExec (Unit {0})
assign_index ix d = (ok tt, record d { index = some ix })

abbrev or_closed : Option Index → Result Index
or_closed none = throws database_closed
or_closed (some ix) = ok ix

abbrev unless_closed : Bool → Option Index → Result Index
unless_closed true ix = throws database_closed
unless_closed false ix = or_closed ix

-- `ensure_open`, with the object that `index_` then points at
unfoldable pub ensure_open : Database → Result Index
ensure_open d = unless_closed d.closed d.index

-- `std::ifstream file{db_path_}; if (!file) throw ...;`
abbrev opened : Option Bytes → Result Bytes
opened none = throws could_not_open_db
opened (some file) = ok file

unfoldable pub open_db : Database → Result Bytes
open_db d = opened d.db_file

abbrev sized : Option Bytes → Result ℕ
sized none = throws filesystem_error
sized (some file) = ok (length file)

-- `std::filesystem::file_size(db_path_)`
unfoldable pub db_file_size : Database → Result ℕ
db_file_size d = sized d.db_file

unfoldable pub header_size : Database → ℕ
unfolding string_size
header_size d = string_size d.magic + 4
