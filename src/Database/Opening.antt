-- ===== src/Database/Opening.antt =====
-- The parts of the constructor of `Database`: the header of an existing log, and the last step, which
-- marks the index as unclean. Opening/Created is about a database without files, Opening/Recovered
-- about one whose index has to be built again, Opening/Reopened about one that was closed.
pub mod Created
pub mod Recovered
pub mod Broken
pub mod Reopened
pub mod Total
use zidanedb.Base.{
  ℕ, ◌+◌, ◌^◌, ◌≤◌, ◌<◌, ◌≡◌, refl, ap, ◌∙◌, Option, none, some, List, [], ◌++◌, Bool, true, false,
  not, if◌then◌else◌, arith, length, All, length-append, append_assoc, bytes_eq, bytes_eq_self,
  eq→==,
}
use zidanedb.Base.Results.{Result, ok}
use zidanedb.Base.Exec.{reads, ◌>>=◌, continue}
use zidanedb.Constants.{codes, db_magic, db_version}
use zidanedb.Stream.{Bytes, stream}
use zidanedb.Utils.{write_uint32, string_size}
use zidanedb.Utils.Integers.{read_uint32-write, length-write_uint32}
use zidanedb.Utils.Strings.{string_bytes, read_string-string_bytes, length-string_bytes}
use zidanedb.Record.{Crc32c, Record}
use zidanedb.Record.RoundTrip.{Fits}
use zidanedb.Record.Sequence.{records_bytes}
use zidanedb.Index.{Index, set_index_clean}
use zidanedb.Index.Represents.{Holds}
use zidanedb.Index.Header.{with_clean}
use zidanedb.Index.Header.Fields.{set_index_clean-Holds}
use zidanedb.Database.{
  Database, DbExec, CreateDirectory, RecoveryReason, RecoveryAction, RecoveryReport, ensure_open,
  header_size, on_index, assign_index, unopened, load, load_header, extension, open_new,
  open_existing, construct, open_database,
}
use zidanedb.Database.Replay.{replay}
use zidanedb.Database.Contents.{Stores}

-- The header of a data log.
abbrev pub log_header : Bytes
log_header = string_bytes db_magic ++ write_uint32 db_version

abbrev pub no_recovery : RecoveryReport
no_recovery = record {
  reason = RecoveryReason.none;
  action = RecoveryAction.none;
  truncated_bytes = 0;
}

abbrev pub full_rebuild : RecoveryReason → ℕ → RecoveryReport
full_rebuild reason truncated = record {
  reason = reason;
  action = RecoveryAction.full_index_rebuild;
  truncated_bytes = truncated;
}

-- An object behind `load` or `setup` of its log.
abbrev pub session : Option Bytes → Option Bytes → Option Index → RecoveryReport → Database
session db idx index report = record {
  db_file = db;
  idx_file = idx;
  index = index;
  magic = db_magic;
  version = db_version;
  report = report;
  closed = false;
}

pub length-log_header : length log_header ≡ 24
unfolding string_size db_magic
length-log_header = omega (
  arith,
  length-append (string_bytes db_magic) (write_uint32 db_version),
  length-string_bytes db_magic,
  length-write_uint32 db_version,
)

length-db_magic : length db_magic ≡ 16
unfolding db_magic
length-db_magic = refl

load_header-log : (rest : Bytes) → load_header (log_header ++ rest) ≡ ok (db_magic, db_version)
unfolding load_header
load_header-log rest =
    rw
      (
        append_assoc (string_bytes db_magic) (write_uint32 db_version) rest,
        read_string-string_bytes db_magic (write_uint32 db_version ++ rest) (length db_magic) 0
            (omega arith) (omega (arith, length-db_magic)),
        bytes_eq_self db_magic,
        read_uint32-write db_version rest (0 + string_size db_magic) (omega arith),
      )
      refl

-- `load` of a log with a valid header.
pub load-log :
    (rest : Bytes) (idx : Option Bytes)
    → load (unopened (some (log_header ++ rest)) idx)
      ≡ (ok tt, session (some (log_header ++ rest)) idx none no_recovery)
unfolding load unopened
load-log rest idx = rw (load_header-log rest) refl

-- What the constructor does last.
abbrev pub mark_unclean : DbExec (Unit {0})
mark_unclean = do ix ← reads ensure_open; ix ← on_index (set_index_clean ix false); assign_index ix

pub mark_unclean-Holds :
    {ix : Index} {idx : Bytes} {m : Bytes → Option ℕ} (db : Option Bytes) (report : RecoveryReport)
    → Holds ix idx m
    → (idx' : Bytes) × (mark_unclean (session db (some idx) (some ix) report)
        ≡ (ok tt, session db (some idx') (some (with_clean ix 0)) report))
      × Holds (with_clean ix 0) idx' m
      × (length idx' ≡ length idx)
unfolding ensure_open
mark_unclean-Holds db report h =
    let (idx', run, holds, same) = set_index_clean-Holds h false in (idx', rw run refl, holds, same)

module _ (crc : Crc32c) (create : ℕ → CreateDirectory) (num_index_buckets : ℕ) (path : Bytes)
    (named : extension path ≡ codes ".zdb") where
  pub open_database-existing :
      (db : Bytes) (idx : Option Bytes) {d : Database}
      → open_existing crc create num_index_buckets (unopened (some db) idx) ≡ (ok tt, d)
      → open_database crc create num_index_buckets path (some db) idx ≡ mark_unclean d
  unfolding open_database construct unopened
  open_database-existing db idx run = rw (named, bytes_eq_self (codes ".zdb"), run) refl

  pub open_database-new :
      (idx : Option Bytes) {d : Database}
      → open_new crc create num_index_buckets (unopened none idx) ≡ (ok tt, d)
      → open_database crc create num_index_buckets path none idx ≡ mark_unclean d
  unfolding open_database construct unopened
  open_database-new idx run = rw (named, bytes_eq_self (codes ".zdb"), run) refl

-- A session over a log of whole records, whose index is caught up with it, stores the records.
unfoldable pub session-Stores :
    {crc : Crc32c} {ix : Index} {log idx : Bytes} {rs : List Record} (report : RecoveryReport)
    → Holds ix idx (replay (λ key. none) 24 rs)
    → ix.indexed_up_to_offset ≡ length (log_header ++ records_bytes crc rs)
    → ix.index_clean ≡ 0
    → log ≡ log_header ++ records_bytes crc rs
    → length log < 2 ^ 63
    → All Fits rs
    → Stores crc (session (some log) (some idx) (some ix) report) log_header rs
unfolding ensure_open header_size string_size db_magic
session-Stores {ix = ix} {idx = idx} report holds up_to dirty e small fits = record {
  index = ix;
  idx = idx;
  is_open = refl;
  log = ap some e;
  idx_file = refl;
  holds = holds;
  caught_up = up_to;
  dirty = dirty;
  header_length = omega (arith, length-log_header);
  small = rw e at small;
  fits = fits;
}
