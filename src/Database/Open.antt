-- ===== src/Database/Open.antt =====
-- src/database.cpp: the constructor of `Database`.
use zidanedb.Base.{
  ℕ, Option, none, some, [], ◌∷◌, ◌++◌, Bool, true, false, ◌==◌, not, if◌then◌else◌, bytes_eq,
}
use zidanedb.Base.Results.{
  Result, ok, throws, diverges, stops_at, is_invalid_index, bad_extension, index_not_empty,
}
use zidanedb.Base.Exec.{pure, raise, reads, ◌>>=◌, ◌>>◌}
use zidanedb.Constants.{codes}
use zidanedb.Stream.{Bytes}
use zidanedb.Record.{Crc32c}
use zidanedb.Index
use zidanedb.Index.{Index, open_index, set_indexed_up_to_offset, set_index_clean}
use zidanedb.Database.Report.{RecoveryReason, RecoveryAction}
use zidanedb.Database.State.{
  Database, DbExec, ensure_open, db_file_size, on_index, assign_index, unopened,
}
use zidanedb.Database.Log.{load, setup}
use zidanedb.Database.Rebuild.{CreateDirectory, rebuild_index_impl, recover_records}
use zidanedb.Database.Methods.{index_metadata_clean}

-- `path.filename()` and `path.extension()` of the standard library on a path with `/` separators: the
-- part from the last dot on, where that dot is not the first character.
unfoldable pub filename_loop : Bytes → Bytes → Bytes
filename_loop name [] = name
filename_loop name (c ∷ cs) = filename_loop (if c == b'/' then [] else name ++ c ∷ []) cs

unfoldable pub extension_loop : Bytes → Bytes → Bytes
extension_loop found [] = found
extension_loop found (c ∷ cs) = extension_loop (if c == b'.' then c ∷ cs else found) cs

abbrev extension_of : Bytes → Bytes
extension_of [] = []
extension_of (c ∷ cs) = if bytes_eq (c ∷ cs) (codes "..") then [] else extension_loop [] cs

unfoldable pub extension : Bytes → Bytes
unfolding filename_loop extension_loop bytes_eq
extension path = extension_of (filename_loop [] path)

abbrev set_report : RecoveryReason → ℕ → DbExec (Unit {0})
set_report reason truncated d = (
  ok tt,
  record d {
    report = record {
      reason = reason;
      action = RecoveryAction.full_index_rebuild;
      truncated_bytes = truncated;
    };
  },
)

-- `try { index_ = ...; } catch (const InvalidIndexError&) { ... }`: the handler runs where the index
-- file is invalid. The result says whether the index was rebuilt.
abbrev caught : DbExec Bool → Result Index × Database → Result Bool × Database
caught handler (ok ix, d) = (assign_index ix >> pure false) d
caught handler (throws e, d) = if is_invalid_index e then handler d else (throws e, d)
caught handler (diverges, d) = (diverges, d)
caught handler (stops_at name, d) = (stops_at name, d)

module _ (crc : Crc32c) (create : ℕ → CreateDirectory) (num_index_buckets : ℕ) where
  -- No database file: a new log, over an index that must be empty.
  unfoldable pub open_new : DbExec (Unit {0})
  open_new = do
    ix ← on_index (open_index num_index_buckets)
    assign_index ix
    empty ← reads (λ d. Index.empty ix d.idx_file)
    if not empty then raise index_not_empty else pure tt
    setup
    size ← reads db_file_size
    ix ← on_index (set_indexed_up_to_offset ix size)
    assign_index ix

  -- The index is built from the log.
  unfoldable pub rebuilt : RecoveryReason → DbExec Bool
  rebuilt reason = do
    rebuild_index_impl crc create 0 num_index_buckets
    set_report reason 0
    pure true

  abbrev open_or_rebuild : Option Bytes → DbExec Bool
  open_or_rebuild (some idx) d =
      caught (rebuilt RecoveryReason.invalid_index) (on_index (open_index num_index_buckets) d)
  open_or_rebuild none d = rebuilt RecoveryReason.missing_index d

  -- `if (!index_rebuilt && !index_metadata_clean())`
  unfoldable pub recover_unclean : Bool → DbExec (Unit {0})
  recover_unclean true = pure tt
  recover_unclean false = do
    clean ← reads index_metadata_clean
    if clean then pure tt else (do
      truncated_bytes ← recover_records crc create
      set_report RecoveryReason.unclean_index truncated_bytes)

  unfoldable pub open_existing : DbExec (Unit {0})
  open_existing = do
    load
    index_rebuilt ← (λ d. open_or_rebuild d.idx_file d)
    recover_unclean index_rebuilt

  abbrev open_files : Option Bytes → DbExec (Unit {0})
  open_files none = open_new
  open_files (some db) = open_existing

  -- The constructor, on the object over the two files of `path`.
  unfoldable pub construct : Bytes → DbExec (Unit {0})
  construct path =
      if not (bytes_eq (extension path) (codes ".zdb")) then raise bad_extension else do
        λ d. open_files d.db_file d
        ix ← reads ensure_open
        ix ← on_index (set_index_clean ix false)
        assign_index ix

  unfoldable pub open_database : Bytes → Option Bytes → Option Bytes → Result (Unit {0}) × Database
  open_database path db idx = construct path (unopened db idx)
