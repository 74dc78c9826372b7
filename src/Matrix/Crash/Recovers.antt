-- ===== src/Matrix/Crash/Recovers.antt =====
-- The crash test passes wherever the process was stopped.
use zidanedb.Base.{
  ℕ, ◌*◌, ◌≤◌, ◌≡◌, refl, sym, ◌∙◌, some, List, [], ◌∷◌, ◌++◌, Bool, if◌then◌else◌, arith, length,
  bytes_eq,
}
use zidanedb.Base.Results.{ok, stops_at}
use zidanedb.Constants.{codes}
use zidanedb.Stream.{Bytes}
use zidanedb.Record.{Crc32c, Record}
use zidanedb.Record.RoundTrip.{record_size}
use zidanedb.Utils.{string_size}
use zidanedb.Index.{
  set_index_clean, append_entry as plain_append_entry, replace_entry as plain_replace_entry,
  set as plain_set,
}
use zidanedb.Index.Find.{end_of_file}
use zidanedb.Index.Table.{header_size-41}
use zidanedb.Database.{
  Database, DbExec, CreateDirectory, made, RecoveryReason, extension, put,
  put_record as plain_put_record, close as plain_close, mark_closed as plain_mark_closed, destroy,
  open_database,
}
use zidanedb.Database.Contents.{Stores, put_of}
use zidanedb.Database.Writes.{put-grows}
use zidanedb.Database.Opening.{log_header, no_recovery, full_rebuild}
use zidanedb.Failpoints
use zidanedb.Failpoints.{
  is_requested, failpoint, buffered, append_entry, replace_entry, set, put_record, mark_closed,
}
use zidanedb.Failpoints.Recovery.{growth-append, open_database-put_crash}
use zidanedb.Failpoints.Closing.{open_database-close_crash}
use zidanedb.Matrix.Utils.{temporary_directory}
use zidanedb.Matrix.Processes.{ChildProcess, child_process}
use zidanedb.Matrix.Workloads.{Pairs, Files, Verdict, passed, files_of, in_database}
use zidanedb.Matrix.Workloads.Pairs.{Rearranged, puts}
use zidanedb.Matrix.Workloads.Timed.{filename_loop-append}
use zidanedb.Matrix.Crash.{
  Failpoint, failpoint_name, worker, System, reached, watch, workspace_path, run_in_workspace,
  run_crash_test,
}
use zidanedb.Matrix.Crash.Checks.{
  initial, expected-recovery, check_reopened-passes, final_records, final-contents,
}
use zidanedb.Matrix.Crash.Stopped.{worker-stops}
use zidanedb.Matrix.Crash.Started.{Started, initial-bounds, first_block, closing_worker-stopped}

-- What opening the files of the child comes to.
record Reopens (crc : Crc32c) (reopen_create : ℕ → CreateDirectory) (path failpoint : Bytes)
    (f : Files) : Type 0 where
  d : Database
  opened : open_database crc reopen_create 1_000_000 path f.db f.idx ≡ (ok tt, d)
  stores : Stores crc d log_header (final_records failpoint)
  report : d.report ≡ expected-recovery failpoint

buckets-bound :
    {crc : Crc32c} {d : Database} {rs : List Record}
    → (s : Stores crc d log_header rs) → 8 * s.index.num_buckets ≤ length s.idx
buckets-bound s =
    omega (arith, end_of_file s.holds.represents, header_size-41 s.holds.represents.header)

module _ {crc : Crc32c} {create child_create : ℕ → CreateDirectory} {path : Bytes}
    (reopen_create : ℕ → CreateDirectory) (early : Bool) (named : extension path ≡ codes ".zdb")
    (again : reopen_create 0 ≡ made) where
  -- The child of a failpoint that no close reaches.
  put-Reopens :
      (failpoint : Bytes) (t : Started crc create child_create path failpoint)
      → ((d : Database) → Failpoints.close (some failpoint) d ≡ plain_close d)
      → expected-recovery failpoint ≡ full_rebuild RecoveryReason.unclean_index 0
      → (worker crc failpoint early child_create path (files_of (destroy t.d))).0
        ≡ stops_at failpoint
      → Reopens crc reopen_create path failpoint
          (files_of (worker crc failpoint early child_create path (files_of (destroy t.d))).1)
  unfolding worker is_requested record_size string_size
  put-Reopens failpoint t plain recovery stops =
      let (s, within) = t.stores in
      let (fits, growth_le, size_le) = initial-bounds failpoint in
      let stuck = rw t.opened at stops in
      let same = closing_worker-stopped crc (some failpoint) _ plain stuck in
      let (d', run, (stores, sized, size), report) =
        open_database-put_crash reopen_create 1_000_000 path (some failpoint) early (codes "player")
          (codes "bellingham") s named again (omega arith) (omega (arith, buckets-bound s))
          (omega arith) (omega arith) (omega arith) (omega (arith, t.log_size))
          (omega (arith, buckets-bound s, growth_le)) in
      record {
        d = d';
        opened = rw (t.opened, same) run;
        stores = stores;
        report = report ∙ sym recovery;
      }

  -- The child of a failpoint that no put reaches.
  close-Reopens :
      (failpoint : Bytes) (t : Started crc create child_create path failpoint)
      → ((d : Database)
          → Failpoints.put (some failpoint) early crc (codes "player") (codes "bellingham") d
            ≡ put crc (codes "player") (codes "bellingham") d)
      → puts (initial failpoint) ++ put_of (codes "player") (codes "bellingham") ∷ []
        ≡ final_records failpoint
      → (if is_requested (some failpoint) (codes "before_set_index_clean")
          then full_rebuild RecoveryReason.unclean_index 0
          else no_recovery)
        ≡ expected-recovery failpoint
      → Reopens crc reopen_create path failpoint
          (files_of (worker crc failpoint early child_create path (files_of (destroy t.d))).1)
  unfolding worker record_size string_size
  close-Reopens failpoint t plain records recovery =
      let (s, within) = t.stores in
      let (fits, growth_le, size_le) = initial-bounds failpoint in
      let (d', s', put_run, buckets, grown) =
        put-grows (codes "player") (codes "bellingham") s
          (record { key = omega arith; value = omega arith }) (omega arith)
          (omega (arith, t.log_size)) in
      let (d'', run, (stores, sized, size), report) =
        open_database-close_crash reopen_create 1_000_000 path (some failpoint) 9_000_000 s' named
          again (omega arith) (omega (arith, buckets-bound s', grown)) (omega (arith, grown))
          (omega (
            arith,
            buckets-bound s',
            growth-append (puts (initial failpoint)) (put_of (codes "player") (codes "bellingham")),
            growth_le,
            grown,
          ))
          (omega arith) in
      record {
        d = d'';
        opened = rw (t.opened, plain t.child, put_run) run;
        stores = rw records at stores;
        report = report ∙ recovery;
      }

  worker-Reopens :
      (failpoint : Failpoint) (t : Started crc create child_create path (failpoint_name failpoint))
      → (worker crc (failpoint_name failpoint) early child_create path (files_of (destroy t.d))).0
        ≡ stops_at (failpoint_name failpoint)
      → Reopens crc reopen_create path (failpoint_name failpoint) (
          files_of
            (worker crc
              (failpoint_name failpoint)
              early
              child_create
              path
              (files_of (destroy t.d))).1)
  unfolding expected-recovery is_requested Failpoints.failpoint buffered append_entry replace_entry
      set put_record Failpoints.put mark_closed Failpoints.close plain_append_entry
      plain_replace_entry plain_set plain_put_record put plain_mark_closed plain_close bytes_eq
      set_index_clean failpoint_name
  worker-Reopens Failpoint.before_db_append t h = put-Reopens _ t (λ d. refl) refl h
  worker-Reopens Failpoint.after_db_append t h = put-Reopens _ t (λ d. refl) refl h
  worker-Reopens Failpoint.before_update_indexed_up_to_offset t h =
      put-Reopens _ t (λ d. refl) refl h
  worker-Reopens Failpoint.after_update_indexed_up_to_offset t h =
      put-Reopens _ t (λ d. refl) refl h
  worker-Reopens Failpoint.clean_db_close t h = close-Reopens _ t (λ d. refl) refl refl
  worker-Reopens Failpoint.after_modify_existing_entry t h = put-Reopens _ t (λ d. refl) refl h
  worker-Reopens Failpoint.before_update_bucket_head t h = put-Reopens _ t (λ d. refl) refl h
  worker-Reopens Failpoint.after_update_bucket_head t h = put-Reopens _ t (λ d. refl) refl h
  worker-Reopens Failpoint.before_set_index_clean t h = close-Reopens _ t (λ d. refl) refl refl

in_database-passes :
    (crc : Crc32c) (create : ℕ → CreateDirectory) (path : Bytes) (body : DbExec Verdict) (f : Files)
    {d : Database}
    → open_database crc create 1_000_000 path f.db f.idx ≡ (ok tt, d)
    → (body d).0 ≡ ok passed
    → (in_database crc create 1_000_000 path body f).0 ≡ ok passed
unfolding in_database
in_database-passes crc create path body f opened same = rw opened same

run_in_workspace-passes :
    (crc : Crc32c) (system : System) (failpoint : Failpoint) (path : Bytes) (order : Pairs → Pairs)
    {child : ChildProcess}
    → ((pairs : Pairs) → Rearranged pairs (order pairs))
    → extension path ≡ codes ".zdb"
    → system.reopen_create 0 ≡ made
    → child_process system.pid system.answers ≡ some child
    → watch system.now system.sent child ≡ ok reached
    → run_in_workspace crc system (failpoint_name failpoint) path order ≡ ok passed
unfolding run_in_workspace
run_in_workspace-passes crc system failpoint path order rearranges named again forks stopped =
    let name = failpoint_name failpoint in
    let t = first_block crc system.create system.child_create path name named in
    let r =
      worker-Reopens system.reopen_create system.early named again failpoint t
        (worker-stops system.early failpoint t) in
    let (agrees, player) = final-contents failpoint in
    let checked = check_reopened-passes name order rearranges r.stores r.report agrees player in
    rw (t.first, forks, stopped)
      (in_database-passes crc system.reopen_create path _ _ r.opened checked)

-- For every failpoint of the command line: where a candidate for the workspace is created, the first
-- staging directory of the last database is made, the iteration over a map only rearranges its pairs, `fork` succeeds, and
-- the parent sees a stopped child and kills and reaps it, `run_crash_test` returns 0 with nothing on the error stream.
pub run_crash_test-passes :
    (crc : Crc32c) (system : System) (directory : ℕ → Bytes) (order : Pairs → Pairs)
    (failpoint : Failpoint) {attempt : ℕ} {child : ChildProcess}
    → temporary_directory system.workspace ≡ ok attempt
    → system.reopen_create 0 ≡ made
    → ((pairs : Pairs) → Rearranged pairs (order pairs))
    → child_process system.pid system.answers ≡ some child
    → watch system.now system.sent child ≡ ok reached
    → run_crash_test crc system directory order (failpoint_name failpoint) ≡ ok passed
unfolding run_crash_test workspace_path extension
run_crash_test-passes crc system directory order failpoint {attempt} workspace again rearranges
      forks stopped =
    rw workspace (
      run_in_workspace-passes crc system failpoint (directory attempt ++ codes "/database.zdb")
        order rearranges
        (rw (filename_loop-append (directory attempt) [] (codes "database.zdb")) refl) again forks
        stopped)
