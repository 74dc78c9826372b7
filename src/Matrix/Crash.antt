-- ===== src/Matrix/Crash.antt =====
-- apps/matrix/crash_tests.cpp: the test that stops a process at a failpoint, kills it, and opens the
-- database again. The process is `zidane put`, built with failpoints. What the test prints on the
-- output stream is not modelled.
pub mod Checks
pub mod Started
pub mod Stopped
pub mod Recovers
use zidanedb.Base.{
  ℕ, Option, none, some, List, [], ◌∷◌, ◌++◌, Bool, true, false, not, ◌==◌, if◌then◌else◌, bytes_eq,
}
use zidanedb.Base.Results
use zidanedb.Base.Results.{Result, ok, throws, diverges, stops_at}
use zidanedb.Base.Exec.{pure, reads, ◌>>=◌, ◌>>◌}
use zidanedb.Constants.{codes}
use zidanedb.Stream.{Bytes}
use zidanedb.Record.{Crc32c}
use zidanedb.Database.{
  Database, DbExec, CreateDirectory, RecoveryReason, RecoveryAction, get, put, open_database,
}
use zidanedb.Failpoints
use zidanedb.Matrix.Utils.{temporary_directory, to_string}
use zidanedb.Matrix.Processes.{
  ℤ, pos, negsuc, ChildProcess, Answer, Status, exited, signaled, stopped, WaitOutcome,
  state_changed, timed_out, error, child_process, wait_for_state, kill_and_reap,
}
use zidanedb.Matrix.Workloads.{
  Pairs, Files, files_of, no_files, Verdict, passed, failed_with, emplace, verify_loop,
  missing_or_incorrect, in_database,
}

-- The names that the option of the command line accepts.
pub data Failpoint : Type 0 where
  before_db_append after_db_append before_update_indexed_up_to_offset : Failpoint
  after_update_indexed_up_to_offset clean_db_close after_modify_existing_entry : Failpoint
  before_update_bucket_head after_update_bucket_head before_set_index_clean : Failpoint

unfoldable pub failpoint_name : Failpoint → Bytes
failpoint_name before_db_append = codes "before_db_append"
failpoint_name after_db_append = codes "after_db_append"
failpoint_name before_update_indexed_up_to_offset = codes "before_update_indexed_up_to_offset"
failpoint_name after_update_indexed_up_to_offset = codes "after_update_indexed_up_to_offset"
failpoint_name clean_db_close = codes "clean_db_close"
failpoint_name after_modify_existing_entry = codes "after_modify_existing_entry"
failpoint_name before_update_bucket_head = codes "before_update_bucket_head"
failpoint_name after_update_bucket_head = codes "after_update_bucket_head"
failpoint_name before_set_index_clean = codes "before_set_index_clean"

-- The pairs that the database should have at the end, and the value of "player".
unfoldable pub expected_pairs : (failpoint : Bytes) → Pairs
unfolding emplace
expected_pairs failpoint =
    let team = emplace (codes "team") (codes "madrid") [] in
    if not (bytes_eq failpoint (codes "before_db_append"))
    then emplace (codes "player") (codes "bellingham") team
    else team

unfoldable pub expected_player : (failpoint : Bytes) → Option Bytes
expected_player failpoint =
    if bytes_eq failpoint (codes "before_db_append") then none else some (codes "bellingham")

-- `reason != expected_reason` and `action != expected_action`
unfoldable pub is_reason : (expects_recovery : Bool) → RecoveryReason → Bool
is_reason true RecoveryReason.unclean_index = true
is_reason false RecoveryReason.none = true
is_reason _ _ = false

unfoldable pub is_action : (expects_recovery : Bool) → RecoveryAction → Bool
is_action true RecoveryAction.full_index_rebuild = true
is_action false RecoveryAction.none = true
is_action _ _ = false

unfoldable pub same_value : Option Bytes → Option Bytes → Bool
same_value none none = true
same_value none (some b) = false
same_value (some a) none = false
same_value (some a) (some b) = bytes_eq a b

module _ (crc : Crc32c) where
  -- The first block: the database before the crash.
  unfoldable pub initialize : (failpoint : Bytes) → DbExec (Unit {0})
  initialize failpoint = do
    put crc (codes "team") (codes "madrid")
    if bytes_eq failpoint (codes "after_modify_existing_entry")
        then put crc (codes "player") (codes "benzema")
        else pure tt

  -- The process behind the constructor of its database. Its destructor closes the database, unless
  -- the process was stopped before.
  abbrev pub closing_worker :
      Option Bytes → Result (Unit {0}) × Database → Result (Unit {0}) × Database
  closing_worker requested (ok _, d) = Failpoints.close requested d
  closing_worker requested (throws e, d) = Failpoints.close requested d
  closing_worker requested (diverges, d) = (diverges, d)
  closing_worker requested (stops_at name, d) = (stops_at name, d)

  abbrev pub working :
      Option Bytes → Bool → Result (Unit {0}) × Database → Result (Unit {0}) × Database
  working requested early (ok _, d) =
      closing_worker requested
        (Failpoints.put requested early crc (codes "player") (codes "bellingham") d)
  working requested early (throws e, d) = (throws e, d)
  working requested early (diverges, d) = (diverges, d)
  working requested early (stops_at name, d) = (stops_at name, d)

  -- `zidane --db path put player bellingham`; the result is `stops_at` where a failpoint stops
  -- it. The constructor is the one without failpoints: on files whose index is clean, which is what the
  -- first block leaves, it does not rebuild, and only a rebuild would call an `Index::set` that has them.
  unfoldable pub worker :
      (failpoint : Bytes)
      → (early : Bool) → (ℕ → CreateDirectory)
      → (path : Bytes) → Files
      → Result (Unit {0}) × Database
  worker failpoint early create path f =
      working (some failpoint) early (open_database crc create 1_000_000 path f.db f.idx)

  -- The last check of the database that was opened again, and the ones before it.
  unfoldable pub check_player : (failpoint : Bytes) → DbExec Verdict
  check_player failpoint = do
    player ← reads (λ d. get crc d (codes "player"))
    pure (
        if same_value player (expected_player failpoint)
        then passed
        else failed_with (
            if bytes_eq failpoint (codes "before_db_append")
            then codes "Key player should not exist"
            else codes "Key player should exist"))

  unfoldable pub player_or_fail : (failpoint : Bytes) → Option Bytes → DbExec Verdict
  player_or_fail failpoint none = check_player failpoint
  player_or_fail failpoint (some text) = pure (failed_with text)

  unfoldable pub check_contents : (failpoint : Bytes) → (order : Pairs → Pairs) → DbExec Verdict
  check_contents failpoint order = do
    bad ← reads (λ d. verify_loop crc missing_or_incorrect d (order (expected_pairs failpoint)))
    player_or_fail failpoint bad

  unfoldable pub check_reopened : (failpoint : Bytes) → (order : Pairs → Pairs) → DbExec Verdict
  check_reopened failpoint order d =
      let expects_recovery = not (bytes_eq failpoint (codes "clean_db_close")) in
      let quoted = codes "for failpoint '" ++ (failpoint ++ codes "': ") in
      if not (is_reason expects_recovery d.report.reason)
      then (
        ok (
            failed_with (
              codes "Unexpected recovery reason "
              ++ (quoted
                  ++ codes
                      (if expects_recovery then "expected unclean_index" else "expected none")))),
        d,
      )
      else if not (is_action expects_recovery d.report.action)
      then (
        ok (
            failed_with (
              codes "Unexpected recovery action "
              ++ (quoted
                  ++ codes (
                      if expects_recovery
                      then "expected full_index_rebuild"
                      else "expected none")))),
        d,
      )
      else if not (d.report.truncated_bytes == 0)
      then (
        ok (
            failed_with (
              codes "Unexpected truncation "
              ++ (quoted
                  ++ (codes "removed "
                      ++ (to_string d.report.truncated_bytes ++ codes " bytes, expected 0"))))),
        d,
      )
      else check_contents failpoint order d

-- What the parent makes of the child: it was stopped and killed, it ended, it was stopped by another
-- signal, or the test gives up with a text.
pub data Watch : Type 0 where
  reached finished unexpected_stop : Watch
  gave_up : (text : Bytes) → Watch

abbrev pub sigstop : ℕ
sigstop = 19

abbrev on_kill : Result Bool × ChildProcess → Result Watch
on_kill (ok true, c) = ok reached
on_kill (ok false, c) = ok (gave_up (codes "Could not kill and reap Zidane process"))
on_kill (throws e, c) = throws e
on_kill (diverges, c) = diverges
on_kill (stops_at name, c) = stops_at name

abbrev on_timeout : Result Bool × ChildProcess → Result Watch
on_timeout (ok true, c) = ok (gave_up (codes "Timed out waiting for Zidane crash worker"))
on_timeout (ok false, c) = ok (
    gave_up (
      codes "Timed out waiting for Zidane crash worker"
      ++ 10 ∷ codes "Could not kill and reap Zidane crash worker"))
on_timeout (throws e, c) = throws e
on_timeout (diverges, c) = diverges
on_timeout (stops_at name, c) = stops_at name

-- A status of a child is that it was stopped or that it ended, so the loop has one round.
abbrev on_wait : (sent : Bool) → Result (WaitOutcome × Option Status) × ChildProcess → Result Watch
on_wait sent (ok (state_changed, some (stopped signal)), c) =
    if signal == sigstop then on_kill (kill_and_reap sent c) else ok unexpected_stop
on_wait sent (ok (state_changed, some (exited code)), c) = ok finished
on_wait sent (ok (state_changed, some (signaled signal)), c) = ok finished
on_wait sent (ok (state_changed, none), c) = diverges
on_wait sent (ok (timed_out, status), c) = on_timeout (kill_and_reap sent c)
on_wait sent (ok (error, status), c) = ok (gave_up (codes "waitpid failed"))
on_wait sent (throws e, c) = throws e
on_wait sent (diverges, c) = diverges
on_wait sent (stops_at name, c) = stops_at name

-- The wait of five seconds, where the clock shows `now` at its beginning.
unfoldable pub watch : (now : ℕ) → (sent : Bool) → ChildProcess → Result Watch
watch now sent c = on_wait sent (wait_for_state now 5000 c)

-- What the system does: the answers of `create_directory` for the workspace and for the two
-- databases that the test opens and the one of its child, what `fork` returns, the clock, whether
-- SIGKILL can be sent, the answers of `waitpid`, and whether a stream writes before it is flushed.
pub record System : Type 0 where
  pub workspace : ℕ → CreateDirectory
  pub create : ℕ → CreateDirectory
  pub child_create : ℕ → CreateDirectory
  pub reopen_create : ℕ → CreateDirectory
  pub pid : ℤ
  pub now : ℕ
  pub sent : Bool
  pub answers : List (Answer × ℕ)
  pub early : Bool

-- The path in the workspace that is the attempt's.
unfoldable pub workspace_path : (directory : ℕ → Bytes) → (attempt : ℕ) → Bytes
workspace_path directory attempt = directory attempt ++ codes "/database.zdb"

module _ (crc : Crc32c) (system : System) (failpoint path : Bytes) (order : Pairs → Pairs) where
  abbrev after_watch : Files → Watch → Result Verdict
  after_watch f reached =
      (in_database crc system.reopen_create 1_000_000 path (check_reopened crc failpoint order) f).0
  after_watch f finished =
      ok (failed_with (codes "Zidane process did not reach failpoint" ++ 10 ∷ []))
  after_watch f unexpected_stop = ok (record { exit_code = 1; error = [] })
  after_watch f (gave_up text) = ok (failed_with text)

  -- The parent and the child, on the files of the first block. What `fork` returns is the parent's
  -- number, which is never zero.
  abbrev forked : Files → Option ChildProcess → Result Verdict
  forked f none = ok (failed_with (codes "Fork failed!"))
  forked f (some child) =
      Results.and_then (watch system.now system.sent child)
        (after_watch (files_of (worker crc failpoint system.early system.child_create path f).1))

  unfoldable pub run_in_workspace : Result Verdict
  run_in_workspace =
      let first =
        in_database crc system.create 1_000_000 path (initialize crc failpoint) no_files in
      Results.and_then first.0 λ _. forked first.1 (child_process system.pid system.answers)

-- `directory` names the candidates for the workspace.
unfoldable pub run_crash_test :
    Crc32c
    → System
    → (directory : ℕ → Bytes) → (order : Pairs → Pairs) → (failpoint : Bytes) → Result Verdict
run_crash_test crc system directory order failpoint =
    Results.and_then (temporary_directory system.workspace)
      λ attempt. run_in_workspace crc system failpoint (workspace_path directory attempt) order
