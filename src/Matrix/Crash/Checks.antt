-- ===== src/Matrix/Crash/Checks.antt =====
-- The checks that the crash test makes of the database that was opened again.
use zidanedb.Base.{
  ◌≡◌, refl, Option, none, some, List, [], ◌∷◌, ◌++◌, true, not, if◌then◌else◌, ◌==◌, inl, inr,
  Bool-cases, bytes_eq, bytes_eq_self,
}
use zidanedb.Base.Results.{ok}
use zidanedb.Constants.{codes}
use zidanedb.Stream.{Bytes}
use zidanedb.Record.{Crc32c, Record}
use zidanedb.Database.{Database, RecoveryReason, RecoveryReport}
use zidanedb.Database.Contents.{Stores, put_of, stored, values, get-Stores}
use zidanedb.Database.Opening.{log_header, no_recovery, full_rebuild}
use zidanedb.Failpoints.{failpoint}
use zidanedb.Matrix.Workloads.{Pairs, passed, emplace, missing_or_incorrect}
use zidanedb.Matrix.Workloads.Pairs.{Rearranged, All-Rearranged, puts}
use zidanedb.Matrix.Workloads.Passes.{verify_loop-Stores}
use zidanedb.Matrix.Workloads.Timed.{Agrees}
use zidanedb.Matrix.Crash.{
  Failpoint, failpoint_name, expected_pairs, expected_player, is_reason, is_action, same_value,
  check_player, player_or_fail, check_contents, check_reopened,
}

content : (key v : Bytes) → missing_or_incorrect key v (some v) ≡ none
unfolding missing_or_incorrect
content key v = rw (bytes_eq_self v) refl

same_value_self : (v : Option Bytes) → same_value v v ≡ true
unfolding same_value
same_value_self none = refl
same_value_self (some a) = bytes_eq_self a

-- The pairs of the first block.
abbrev pub initial : Bytes → Pairs
initial failpoint =
    (codes "team", codes "madrid")
    ∷ (if bytes_eq failpoint (codes "after_modify_existing_entry")
        then (codes "player", codes "benzema") ∷ []
        else [])

unfoldable pub expected-recovery : Bytes → RecoveryReport
expected-recovery failpoint =
    if bytes_eq failpoint (codes "clean_db_close")
    then no_recovery
    else full_rebuild RecoveryReason.unclean_index 0

-- The three tests of the report.
report-expected :
    (failpoint : Bytes) (report : RecoveryReport)
    → report ≡ expected-recovery failpoint
    → (is_reason (not (bytes_eq failpoint (codes "clean_db_close"))) report.reason ≡ true)
      × (is_action (not (bytes_eq failpoint (codes "clean_db_close"))) report.action ≡ true)
      × ((report.truncated_bytes == 0) ≡ true)
unfolding expected-recovery is_reason is_action
report-expected failpoint report same =
    elim (Bool-cases (bytes_eq failpoint (codes "clean_db_close"))) [
      | inl closed ↦ rw (same, closed) (refl, refl, refl)
      | inr other ↦ rw (same, other) (refl, refl, refl)
    ]

-- The checks of the database that was opened again.
pub check_reopened-passes :
    {crc : Crc32c} {d : Database} {rs : List Record} (failpoint : Bytes) (order : Pairs → Pairs)
    → ((pairs : Pairs) → Rearranged pairs (order pairs))
    → Stores crc d log_header rs
    → d.report ≡ expected-recovery failpoint
    → Agrees rs (expected_pairs failpoint)
    → values (λ key. none) rs (codes "player") ≡ expected_player failpoint
    → (check_reopened crc failpoint order d).0 ≡ ok passed
unfolding check_reopened check_contents player_or_fail check_player
check_reopened-passes {d = d} failpoint order rearranges s report agrees player =
    let all = All-Rearranged _ (rearranges (expected_pairs failpoint)) agrees in
    let verified =
      verify_loop-Stores missing_or_incorrect (order (expected_pairs failpoint)) content s all in
    let (reason, action, truncated) = report-expected failpoint d.report report in
    rw
      (
        reason,
        action,
        truncated,
        verified,
        get-Stores (codes "player") s,
        player,
        same_value_self (expected_player failpoint),
      )
      refl

-- The records that the log has at the end.
abbrev pub final_records : Bytes → List Record
final_records failpoint =
    if bytes_eq (codes "before_db_append") failpoint
    then puts (initial failpoint)
    else puts (initial failpoint) ++ put_of (codes "player") (codes "bellingham") ∷ []

pub final-contents :
    (failpoint : Failpoint)
    → Agrees (final_records (failpoint_name failpoint)) (expected_pairs (failpoint_name failpoint))
      × (values (λ key. none) (final_records (failpoint_name failpoint)) (codes "player")
          ≡ expected_player (failpoint_name failpoint))
unfolding failpoint_name values stored expected_pairs expected_player emplace bytes_eq
final-contents Failpoint.before_db_append = ((refl, tt), refl)
final-contents Failpoint.after_db_append = ((refl, (refl, tt)), refl)
final-contents Failpoint.before_update_indexed_up_to_offset = ((refl, (refl, tt)), refl)
final-contents Failpoint.after_update_indexed_up_to_offset = ((refl, (refl, tt)), refl)
final-contents Failpoint.clean_db_close = ((refl, (refl, tt)), refl)
final-contents Failpoint.after_modify_existing_entry = ((refl, (refl, tt)), refl)
final-contents Failpoint.before_update_bucket_head = ((refl, (refl, tt)), refl)
final-contents Failpoint.after_update_bucket_head = ((refl, (refl, tt)), refl)
final-contents Failpoint.before_set_index_clean = ((refl, (refl, tt)), refl)
