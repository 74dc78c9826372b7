-- ===== src/Matrix/Crash/Started.antt =====
-- The first block of the crash test, and the child behind it.
use zidanedb.Base.{
  ℕ, ◌+◌, ◌*◌, ◌≤◌, ◌≡◌, ◌≢◌, refl, sym, ap, ◌∙◌, Option, [], arith, length, All, inl, inr,
  Bool-cases, bytes_eq, length-append,
}
use zidanedb.Base.Results.{Result, ok, throws, diverges, stops_at}
use zidanedb.Base.Exec.{pure, continue}
use zidanedb.Constants.{codes}
use zidanedb.Stream.{Bytes}
use zidanedb.Record.{Crc32c}
use zidanedb.Record.RoundTrip.{Fits, record_size}
use zidanedb.Record.Sequence.{records_bytes, records_size, length-records_bytes}
use zidanedb.Utils.{string_size}
use zidanedb.Index.{set_index_clean}
use zidanedb.Database.{
  Database, CreateDirectory, extension, put, close as plain_close, destroy, open_database,
}
use zidanedb.Database.Replay.{growth}
use zidanedb.Database.Recovery.{log_of}
use zidanedb.Database.Opening.{log_header, length-log_header}
use zidanedb.Database.Opening.Created.{open_database-sized}
use zidanedb.Database.Opening.Reopened.{open_database-destroy_sized}
use zidanedb.Failpoints
use zidanedb.Failpoints.{
  is_requested, failpoint, buffered, append_entry, replace_entry, set, put_record, mark_closed,
}
use zidanedb.Matrix.Workloads.{no_files, files_of, put_all, in_database}
use zidanedb.Matrix.Workloads.Pairs.{puts}
use zidanedb.Matrix.Workloads.Passes.{StoresWithin, put_all-Stores}
use zidanedb.Matrix.Workloads.Timed.{new_log}
use zidanedb.Matrix.Crash.{initialize, closing_worker}
use zidanedb.Matrix.Crash.Checks.{initial}

right_unit : (r : Result (Unit {0}) × Database) → continue r.0 (λ _. pure tt) r.1 ≡ r
right_unit (ok u, d) = refl
right_unit (throws e, d) = refl
right_unit (diverges, d) = refl
right_unit (stops_at name, d) = refl

initialize-put_all :
    (crc : Crc32c) (failpoint : Bytes) (d : Database)
    → initialize crc failpoint d ≡ put_all crc (initial failpoint) d
unfolding initialize put_all
initialize-put_all crc failpoint d =
    elim (Bool-cases (bytes_eq failpoint (codes "after_modify_existing_entry"))) [
      | inl same ↦ rw same (
          let first = put crc (codes "team") (codes "madrid") d in
          λ i.
            continue first.0
              (λ _ d'. sym (right_unit (put crc (codes "player") (codes "benzema") d')) i) first.1)
      | inr other ↦ rw other refl
    ]

pub initial-bounds :
    (failpoint : Bytes)
    → All Fits (puts (initial failpoint))
      × (growth (puts (initial failpoint)) ≤ 100)
      × (records_size (puts (initial failpoint)) ≤ 100)
unfolding record_size string_size
initial-bounds failpoint =
    elim (Bool-cases (bytes_eq failpoint (codes "after_modify_existing_entry"))) [
      | inl same ↦ rw same (
        (
          record { key = omega arith; value = omega arith },
          (record { key = omega arith; value = omega arith }, tt),
        ),
        omega arith,
        omega arith,
      )
      | inr other ↦
          rw other
            ((record { key = omega arith; value = omega arith }, tt), omega arith, omega arith)
    ]

-- The files of the first block, and the database that the child opens on them.
pub record Started (crc : Crc32c) (create child_create : ℕ → CreateDirectory)
    (path failpoint : Bytes) : Type 0 where
  pub d : Database
  pub first :
      in_database crc create 1_000_000 path (initialize crc failpoint) no_files
      ≡ (ok tt, files_of (destroy d))
  pub child : Database
  pub opened :
      open_database crc child_create 1_000_000 path (destroy d).db_file (destroy d).idx_file
      ≡ (ok tt, child)
  pub stores : StoresWithin crc child log_header (puts (initial failpoint)) 8_000_141
  pub log_size : length (log_of crc log_header (puts (initial failpoint))) ≤ 124

pub first_block :
    (crc : Crc32c) (create child_create : ℕ → CreateDirectory) (path failpoint : Bytes)
    → extension path ≡ codes ".zdb"
    → Started crc create child_create path failpoint
unfolding in_database
first_block crc create child_create path failpoint named =
    let rs = puts (initial failpoint) in
    let (fits, growth_le, size_le) = initial-bounds failpoint in
    let (d0, s0, opened, report, buckets, size) =
      open_database-sized crc create 1_000_000 path named (omega arith) (omega arith) in
    let (d1, run, (s1, within)) =
      put_all-Stores (initial failpoint) (41 + 8 * 1_000_000) {d = d0} {rs = []}
        (s0, omega (arith, size)) fits (omega arith) (omega (arith, new_log crc)) in
    let (d2, s2, opened', report', buckets', size') =
      open_database-destroy_sized child_create 1_000_000 path s1 named (omega arith) in
    record {
      d = d1;
      first = rw (opened, initialize-put_all crc failpoint d0, run) refl;
      child = d2;
      opened = opened';
      stores = (s2, omega (arith, size'));
      log_size = omega (
        arith,
        length-append log_header (records_bytes crc rs),
        length-records_bytes crc rs,
        length-log_header,
      );
    }

-- Without a failpoint in it, `close` is not stopped.
close-ends : (d : Database) (name : Bytes) → (plain_close d).0 ≢ stops_at name
unfolding plain_close set_index_clean
close-ends d name h = ground arith

-- Where the child is stopped, but `close` cannot stop it, `put` has stopped it.
pub closing_worker-stopped :
    (crc : Crc32c) (requested : Option Bytes) (r : Result (Unit {0}) × Database) {name : Bytes}
    → ((d : Database) → Failpoints.close requested d ≡ plain_close d)
    → (closing_worker crc requested r).0 ≡ stops_at name
    → (closing_worker crc requested r).1 ≡ r.1
closing_worker-stopped crc requested (ok u, d) plain h =
    absurd (close-ends d _ (ap (λ c. c.0) (sym (plain d)) ∙ h))
closing_worker-stopped crc requested (throws e, d) plain h =
    absurd (close-ends d _ (ap (λ c. c.0) (sym (plain d)) ∙ h))
closing_worker-stopped crc requested (diverges, d) plain h = refl
closing_worker-stopped crc requested (stops_at n, d) plain h = refl
