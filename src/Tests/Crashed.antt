-- ===== src/Tests/Crashed.antt =====
-- The theorem about the crash test at a system that stops its child at the first failpoint.
use zidanedb.Base.{◌≡◌, refl, [], ◌∷◌, true, false}
use zidanedb.Base.Results.{stops_at}
use zidanedb.Constants.{codes}
use zidanedb.Stream.{Bytes}
use zidanedb.Matrix.Processes.{pos, ChildProcess, changed, stopped, signaled}
use zidanedb.Matrix.Workloads.{no_files, in_database}
use zidanedb.Matrix.Crash.{Failpoint, failpoint_name, initialize, worker, System}
use zidanedb.Matrix.Crash.Stopped.{worker-initialize}
use zidanedb.Database.{extension}
use zidanedb.Tests.Sample.{sample_crc}
use zidanedb.Tests.Recovered.{create}

abbrev stop_name : Bytes
stop_name = codes "before_db_append"

abbrev pub child : ChildProcess
child = record {
  pid = pos 7;
  reaped = false;
  kills = 0;
  answers = (changed (stopped 19), 1) ∷ (changed (signaled 9), 2) ∷ [];
}

abbrev pub system : System
system = record {
  workspace = create;
  create = create;
  child_create = create;
  reopen_create = create;
  pid = pos 7;
  now = 0;
  sent = true;
  answers = (changed (stopped 19), 1) ∷ (changed (signaled 9), 2) ∷ [];
  early = true;
}

worker-initialize_example :
    (worker sample_crc stop_name true create
      (codes "/tmp/w/database.zdb")
      (in_database sample_crc create 1_000_000
        (codes "/tmp/w/database.zdb")
        (initialize sample_crc stop_name)
        no_files).1).0
    ≡ stops_at stop_name
unfolding failpoint_name extension
worker-initialize_example =
    worker-initialize sample_crc create create (codes "/tmp/w/database.zdb") true
      Failpoint.before_db_append refl
