-- ===== src/Tests/Lives.antt =====
-- A life of a database with every kind of failure, runs of the program, and a log that is refused.
use zidanedb.Base.{replicate, ◌≡◌, refl, List, [], ◌∷◌, none, some, true, arith, All}
use zidanedb.Base.Results.{ok, throws, db_corrupted_rebuild}
use zidanedb.Constants.{codes}
use zidanedb.Stream.{Bytes}
use zidanedb.Utils.{string_size}
use zidanedb.Record.RoundTrip.{record_size}
use zidanedb.Database.{Database, get, open_database}
use zidanedb.Database.Opening.{session, no_recovery}
use zidanedb.Database.Opening.Recovered.{missing, torn_log}
use zidanedb.Database.Opening.Broken.{cut, open_database-Unusable_Broken}
use zidanedb.Sessions.{
  Event, put_event, get_event, erase_event, reopen, kill, lose_index, crash_put, crash_close,
  cut_append, run_new, answers, final, WithinLimits,
}
use zidanedb.Cli.{Command, put_command, get_command, delete_command}
use zidanedb.Cli.Programs.{run_programs, consoles, run_programs-refines}
use zidanedb.Sessions.Refines.{run_new-refines}
use zidanedb.Tests.Sample.{sample_crc}
use zidanedb.Tests.Recovered.{put_a, put_a-Fits, one_put, cut-Tail, create, records_size-one_put}
use zidanedb.Tests.Recovered
use zidanedb.Tests.Opened.{path, named, length-torn_log}
use zidanedb.Tests.Stored.{new_database}

abbrev life : List Event
life =
    put_event (codes "a") (codes "one")
    ∷ crash_put (some (codes "before_update_bucket_head")) true (codes "b") (codes "two")
    ∷ cut_append put_a 2
    ∷ lose_index
    ∷ put_event (replicate 1025 97) (codes "long")
    ∷ kill
    ∷ erase_event (codes "a")
    ∷ crash_close (some (codes "clean_db_close"))
    ∷ get_event (codes "b")
    ∷ reopen
    ∷ []

life-WithinLimits : All WithinLimits life
life-WithinLimits = (tt, (tt, (put_a-Fits, (tt, (tt, (tt, (tt, (tt, (tt, (tt, tt))))))))))

run_new-refines_example :
    (d' : Database) × (run_new sample_crc create 2 path life new_database
      ≡ (ok (answers life (λ key. none)), d'))
    × ((key : Bytes) → get sample_crc d' key ≡ ok (final life (λ key. none) key))
unfolding record_size string_size
run_new-refines_example =
    run_new-refines sample_crc create 2 path life new_database named refl (omega arith)
      (omega arith) life-WithinLimits (omega arith) (omega arith)

open_database-Unusable_Broken_example :
    open_database sample_crc create 2 path (some (torn_log sample_crc one_put Recovered.cut)) none
    ≡ (
      throws db_corrupted_rebuild,
      session (some (torn_log sample_crc one_put Recovered.cut)) none none no_recovery,
    )
open_database-Unusable_Broken_example =
    open_database-Unusable_Broken sample_crc create 2 path one_put named refl (omega arith)
      (omega arith) missing (cut cut-Tail) (put_a-Fits, tt)
      (omega (arith, length-torn_log Recovered.cut)) (omega arith)

abbrev commands : List Command
commands =
    put_command (codes "a") (codes "one")
    ∷ put_command (replicate 1025 97) (codes "long")
    ∷ get_command (codes "a")
    ∷ delete_command (codes "a")
    ∷ get_command (codes "a")
    ∷ []

run_programs-refines_example :
    run_programs (λ e. codes "error") sample_crc create 2 path commands none none
    ≡ ok (consoles (λ e. codes "error") commands (λ key. none))
unfolding record_size string_size
run_programs-refines_example =
    run_programs-refines (λ e. codes "error") sample_crc create 2 path commands named refl
      (omega arith) (omega arith) (omega arith) (omega arith)
