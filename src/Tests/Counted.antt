-- ===== src/Tests/Counted.antt =====
-- The theorems about the counts of an index, the processes of the matrix tests and their workloads
-- at concrete inputs.
use zidanedb.Base.{
  length, All, if◌then◌else◌, ◌==◌, eq→==, ℕ, ◌+◌, ◌%◌, get_or, ◌*◌, ◌<◌, ◌≤◌, ◌≡◌, ◌≢◌, ◌↔◌, refl,
  [], ◌∷◌, none, some, Bool, true, false, arith, bytes_eq, inl, inr, Option,
}
use zidanedb.Base.Results.{ok, throws, index_not_empty}
use zidanedb.Constants.{codes}
use zidanedb.Stream.{Bytes}
use zidanedb.Index.{IndexStats, empty, stats, fresh_index}
use zidanedb.Index.Counts.{empty-Holds}
use zidanedb.Index.Counts.Bounds.{stats-bounds}
use zidanedb.Index.Counts.Stats.{chain_lengths, stats_of, stats-Holds}
use zidanedb.Index.Set.{insert}
use zidanedb.Database.{CreateDirectory, made, taken, Database, extension, open_database}
use zidanedb.Database.Opening.Created.{open_database-orphan}
use zidanedb.Matrix.Processes.{
  pos, ChildProcess, Status, signaled, changed, interrupted, WaitOutcome, kill_and_reap,
  wait_for_state,
}
use zidanedb.Matrix.Processes.Reaping.{Waits, kill_and_reap-interruptions, wait_for_state-returns}
use zidanedb.Matrix.Processes.Statuses.{Ended}
use zidanedb.Matrix.Workloads.{passed, no_files}
use zidanedb.Matrix.Workloads.Pairs.{Rearranged-refl}
use zidanedb.Matrix.Main.{
  basic, perf_basic, perf_large_values, perf_overwrite, hash_collision, main,
}
use zidanedb.Matrix.Main.Passes.{main-passes}
use zidanedb.Matrix.Utils.{Picks, random_string, temporary_directory}
use zidanedb.Matrix.Utils.Keys.{
  is_alphanumeric, letter, IsUniform, random_string_lem, temporary_directory_lem,
}
use zidanedb.Tests.Crashed.{system}
use zidanedb.Tests.Sample.{sample_crc}
use zidanedb.Tests.Recovered.{create}
use zidanedb.Tests.Stored.{no_keys}
use zidanedb.Tests.Witnesses.{key_a, with_a}

empty-Holds_example :
    (b : Bool) × (empty (fresh_index 2) (some with_a.0.file) ≡ ok b)
    × ((b ≡ true) ↔ ((key : Bytes) → insert key_a 24 no_keys key ≡ none))
empty-Holds_example = empty-Holds with_a.0.holds

stats-Holds_example :
    stats (fresh_index 2) (some with_a.0.file)
    ≡ ok (stats_of (chain_lengths with_a.0.holds.chains 2 0))
unfolding fresh_index
stats-Holds_example = stats-Holds with_a.0.holds

a_there : insert key_a 24 no_keys key_a ≢ none
unfolding bytes_eq
a_there h = cc

stats-bounds_example :
    (r : IndexStats) × (sum : ℕ) × (chains : ℕ) × (stats (fresh_index 2) (some with_a.0.file)
      ≡ ok r)
    × (r.avg_chain_length ≡ some (sum, chains))
    × (r.empty_buckets + r.non_empty_buckets ≡ 2)
    × (chains ≡ r.non_empty_buckets)
    × (0 < chains)
    × (chains ≤ sum)
    × (sum ≤ r.max_chain_length * chains)
unfolding fresh_index
stats-bounds_example = stats-bounds key_a with_a.0.holds a_there

abbrev path : Bytes
path = codes "dir.d/x.zdb"

open_database-orphan_example :
    (d : Database) × (open_database sample_crc create 3 path none (some with_a.0.file)
      ≡ (throws index_not_empty, d))
    × (d.db_file ≡ none)
    × (d.idx_file ≡ some with_a.0.file)
unfolding extension
open_database-orphan_example =
    open_database-orphan sample_crc create 3 path key_a refl (omega arith) with_a.0.holds a_there

-- A child that is stopped, interrupted once, and killed.
abbrev child : ChildProcess
child = record {
  pid = pos 7;
  reaped = false;
  kills = 0;
  answers = (interrupted, 5) ∷ (changed (signaled 9), 6) ∷ [];
}

kill_and_reap-interruptions_example :
    (killed : Bool) × (kill_and_reap true child
      ≡ (ok killed, record child { kills = 1; reaped = true; answers = [] }))
    × ((killed ≡ true) ↔ (signaled 9 ≡ signaled 9))
kill_and_reap-interruptions_example =
    kill_and_reap-interruptions (5 ∷ []) (signaled 9) 6 [] child refl refl

wait_for_state-returns_example :
    (outcome : WaitOutcome) × (status : Option Status) × (c' : ChildProcess) × (wait_for_state 2 4
        child
      ≡ (ok (outcome, status), c'))
    × Waits (2 + 4) child.answers outcome status c'.answers
    × (c'.kills ≡ 0)
    × ((c'.reaped ≡ true) ↔ ((s : Status) × (status ≡ some s) × Ended s))
wait_for_state-returns_example = wait_for_state-returns 2 4 child refl (inr (inl (omega arith)))

main-passes_example :
    (main sample_crc create create
        (codes "/tmp")
        (λ pairs. pairs)
        (λ low high n. n)
        system
        (λ n. [])
        (λ e. [])
        basic
        no_files
      ≡ ok passed)
    × (main sample_crc create create
          (codes "/tmp")
          (λ pairs. pairs)
          (λ low high n. n)
          system
          (λ n. [])
          (λ e. [])
          (perf_basic 12)
          no_files
        ≡ ok passed)
    × (main sample_crc create create
          (codes "/tmp")
          (λ pairs. pairs)
          (λ low high n. n)
          system
          (λ n. [])
          (λ e. [])
          (perf_large_values 12 100)
          no_files
        ≡ ok passed)
    × (main sample_crc create create
          (codes "/tmp")
          (λ pairs. pairs)
          (λ low high n. n)
          system
          (λ n. [])
          (λ e. [])
          (perf_overwrite 12 3)
          no_files
        ≡ ok passed)
    × (main sample_crc create create
          (codes "/tmp")
          (λ pairs. pairs)
          (λ low high n. n)
          system
          (λ n. [])
          (λ e. [])
          (hash_collision 12 2)
          no_files
        ≡ ok passed)
main-passes_example =
    main-passes sample_crc create create (codes "/tmp") (λ pairs. pairs) (λ low high n. n) system
      (λ n. []) (λ e. []) no_files 12 100 3 2 Rearranged-refl (omega arith) (omega arith)
      (omega arith) (omega arith) (omega arith) (omega arith)

-- A distribution that gives its lower and its upper bound in turn.
abbrev alternating : Picks
alternating low high n = if n % 2 == 0 then low else high

alternating-IsUniform : IsUniform alternating
alternating-IsUniform low high n le = ground arith

random_string_lem_example :
    (length (random_string alternating 5 12).0 ≡ 12)
    × All (λ b. is_alphanumeric b ≡ true) (random_string alternating 5 12).0
    × ((random_string alternating 5 12).1 ≡ 5 + 12)
    × ((i : ℕ)
        → i < 12
        → get_or (random_string alternating 5 12).0 i 0 ≡ letter (alternating 0 61 (5 + i)))
random_string_lem_example = random_string_lem alternating 5 12 alternating-IsUniform

-- The first candidate exists already.
abbrev candidates : ℕ → CreateDirectory
candidates n = if n == 0 then taken else made

temporary_directory_lem_example : temporary_directory candidates ≡ ok 1
temporary_directory_lem_example =
    temporary_directory_lem candidates 1 (λ i h. taken_first i h) made_second (omega arith)
  where
    taken_first : (i : ℕ) → i < 1 → candidates i ≡ taken
    taken_first i h = rw (eq→== i 0 (omega arith)) refl

    made_second : candidates 1 ≢ taken
    made_second h = cc
