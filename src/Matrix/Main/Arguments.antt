-- ===== src/Matrix/Main/Arguments.antt =====
-- apps/matrix/matrix.cpp: the options of the subcommands with their defaults and checks. The parser is
-- CLI11's, and so are its two checks: `positive` is `CLI::PositiveNumber`, `is_member` is
-- `CLI::IsMember`, and `parse_error` is what `app.exit(error)` prints and returns.
use zidanedb.Base.{ℕ, ◌*◌, Option, none, some, List, [], ◌∷◌, Bool, if◌then◌else◌}
use zidanedb.Base.Results.{Exception, Result, ok}
use zidanedb.Constants.{codes}
use zidanedb.Stream.{Bytes}
use zidanedb.Record.{Crc32c}
use zidanedb.Database.{CreateDirectory}
use zidanedb.Matrix.Utils.{Picks}
use zidanedb.Matrix.Workloads.{Pairs, Files, Verdict}
use zidanedb.Matrix.Crash.{System}
use zidanedb.Matrix.Main
use zidanedb.Matrix.Main.{
  Subcommand, basic, perf_basic, perf_large_values, perf_overwrite, hash_collision, crash_test,
}

-- The subcommand and what follows its options on the command line, `none` for an option that is not
-- there.
pub data Arguments : Type 0 where
  basic_arguments : Arguments
  perf_basic_arguments : (pairs : Option ℕ) → Arguments
  perf_large_values_arguments : (pairs value_size : Option ℕ) → Arguments
  perf_overwrite_arguments : (pairs overwrites : Option ℕ) → Arguments
  hash_collision_arguments : (pairs buckets : Option ℕ) → Arguments
  crash_test_arguments : (failpoint : Bytes) → Arguments

-- An option that is not given leaves its variable as it was.
abbrev pub or_default : Option ℕ → (default_value : ℕ) → ℕ
or_default none default_value = default_value
or_default (some n) default_value = n

abbrev pub failpoint_names : List Bytes
failpoint_names =
    codes "before_db_append"
    ∷ codes "after_db_append"
    ∷ codes "before_update_indexed_up_to_offset"
    ∷ codes "after_update_indexed_up_to_offset"
    ∷ codes "clean_db_close"
    ∷ codes "after_modify_existing_entry"
    ∷ codes "before_update_bucket_head"
    ∷ codes "after_update_bucket_head"
    ∷ codes "before_set_index_clean"
    ∷ []

module _ (positive : ℕ → Bool) (is_member : List Bytes → Bytes → Bool) where
  -- A check runs on a value that is given.
  abbrev pub checked : Option ℕ → Option Subcommand → Option Subcommand
  checked none command = command
  checked (some n) command = if positive n then command else none

  -- `none` where a check fails.
  unfoldable pub subcommand : Arguments → Option Subcommand
  subcommand basic_arguments = some basic
  subcommand (perf_basic_arguments pairs) = some (perf_basic (or_default pairs 10_000))
  subcommand (perf_large_values_arguments pairs value_size) =
      some (perf_large_values (or_default pairs 1_000) (or_default value_size (64 * 1024)))
  subcommand (perf_overwrite_arguments pairs overwrites) = checked pairs (
      checked overwrites
        (some (perf_overwrite (or_default pairs 1_000) (or_default overwrites 100))))
  subcommand (hash_collision_arguments pairs buckets) = checked pairs (
      checked buckets
        (some (hash_collision (or_default pairs 1_000_000) (or_default buckets 1_000_000))))
  subcommand (crash_test_arguments failpoint) =
      if is_member failpoint_names failpoint then some (crash_test failpoint) else none

  module _ (crc : Crc32c) (create reopen_create : ℕ → CreateDirectory) (temporary : Bytes)
      (order : Pairs → Pairs) (picks : Picks) (system : System) (directory : ℕ → Bytes)
      (parse_error : Verdict) (what : Exception → Bytes) where
    abbrev selected : Option Subcommand → Files → Result Verdict
    selected none f = ok parse_error
    selected (some command) f =
        Main.main crc create reopen_create temporary order picks system directory what command f

    unfoldable pub main_arguments : Arguments → Files → Result Verdict
    main_arguments arguments f = selected (subcommand arguments) f
