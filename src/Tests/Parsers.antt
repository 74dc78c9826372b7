-- ===== src/Tests/Parsers.antt =====
-- The theorems about the options of the matrix program, at a check that looks its value up in the list.
use zidanedb.Base.{
  ℕ, ◌≡◌, refl, List, [], ◌∷◌, Bool, true, false, if◌then◌else◌, All, ltb, none, inl, inr,
  Bool-cases, bytes_eq, bytes_eq_self,
}
use zidanedb.Base.Results.{ok}
use zidanedb.Constants.{codes}
use zidanedb.Stream.{Bytes}
use zidanedb.Matrix.Utils.{temporary_directory}
use zidanedb.Matrix.Processes.{child_process, wait_for_state, kill_and_reap}
use zidanedb.Matrix.Workloads.{passed, failed_with, no_files}
use zidanedb.Matrix.Workloads.Pairs.{Rearranged-refl}
use zidanedb.Matrix.Crash.{Failpoint, failpoint_name, watch}
use zidanedb.Matrix.Main.Arguments.{
  basic_arguments, perf_basic_arguments, perf_large_values_arguments, perf_overwrite_arguments,
  hash_collision_arguments, crash_test_arguments,
}
use zidanedb.Matrix.Main.Defaults.{main_arguments-defaults, main_arguments-crash_test, exits_with}
use zidanedb.Tests.Crashed.{system, child}
use zidanedb.Tests.Sample.{sample_crc}
use zidanedb.Tests.Recovered.{create}

abbrev positive : ℕ → Bool
positive n = ltb 0 n

abbrev is_listed : List Bytes → Bytes → Bool
is_listed [] x = false
is_listed (name ∷ names) x = if bytes_eq name x then true else is_listed names x

listed-longer :
    (name : Bytes) (names xs : List Bytes)
    → All (λ x. is_listed names x ≡ true) xs
    → All (λ x. is_listed (name ∷ names) x ≡ true) xs
listed-longer name names [] h = tt
listed-longer name names (x ∷ xs) (h, hs) = (
  elim (Bool-cases (bytes_eq name x)) [ inl same ↦ rw same refl | inr differs ↦ rw differs h ],
  listed-longer name names xs hs,
)

listed-members : (names : List Bytes) → All (λ name. is_listed names name ≡ true) names
listed-members [] = tt
listed-members (name ∷ names) =
    (rw (bytes_eq_self name) refl, listed-longer name names names (listed-members names))

main_arguments-defaults_example :
    (exits_with positive is_listed sample_crc create create
        (codes "/tmp")
        (λ pairs. pairs)
        (λ low high n. n)
        system
        (λ n. [])
        (failed_with [])
        (λ e. [])
        basic_arguments
        no_files
      ≡ ok passed)
    × (exits_with positive is_listed sample_crc create create
          (codes "/tmp")
          (λ pairs. pairs)
          (λ low high n. n)
          system
          (λ n. [])
          (failed_with [])
          (λ e. [])
          (perf_basic_arguments none)
          no_files
        ≡ ok passed)
    × (exits_with positive is_listed sample_crc create create
          (codes "/tmp")
          (λ pairs. pairs)
          (λ low high n. n)
          system
          (λ n. [])
          (failed_with [])
          (λ e. [])
          (perf_large_values_arguments none none)
          no_files
        ≡ ok passed)
    × (exits_with positive is_listed sample_crc create create
          (codes "/tmp")
          (λ pairs. pairs)
          (λ low high n. n)
          system
          (λ n. [])
          (failed_with [])
          (λ e. [])
          (perf_overwrite_arguments none none)
          no_files
        ≡ ok passed)
    × (exits_with positive is_listed sample_crc create create
          (codes "/tmp")
          (λ pairs. pairs)
          (λ low high n. n)
          system
          (λ n. [])
          (failed_with [])
          (λ e. [])
          (hash_collision_arguments none none)
          no_files
        ≡ ok passed)
main_arguments-defaults_example =
    main_arguments-defaults positive is_listed sample_crc create create (codes "/tmp")
      (λ pairs. pairs) (λ low high n. n) system (λ n. []) (failed_with []) (λ e. []) Rearranged-refl
      no_files

main_arguments-crash_test_example :
    exits_with positive is_listed sample_crc create create
      (codes "/tmp")
      (λ pairs. pairs)
      (λ low high n. n)
      system
      (λ n. codes "/tmp/w")
      (failed_with [])
      (λ e. [])
      (crash_test_arguments (codes "before_update_bucket_head"))
      no_files
    ≡ ok passed
unfolding failpoint_name temporary_directory child_process watch wait_for_state kill_and_reap
main_arguments-crash_test_example =
    main_arguments-crash_test positive is_listed sample_crc create create (codes "/tmp")
      (λ pairs. pairs) (λ low high n. n) system (λ n. codes "/tmp/w") (failed_with []) (λ e. [])
      Rearranged-refl no_files Failpoint.before_update_bucket_head {attempt = 0} {child = child}
      listed-members refl refl refl refl
