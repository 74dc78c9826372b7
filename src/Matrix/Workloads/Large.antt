-- ===== src/Matrix/Workloads/Large.antt =====
-- run_perf_large_values.
use zidanedb.Base.{
  ℕ, zero, suc, ◌+◌, ◌*◌, ◌^◌, ◌≤◌, ◌<◌, ◌≡◌, ◌≢◌, refl, none, some, [], ◌++◌, arith, length,
  bytes_eq_self,
}
use zidanedb.Base.Results.{ok}
use zidanedb.Constants.{codes, max_value_size}
use zidanedb.Stream.{Bytes}
use zidanedb.Record.{Crc32c}
use zidanedb.Database.{CreateDirectory, extension}
use zidanedb.Matrix.Utils.{Picks, to_string, random_string, random_loop, pick}
use zidanedb.Matrix.Utils.Keys.{pow10, length-to_string, to_string-injective}
use zidanedb.Matrix.Workloads.{
  Files, passed, no_files, records_loop, missing_or_incorrect, put_all, run_perf_large_values,
}
use zidanedb.Matrix.Workloads.Pairs.{Absent, Distinct, puts, values-puts}
use zidanedb.Matrix.Workloads.Sizes.{Within, puts-Fits, records_size-puts, growth-puts}
use zidanedb.Matrix.Workloads.Passes.{
  put_all-Stores, Writes, both_sizes-Measures, timed_test-passes,
}
use zidanedb.Matrix.Workloads.Timed.{filename_loop-append, new_log}

abbrev large_key : ℕ → Bytes
large_key i = codes "large-key-" ++ to_string i

large_key-ne : (i j : ℕ) → i < j → large_key j ≢ large_key i
large_key-ne i j lt e =
    let same : to_string j ≡ to_string i = cc in
    absurd (omega (arith, to_string-injective j i same))

pub length-random_string : (picks : Picks) (n len : ℕ) → length (random_string picks n len).0 ≡ len
unfolding random_string random_loop pick
length-random_string picks n zero = refl
length-random_string picks n (suc len) = omega (arith, length-random_string picks (n + 1) len)

module _ (picks : Picks) (value_size : ℕ) where
  records_loop-Absent :
      (i rounds index n : ℕ)
      → i < index
      → Absent (large_key i) (records_loop picks value_size rounds index n)
  unfolding records_loop
  records_loop-Absent i zero index n lt = tt
  records_loop-Absent i (suc rounds) index n lt = (
    large_key-ne i index lt,
    records_loop-Absent i rounds (index + 1) (random_string picks n value_size).1 (omega arith),
  )

  records_loop-Distinct :
      (rounds index n : ℕ) → Distinct (records_loop picks value_size rounds index n)
  unfolding records_loop
  records_loop-Distinct zero index n = tt
  records_loop-Distinct (suc rounds) index n = (
    records_loop-Absent index rounds (index + 1) (random_string picks n value_size).1 (omega arith),
    records_loop-Distinct rounds (index + 1) (random_string picks n value_size).1,
  )

  records_loop-Within :
      (rounds index n : ℕ)
      → index + rounds ≤ pow10 10
      → Within 20 value_size (records_loop picks value_size rounds index n)
        × (length (records_loop picks value_size rounds index n) ≡ rounds)
  unfolding records_loop
  records_loop-Within zero index n lt = (tt, refl)
  records_loop-Within (suc rounds) index n lt =
      let (rest, size) =
        records_loop-Within rounds (index + 1) (random_string picks n value_size).1 (omega arith) in
      (
        (
          (
            omega (arith, length-to_string 9 index (omega arith)),
            omega (arith, length-random_string picks n value_size),
          ),
          rest,
        ),
        omega (arith, size),
      )

pub content : (key v : Bytes) → missing_or_incorrect key v (some v) ≡ none
unfolding missing_or_incorrect
content key v = rw (bytes_eq_self v) refl

module _ (crc : Crc32c) (create reopen_create : ℕ → CreateDirectory) (temporary : Bytes)
    (picks : Picks) (count value_size : ℕ) where
  large-Writes :
      count ≤ pow10 10
      → value_size ≤ max_value_size
      → 24 + (33 + value_size) * count < 2 ^ 63
      → Writes crc
          (put_all crc (records_loop picks value_size count 0 0))
          1_000_000
          (records_loop picks value_size count 0 0)
  large-Writes lt value_le room d s =
      let records = records_loop picks value_size count 0 0 in
      let (within, size) = records_loop-Within picks value_size count 0 0 (omega arith) in
      let bytes = rw size at (records_size-puts 20 value_size records within) in
      let entries = rw size at (growth-puts 20 value_size records within) in
      let (d', run, (s', grown)) =
        put_all-Stores records (41 + 8 * 1_000_000) {d = d} {rs = []} s
          (puts-Fits 20 value_size records (omega arith) value_le within) (omega arith)
          (omega (arith, new_log crc)) in
      (
        d',
        puts records,
        run,
        s',
        values-puts records (λ key. none) (records_loop-Distinct picks value_size count 0 0),
      )

  -- Where the values are within the size limit, there are ten thousand million pairs at most, and
  -- with 33 bytes more for each value the log stays below 2^63 bytes, `run_perf_large_values`
  -- returns 0 with nothing on the error stream, and leaves no files.
  pub run_perf_large_values-passes :
      (f : Files)
      → count ≤ pow10 10
      → value_size ≤ max_value_size
      → 24 + (33 + value_size) * count < 2 ^ 63
      → run_perf_large_values crc create reopen_create temporary picks count value_size f
        ≡ (ok passed, no_files)
  unfolding run_perf_large_values extension
  run_perf_large_values-passes f lt value_le room =
      timed_test-passes crc create reopen_create 1_000_000 _ _ _ missing_or_incorrect _
        (rw (filename_loop-append temporary [] (codes "matrix-large-values.zdb")) refl)
        (omega arith) (omega arith) (large-Writes lt value_le room) (both_sizes-Measures crc)
        content f
