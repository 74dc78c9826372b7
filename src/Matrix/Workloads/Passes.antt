-- ===== src/Matrix/Workloads/Passes.antt =====
-- The tests with timings pass: every pair that was put is read back from the database that is opened
-- again, and the files are removed.
use zidanedb.Base.{
  ℕ, ◌+◌, ◌*◌, ◌^◌, ◌≤◌, ◌<◌, ◌≡◌, refl, sym, ap, ◌∙◌, Option, none, some, List, [], ◌∷◌, ◌++◌,
  arith, length, All, append_assoc, append-nil, length-append,
}
use mathlib.Core.Path.{subst}
use zidanedb.Base.Results.{ok}
use zidanedb.Constants.{codes}
use zidanedb.Stream.{Bytes}
use zidanedb.Record.{Crc32c, Record}
use zidanedb.Record.RoundTrip.{Fits, record_bytes, record_size, length-record_bytes}
use zidanedb.Record.Sequence.{records_bytes, records_size}
use zidanedb.Index.Counts.Stats.{stats-Holds}
use zidanedb.Database.{
  Database, DbExec, CreateDirectory, db_file_size, extension, get_index_stats, close, destroy,
}
use zidanedb.Database.Replay.{growth}
use zidanedb.Database.Contents.{Stores, put_of, values, get-Stores}
use zidanedb.Database.Writes.{appended_log, put-grows}
use zidanedb.Database.Opening.{log_header}
use zidanedb.Database.Opening.Created.{open_database-sized}
use zidanedb.Database.Opening.Reopened.{ensure_open-ok, open_database-destroy}
use zidanedb.Matrix.Workloads.{
  Pairs, Files, passed, no_files, files_of, put_all, verify_loop, finish, finish_or_fail,
  in_database, remove_files, timed_test, db_size, both_sizes, index_stats,
}
use zidanedb.Matrix.Workloads.Pairs.{puts}

-- A database that stores records, with a bound for the size of its index file.
abbrev pub StoresWithin : Crc32c → Database → Bytes → List Record → ℕ → Type 0
StoresWithin crc d header rs limit = (s : Stores crc d header rs) × (length s.idx ≤ limit)

module _ {crc : Crc32c} {header : Bytes} where
  length-log :
      {d : Database} {rs : List Record} (r : Record)
      → Stores crc d header rs
      → length (header ++ records_bytes crc (rs ++ r ∷ []))
        ≡ length (header ++ records_bytes crc rs) + record_size r
  length-log {rs = rs} r s = rw (← appended_log s r) (
      length-append (header ++ records_bytes crc rs) (record_bytes crc r)
      ∙ ap (λ (n : ℕ). length (header ++ records_bytes crc rs) + n) (length-record_bytes crc r))

  -- Putting pairs one behind the other.
  pub put_all-Stores :
      (pairs : Pairs) (limit : ℕ) {d : Database} {rs : List Record}
      → StoresWithin crc d header rs limit
      → All Fits (puts pairs)
      → limit + growth (puts pairs) < 2 ^ 63
      → length (header ++ records_bytes crc rs) + records_size (puts pairs) < 2 ^ 63
      → (d' : Database) × (put_all crc pairs d ≡ (ok tt, d'))
        × StoresWithin crc d' header (rs ++ puts pairs) (limit + growth (puts pairs))
  unfolding put_all
  put_all-Stores [] limit {d} {rs} (s, within) fits idx_room log_room = (
    d,
    refl,
    subst (λ l. StoresWithin crc d header l (limit + 0)) (sym (append-nil rs)) (s, omega arith),
  )
  put_all-Stores ((k, v) ∷ pairs) limit {d} {rs} (s, within) (fit, fits) idx_room log_room =
      let r = put_of k v in
      let (d', s', run, buckets, grown) = put-grows k v s fit (omega arith) (omega arith) in
      let (d'', run', s'') =
        put_all-Stores pairs (limit + (20 + length k)) {d = d'} {rs = rs ++ r ∷ []}
          (s', omega (arith, grown)) fits (omega arith) (omega (arith, length-log r s)) in
      let size : limit + (20 + length k) + growth (puts pairs)
          ≡ limit + (20 + length k + growth (puts pairs)) =
        omega arith in
      (d'', rw run run', subst2_within (append_assoc rs (r ∷ []) (puts pairs)) size s'')
    where
      subst2_within :
          {d : Database} {rs rs' : List Record} {m n : ℕ}
          → rs ≡ rs'
          → m ≡ n
          → StoresWithin crc d header rs m
          → StoresWithin crc d header rs' n
      subst2_within {d} {n = n} e e' h =
          subst (λ l. StoresWithin crc d header l n) e (h.0, omega (arith, h.1))

-- Reading back what the records stand for.
pub verify_loop-Stores :
    {crc : Crc32c} {d : Database} {header : Bytes} {rs : List Record}
    (complaint : (key expected : Bytes) → Option Bytes → Option Bytes) (pairs : Pairs)
    → ((k v : Bytes) → complaint k v (some v) ≡ none)
    → Stores crc d header rs
    → All (λ p. values (λ key. none) rs p.0 ≡ some p.1) pairs
    → verify_loop crc complaint d pairs ≡ ok none
unfolding verify_loop
verify_loop-Stores complaint [] content s all = refl
verify_loop-Stores complaint ((k, v) ∷ pairs) content s (here, all) =
    rw (get-Stores k s, here, content k v, verify_loop-Stores complaint pairs content s all) refl

-- The destructor of a database whose files were removed leaves no files.
destroy-removed :
    {crc : Crc32c} {d : Database} {header : Bytes} {rs : List Record}
    → Stores crc d header rs
    → files_of (destroy (record d { db_file = none; idx_file = none })) ≡ no_files
unfolding destroy close
destroy-removed {d = d} s =
    let (open_still, has_index) = ensure_open-ok d s.is_open in rw (open_still, has_index) refl

-- What the writes of a test do to a new database.
abbrev pub Writes : Crc32c → DbExec (Unit {0}) → ℕ → Pairs → Type 0
Writes crc writes buckets expected =
    (d : Database)
    → StoresWithin crc d log_header [] (41 + 8 * buckets)
    → (d' : Database) × (rs : List Record) × (writes d ≡ (ok tt, d'))
      × Stores crc d' log_header rs
      × All (λ p. values (λ key. none) rs p.0 ≡ some p.1) expected

-- What is measured changes nothing.
abbrev pub Measures : Crc32c → DbExec (Unit {0}) → Type 0
Measures crc measures =
    (d : Database) (rs : List Record) → Stores crc d log_header rs → measures d ≡ (ok tt, d)

pub db_size-Measures : (crc : Crc32c) → Measures crc db_size
unfolding db_file_size
db_size-Measures crc d rs s = rw s.log refl

pub both_sizes-Measures : (crc : Crc32c) → Measures crc both_sizes
unfolding db_file_size
both_sizes-Measures crc d rs s = rw (s.log, s.idx_file) refl

pub index_stats-Measures : (crc : Crc32c) → Measures crc index_stats
unfolding get_index_stats
index_stats-Measures crc d rs s = rw (s.is_open, s.idx_file, stats-Holds s.holds) refl

module _ (crc : Crc32c) (create reopen_create : ℕ → CreateDirectory) (buckets : ℕ) (path : Bytes)
    (writes measures : DbExec (Unit {0}))
    (complaint : (key expected : Bytes) → Option Bytes → Option Bytes) (expected : Pairs) where
  pub timed_test-passes :
      extension path ≡ codes ".zdb"
      → 0 < buckets
      → buckets < 2 ^ 59
      → Writes crc writes buckets expected
      → Measures crc measures
      → ((k v : Bytes) → complaint k v (some v) ≡ none)
      → (f : Files)
      → timed_test crc create reopen_create buckets path writes measures complaint expected f
        ≡ (ok passed, no_files)
  unfolding timed_test remove_files in_database finish_or_fail finish
  timed_test-passes named pos lt written measured content f =
      let (d, s, opened, report, same_buckets, size) =
        open_database-sized crc create buckets path named pos lt in
      let (d', rs, wrote, s', all) = written d (s, omega (arith, size)) in
      let (d'', reopened, s'', report') =
        open_database-destroy reopen_create 1_000_000 path s' named (omega arith) in
      rw
        (
          opened,
          wrote,
          reopened,
          verify_loop-Stores complaint expected content s'' all,
          measured d'' rs s'',
        )
        (ap (λ (g : Files). (ok passed, g)) (destroy-removed s''))
