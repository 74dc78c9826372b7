-- ===== src/Failpoints/Closing.antt =====
-- What is left of a database when the process is stopped in `close` and killed.
use zidanedb.Base.{
  ℕ, ◌+◌, ◌*◌, ◌^◌, arith, ◌≤◌, ◌<◌, ◌≡◌, refl, sym, ap, ◌∙◌, List, Option, none, some, true, false,
  if◌then◌else◌, length, inl, inr, eq→==, Bool-cases, ◌++◌,
}
use zidanedb.Base.Results.{ok}
use zidanedb.Constants.{codes}
use zidanedb.Stream.{Bytes}
use zidanedb.Record.{Crc32c, Record}
use zidanedb.Record.Sequence.{records_bytes}
use zidanedb.Index.Represents.{Holds}
use zidanedb.Index.Header.{with_clean}
use zidanedb.Index.Header.Fields.{set_index_clean-Holds}
use zidanedb.Index.Header.Load.{load-Holds}
use zidanedb.Database.{
  Database, CreateDirectory, made, RecoveryReason, header_size, db_file_size, extension,
  open_database,
}
use zidanedb.Database.Replay.{growth, replay}
use zidanedb.Database.Recovery.{log_of}
use zidanedb.Database.Contents.{Stores, StoresSized}
use zidanedb.Database.Opening.{log_header, length-log_header, full_rebuild, no_recovery}
use zidanedb.Database.Opening.Reopened.{ensure_open-ok, open_database-clean}
use zidanedb.Failpoints.{is_requested, failpoint, mark_closed, close}
use zidanedb.Failpoints.Recovery.{open_database-Crashed}

-- Where `close` gets behind its first failpoint, the index is marked as clean, also where the second
-- one stops it.
close-clean :
    {crc : Crc32c} {d : Database} {header : Bytes} {rs : List Record} (s : Stores crc d header rs)
    (requested : Option Bytes)
    → is_requested requested (codes "before_set_index_clean") ≡ false
    → (idx' : Bytes) × Holds (with_clean s.index 1) idx' (replay (λ key. none) (header_size d) rs)
      × ((close requested d).1.idx_file ≡ some idx')
      × ((close requested d).1.db_file ≡ some (header ++ records_bytes crc rs))
      × (length idx' ≡ length s.idx)
unfolding close mark_closed failpoint db_file_size
close-clean {crc} {d} {header} {rs} s requested other =
    let (open_still, has_index) = ensure_open-ok d s.is_open in
    let (idx', run, holds, same) = set_index_clean-Holds s.holds true in
    let caught =
      eq→== (length (header ++ records_bytes crc rs)) s.index.indexed_up_to_offset
        (sym s.caught_up) in
    elim (Bool-cases (is_requested requested (codes "clean_db_close"))) [
      | inl asked ↦ (
        idx',
        holds,
        rw (open_still, has_index, s.log, caught, other, s.idx_file, run, asked) refl,
        rw (open_still, has_index, s.log, caught, other, s.idx_file, run, asked) refl,
        same,
      )
      | inr not_asked ↦ (
        idx',
        holds,
        rw (open_still, has_index, s.log, caught, other, s.idx_file, run, not_asked) refl,
        rw (open_still, has_index, s.log, caught, other, s.idx_file, run, not_asked) refl,
        same,
      )
    ]

-- Where `close` is stopped at its first failpoint, it has changed nothing.
close-stopped :
    {crc : Crc32c} {d : Database} {header : Bytes} {rs : List Record} (s : Stores crc d header rs)
    (requested : Option Bytes)
    → is_requested requested (codes "before_set_index_clean") ≡ true
    → ((close requested d).1.idx_file ≡ some s.idx)
      × ((close requested d).1.db_file ≡ some (header ++ records_bytes crc rs))
unfolding close mark_closed failpoint db_file_size
close-stopped {crc} {d} {header} {rs} s requested asked =
    let (open_still, has_index) = ensure_open-ok d s.is_open in
    let caught =
      eq→== (length (header ++ records_bytes crc rs)) s.index.indexed_up_to_offset
        (sym s.caught_up) in
    (
      rw (open_still, has_index, s.log, caught, asked) s.idx_file,
      rw (open_still, has_index, s.log, caught, asked) refl,
    )

-- Where an open database stores a list of records under a valid header, the index has less than
-- 2^59 buckets, its file and a new one for the records have at most `limit` bytes, which is below
-- 2^63, the path ends in `.zdb`, the number of buckets is positive and the first staging directory is made: when the process is killed behind a
-- `close` with any failpoint requested, opening the files again returns; the database stores the
-- same records, in an index file of the old number of buckets with at most `limit` bytes, and the report tells of an unclean index where the failpoint is
-- `before_set_index_clean`, and of no recovery for every other.
pub open_database-close_crash :
    {crc : Crc32c} {d : Database} {rs : List Record} (create : ℕ → CreateDirectory) (k : ℕ)
    (path : Bytes) (requested : Option Bytes) (limit : ℕ) (s : Stores crc d log_header rs)
    → extension path ≡ codes ".zdb"
    → create 0 ≡ made
    → 0 < k
    → s.index.num_buckets < 2 ^ 59
    → length s.idx ≤ limit
    → 41 + 8 * s.index.num_buckets + growth rs ≤ limit
    → limit < 2 ^ 63
    → (d' : Database) × (open_database crc create k path
          (close requested d).1.db_file
          (close requested d).1.idx_file
        ≡ (ok tt, d'))
      × StoresSized crc d' log_header rs s.index.num_buckets limit
      × (d'.report ≡ (
          if is_requested requested (codes "before_set_index_clean")
          then full_rebuild RecoveryReason.unclean_index 0
          else no_recovery))
open_database-close_crash {crc} {d} {rs} create k path requested limit s named first k_pos lt old_le
      new_le room =
    elim (Bool-cases (is_requested requested (codes "before_set_index_clean"))) [
      | inl asked ↦
          let (idx_file, log) = close-stopped s requested asked in
          let (d', run, (s', same, size), report) =
            open_database-Crashed {d = (close requested d).1} create k path
              (record {
                index = s.index;
                idx = s.idx;
                log = log;
                idx_file = idx_file;
                loads = load-Holds s.holds;
                dirty = s.dirty;
                buckets = refl;
              })
              named first k_pos s.holds.represents.header.num_buckets_pos lt s.fits s.small
              (omega arith) in
          rw asked (d', run, (s', same, omega (arith, size)), report)
      | inr other ↦
          let (idx', holds, idx_file, log, same) = close-clean s requested other in
          let clean = rw (s.header_length ∙ length-log_header) at holds in
          let (d', stores, opened, report, buckets, size) =
            open_database-clean crc create k path rs named k_pos clean refl s.caught_up s.fits
              s.small in
          rw other (
            d',
            ap (λ f. open_database crc create k path f (close requested d).1.idx_file) log
                ∙ ap (λ f. open_database crc create k path (some (log_of crc log_header rs)) f)
                    idx_file
                ∙ opened,
            (stores, buckets, omega (arith, size, same)),
            report,
          )
    ]
