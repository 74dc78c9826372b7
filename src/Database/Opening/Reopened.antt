-- ===== src/Database/Opening/Reopened.antt =====
-- Closing a database, and opening its files again.
use zidanedb.Base.{
  ℕ, ◌^◌, ◌<◌, ◌≡◌, refl, sym, ap, ◌∙◌, Option, none, some, List, ◌++◌, true, false, arith, length,
  All, eq→==,
}
use zidanedb.Base.Results.{Result, ok, throws, database_closed}
use zidanedb.Constants.{codes}
use zidanedb.Stream.{Bytes}
use zidanedb.Record.{Crc32c, Record}
use zidanedb.Record.RoundTrip.{Fits}
use zidanedb.Record.Sequence.{records_bytes}
use zidanedb.Index.{Index}
use zidanedb.Index.Represents.{Holds}
use zidanedb.Index.Header.{with_clean}
use zidanedb.Index.Header.Fields.{set_index_clean-Holds}
use zidanedb.Database.{
  Database, CreateDirectory, ensure_open, header_size, unopened, extension, get, put, erase,
  get_index_stats, scan_records, recover_records, rebuild_index, index_metadata_clean, close,
  mark_closed, destroy, recover_unclean, open_existing, open_database,
}
use zidanedb.Database.Replay.{replay}
use zidanedb.Database.Recovery.{open_index-Holds, log_of}
use zidanedb.Database.Contents.{Stores}
use zidanedb.Database.Opening.{
  log_header, length-log_header, session, no_recovery, load-log, mark_unclean-Holds,
  open_database-existing, session-Stores,
}

-- What `ensure_open` says of the members.
pub ensure_open-ok :
    (d : Database) {ix : Index} → ensure_open d ≡ ok ix → (d.closed ≡ false) × (d.index ≡ some ix)
unfolding ensure_open
ensure_open-ok d h = ground arith

-- Where an open database stores a list of records, `close` returns; the log is unchanged, the index
-- file holds the same map under an index whose flag is set, and the object is closed.
pub close-Stores :
    {crc : Crc32c} {d : Database} {header : Bytes} {rs : List Record} (s : Stores crc d header rs)
    → (idx' : Bytes) × (close d
        ≡ (ok tt, record d { idx_file = some idx'; index = none; closed = true }))
      × Holds (with_clean s.index 1) idx' (replay (λ key. none) (header_size d) rs)
      × (length idx' ≡ length s.idx)
unfolding close
close-Stores {crc} {d} {header} {rs} s =
    let (open_still, has_index) = ensure_open-ok d s.is_open in
    let (idx', run, holds, same) = set_index_clean-Holds s.holds true in
    (
      idx',
      rw
          (
            open_still,
            has_index,
            s.log,
            eq→== (length (header ++ records_bytes crc rs)) s.index.indexed_up_to_offset
                (sym s.caught_up),
            s.idx_file,
            run,
          )
          refl,
      holds,
      same,
    )

index_metadata_clean-clean :
    (ix : Index) (log : Bytes) (idx : Option Bytes)
    → ix.index_clean ≡ 1
    → ix.indexed_up_to_offset ≡ length log
    → index_metadata_clean (session (some log) idx (some ix) no_recovery) ≡ ok true
unfolding index_metadata_clean
index_metadata_clean-clean ix log idx flag up_to =
    rw (eq→== ix.index_clean 1 flag, eq→== (length log) ix.indexed_up_to_offset (sym up_to)) refl

-- Opening the files of a clean close, with the size of the index file.
pub open_database-clean :
    (crc : Crc32c) (create : ℕ → CreateDirectory) (n : ℕ) (path : Bytes) (rs : List Record)
    {ix : Index} {idx : Bytes}
    → extension path ≡ codes ".zdb"
    → 0 < n
    → Holds ix idx (replay (λ key. none) 24 rs)
    → ix.index_clean ≡ 1
    → ix.indexed_up_to_offset ≡ length (log_of crc log_header rs)
    → All Fits rs
    → length (log_of crc log_header rs) < 2 ^ 63
    → (d : Database) × (s : Stores crc d log_header rs) × (open_database crc create n path
          (some (log_of crc log_header rs))
          (some idx)
        ≡ (ok tt, d))
      × (d.report ≡ no_recovery)
      × (s.index.num_buckets ≡ ix.num_buckets)
      × (length s.idx ≡ length idx)
unfolding open_existing recover_unclean session-Stores
open_database-clean crc create n path rs {ix} {idx} named pos h flag up_to fits small =
    let log = log_of crc log_header rs in
    let (idx', marked, holds', same) = mark_unclean-Holds (some log) no_recovery h in
    let existing : open_existing crc create n (unopened (some log) (some idx))
        ≡ (ok tt, session (some log) (some idx) (some ix) no_recovery) =
      rw
        (
          load-log (records_bytes crc rs) (some idx),
          open_index-Holds n pos h,
          index_metadata_clean-clean ix log (some idx) flag up_to,
        )
        refl in
    (
      _,
      session-Stores no_recovery holds' up_to refl refl small fits,
      open_database-existing crc create n path named log (some idx) existing ∙ marked,
      refl,
      refl,
      same,
    )

pub destroy-close :
    (d : Database) {r : Result (Unit {0})} {d' : Database} → close d ≡ (r, d') → destroy d ≡ d'
unfolding destroy
destroy-close d run = ap (λ r. r.1) run

pub open_database-destroy_sized :
    {crc : Crc32c} {d : Database} {rs : List Record} (create : ℕ → CreateDirectory) (n : ℕ)
    (path : Bytes) (s : Stores crc d log_header rs)
    → extension path ≡ codes ".zdb"
    → 0 < n
    → (d' : Database) × (s' : Stores crc d' log_header rs) × (open_database crc create n path
          (destroy d).db_file
          (destroy d).idx_file
        ≡ (ok tt, d'))
      × (d'.report ≡ no_recovery)
      × (s'.index.num_buckets ≡ s.index.num_buckets)
      × (length s'.idx ≡ length s.idx)
open_database-destroy_sized {crc} {d} {rs} create n path s named pos =
    let (idx', run, holds, same) = close-Stores s in
    let clean = rw (s.header_length ∙ length-log_header) at holds in
    let (d', stores, opened, report, buckets, same') =
      open_database-clean crc create n path rs named pos clean refl s.caught_up s.fits s.small in
    (
      d',
      stores,
      ap (λ (e : Database). open_database crc create n path e.db_file e.idx_file)
            (destroy-close d run)
          ∙ ap (λ f. open_database crc create n path f (some idx')) s.log
          ∙ opened,
      report,
      buckets,
      same' ∙ same,
    )

-- Where an open database stores a list of records under a valid header, the path ends in `.zdb`
-- and the number of buckets is positive, opening the files that the destructor leaves returns; the
-- database stores the same records, and the report tells of no recovery.
pub open_database-destroy :
    {crc : Crc32c} {d : Database} {rs : List Record} (create : ℕ → CreateDirectory) (n : ℕ)
    (path : Bytes)
    → Stores crc d log_header rs
    → extension path ≡ codes ".zdb"
    → 0 < n
    → (d' : Database) × (open_database crc create n path (destroy d).db_file (destroy d).idx_file
        ≡ (ok tt, d'))
      × Stores crc d' log_header rs
      × (d'.report ≡ no_recovery)
open_database-destroy create n path s named pos =
    let (d', s', opened, report, buckets, same) =
      open_database-destroy_sized create n path s named pos in
    (d', opened, s', report)

marked-closed :
    (ix : Index) (d : Database) {u : Unit {0}} {d' : Database}
    → mark_closed ix d ≡ (ok u, d')
    → d'.closed ≡ true
unfolding mark_closed
marked-closed ix d h = ground arith

close-closed :
    (d : Database) {u : Unit {0}} {d' : Database} → close d ≡ (ok u, d') → d'.closed ≡ true
unfolding close
close-closed d h = ground arith

-- Behind a `close` that returned, the methods throw that the database is closed and change
-- nothing, and another `close` returns and changes nothing.
pub close-throws :
    (crc : Crc32c) (create : ℕ → CreateDirectory) (key val : Bytes) (start : ℕ) (d : Database)
    {d' : Database}
    → close d ≡ (ok tt, d')
    → (get crc d' key ≡ throws database_closed)
      × (put crc key val d' ≡ (throws database_closed, d'))
      × (erase crc key d' ≡ (throws database_closed, d'))
      × (get_index_stats d' ≡ throws database_closed)
      × (index_metadata_clean d' ≡ throws database_closed)
      × (scan_records crc d' start ≡ throws database_closed)
      × (rebuild_index crc create start d' ≡ (throws database_closed, d'))
      × (recover_records crc create d' ≡ (throws database_closed, d'))
      × (close d' ≡ (ok tt, d'))
unfolding get put erase get_index_stats index_metadata_clean scan_records rebuild_index
    recover_records close ensure_open
close-throws crc create key val start d h =
    let e = close-closed d h in (rw e, rw e, rw e, rw e, rw e, rw e, rw e, rw e, rw e)
