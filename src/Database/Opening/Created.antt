-- ===== src/Database/Opening/Created.antt =====
-- The constructor of `Database` where there is no data log.
use zidanedb.Base.{
  ℕ, ◌+◌, ◌*◌, ◌^◌, ◌<◌, ◌≡◌, ◌≢◌, refl, sym, ◌∙◌, Option, none, some, [], arith, length,
  append-nil, ne→==, Bool-cases, inl, inr, bytes_eq_self,
}
use zidanedb.Base.Results.{ok, throws, index_not_empty}
use zidanedb.Constants.{codes, db_magic}
use zidanedb.Stream.{Bytes}
use zidanedb.Utils.Strings.{write_string-ok}
use zidanedb.Record.{Crc32c}
use zidanedb.Record.Sequence.{records_bytes}
use zidanedb.Index.{Index, fresh_index, open_index}
use zidanedb.Index.Represents.{Holds}
use zidanedb.Index.Counts.{empty-Holds}
use zidanedb.Index.Header.{setup-Holds, length-fresh_file, with_up_to}
use zidanedb.Index.Header.Fields.{set_indexed_up_to_offset-Holds}
use zidanedb.Database.{
  Database, CreateDirectory, unopened, setup, db_file_size, extension, open_new, construct,
  open_database,
}
use zidanedb.Database.Replay.{replay}
use zidanedb.Database.Recovery.{open_index-Holds}
use zidanedb.Database.Contents.{Stores}
use zidanedb.Database.Opening.{
  log_header, length-log_header, length-db_magic, session, no_recovery, mark_unclean-Holds,
  open_database-new, session-Stores,
}

setup-log :
    (idx : Option Bytes) (ix : Index)
    → setup (record (unopened none idx) { index = some ix })
      ≡ (ok tt, session (some log_header) idx (some ix) no_recovery)
unfolding setup unopened
setup-log idx ix =
    rw (write_string-ok db_magic (length db_magic) (omega arith) (omega (arith, length-db_magic)))
      refl

module _ (crc : Crc32c) (create : ℕ → CreateDirectory) (n : ℕ) where
  open_new-Holds :
      (f : Option Bytes) {ix : Index} {idx : Bytes} {m : Bytes → Option ℕ}
      → open_index n f ≡ (ok ix, some idx)
      → Holds ix idx m
      → ((key : Bytes) → m key ≡ none)
      → (idx' : Bytes) × (open_new crc create n (unopened none f)
          ≡ (ok tt, session (some log_header) (some idx') (some (with_up_to ix 24)) no_recovery))
        × Holds (with_up_to ix 24) idx' m
        × (length idx' ≡ length idx)
  unfolding open_new db_file_size unopened
  open_new-Holds f {ix} {idx} opened h no_keys =
      let (b, run, (keys, all)) = empty-Holds h in
      let (idx', up_to, holds, same) = set_indexed_up_to_offset-Holds h 24 (omega arith) in
      (
        idx',
        rw (opened, run, all no_keys, setup-log (some idx) ix, length-log_header, up_to) refl,
        holds,
        same,
      )

-- A new database, with the size of its index file.
pub open_database-sized :
    (crc : Crc32c) (create : ℕ → CreateDirectory) (n : ℕ) (path : Bytes)
    → extension path ≡ codes ".zdb"
    → 0 < n
    → n < 2 ^ 59
    → (d : Database) × (s : Stores crc d log_header []) × (open_database crc create n path none none
        ≡ (ok tt, d))
      × (d.report ≡ no_recovery)
      × (s.index.num_buckets ≡ n)
      × (length s.idx ≡ 41 + 8 * n)
unfolding open_index replay records_bytes session-Stores fresh_index
open_database-sized crc create n path named pos lt =
    let (made, empty) = setup-Holds n pos lt in
    let (idx, run, holds, same) =
      open_new-Holds crc create n none (rw (ne→== n 0 (omega arith), made) refl) empty
        (λ key. refl) in
    let (idx', marked, holds', same') = mark_unclean-Holds (some log_header) no_recovery holds in
    (
      _,
      session-Stores no_recovery holds' (rw (append-nil log_header) (sym length-log_header)) refl
          (sym (append-nil log_header)) (omega (arith, length-log_header)) tt,
      open_database-new crc create n path named none run ∙ marked,
      refl,
      refl,
      omega (arith, same, same', length-fresh_file n pos lt),
    )

-- Where the path ends in `.zdb` and there are no files, and the number of buckets is positive and
-- below 2^59, opening a database returns; the log then is a header, the database stores no
-- records, and the report tells of no recovery.
pub open_database-Created :
    (crc : Crc32c) (create : ℕ → CreateDirectory) (n : ℕ) (path : Bytes)
    → extension path ≡ codes ".zdb"
    → 0 < n
    → n < 2 ^ 59
    → (d : Database) × (open_database crc create n path none none ≡ (ok tt, d))
      × Stores crc d log_header []
      × (d.report ≡ no_recovery)
open_database-Created crc create n path named pos lt =
    let (d, s, run, report, buckets, size) = open_database-sized crc create n path named pos lt in
    (d, run, s, report)

-- Where the path ends in `.zdb` and there is no log, but the index file holds a map with a key,
-- opening a database with a positive number of buckets throws, and leaves the files as they were.
pub open_database-orphan :
    (crc : Crc32c) (create : ℕ → CreateDirectory) (n : ℕ) (path key : Bytes) {ix : Index}
    {idx : Bytes} {m : Bytes → Option ℕ}
    → extension path ≡ codes ".zdb"
    → 0 < n
    → Holds ix idx m
    → m key ≢ none
    → (d : Database) × (open_database crc create n path none (some idx)
        ≡ (throws index_not_empty, d))
      × (d.db_file ≡ none)
      × (d.idx_file ≡ some idx)
unfolding open_database construct unopened open_new
open_database-orphan crc create n path key {ix} {idx} named pos h there =
    let (b, run, (keys, all)) = empty-Holds h in
    elim (Bool-cases b) [
      | inl e ↦ absurd (there (keys e key))
      | inr e ↦ (
        record (unopened none (some idx)) { index = some ix },
        rw (named, bytes_eq_self (codes ".zdb"), open_index-Holds n pos h, run, e) refl,
        refl,
        refl,
      )
    ]
