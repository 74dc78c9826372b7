-- ===== src/Failpoints/Recovery.antt =====
-- What opening the files again makes of a database whose process was killed in `put`.
use zidanedb.Base.{
  ℕ, ◌+◌, ◌*◌, ◌^◌, ◌≤◌, ◌<◌, ◌≡◌, refl, sym, ap, ◌∙◌, List, [], ◌∷◌, ◌++◌, Option, some, Bool,
  true, false, if◌then◌else◌, arith, length, All, inl, ne→==, append-nil, length-append,
}
use zidanedb.Base.Results.{ok}
use zidanedb.Constants.{codes, max_key_size, max_value_size}
use zidanedb.Stream.{Bytes}
use zidanedb.Record.{Crc32c, Record}
use zidanedb.Record.RoundTrip.{Fits, record_bytes, record_size, length-record_bytes}
use zidanedb.Record.Sequence.{records_bytes}
use zidanedb.Index.{open_index}
use zidanedb.Database.{Database, CreateDirectory, made, RecoveryReason, extension, open_database}
use zidanedb.Database.Scan.{whole}
use zidanedb.Database.Replay.{growth}
use zidanedb.Database.Recovery.{log_of}
use zidanedb.Database.Contents.{Stores, StoresSized, put_of}
use zidanedb.Database.Writes.{All-append, appended_log}
use zidanedb.Database.Opening.{log_header, full_rebuild}
use zidanedb.Database.Opening.Recovered.{open_database-Unclean}
use zidanedb.Failpoints.{is_requested, put}
use zidanedb.Failpoints.Crashes.{Crashed, put-Crashed}

pub open_database-Crashed :
    {crc : Crc32c} {rs : List Record} {n : ℕ} {d : Database} (create : ℕ → CreateDirectory) (k : ℕ)
    (path : Bytes)
    → Crashed crc rs n d
    → extension path ≡ codes ".zdb"
    → create 0 ≡ made
    → 0 < k
    → 0 < n
    → n < 2 ^ 59
    → All Fits rs
    → length (log_of crc log_header rs) < 2 ^ 63
    → 41 + 8 * n + growth rs < 2 ^ 63
    → (d' : Database) × (open_database crc create k path d.db_file d.idx_file ≡ (ok tt, d'))
      × StoresSized crc d' log_header rs n (41 + 8 * n + growth rs)
      × (d'.report ≡ full_rebuild RecoveryReason.unclean_index 0)
unfolding open_index
open_database-Crashed {crc} {rs} {n} {d} create k path c named first k_pos pos lt fits small room =
    let flat : records_bytes crc rs ++ [] ≡ records_bytes crc rs =
      append-nil (records_bytes crc rs) in
    let opened : open_index k (some c.idx) ≡ (ok c.index, some c.idx) =
      rw (ne→== k 0 (omega arith), c.loads) refl in
    let (d', run, (stores, same, size), report) =
      open_database-Unclean crc create k path rs [] {ix = c.index} {idx = c.idx} named first opened
        (omega (arith, c.buckets)) (omega (arith, c.buckets))
        (inl (λ e. absurd (omega (arith, c.dirty)))) whole fits (rw flat small)
        (omega (arith, c.buckets)) in
    (
      d',
      ap (λ f. open_database crc create k path f d.idx_file) c.log
          ∙ ap (λ f. open_database crc create k path (some (log_of crc log_header rs)) f) c.idx_file
          ∙ ap
              (λ (b : Bytes). open_database crc create k path (some (log_header ++ b)) (some c.idx))
              (sym flat)
          ∙ run,
      (stores, same ∙ c.buckets, omega (arith, size, c.buckets)),
      report,
    )

pub growth-append :
    (rs : List Record) (r : Record) → growth (rs ++ r ∷ []) ≡ growth rs + 20 + length r.key
growth-append [] r = omega arith
growth-append (x ∷ rs) r = omega (arith, growth-append rs r)

-- Where an open database stores a list of records under a valid header, the key and the value are
-- within the size limits, the index file, the log and the new index file stay below 2^63 bytes, the
-- index has less than 2^59 buckets, the path ends in `.zdb`, the number of buckets
-- is positive and the first staging directory is made: when the process is killed behind a `put`
-- with any failpoint requested, wherever that stopped it, opening the files again returns; the
-- database stores the old records where the failpoint is `before_db_append`, and those with the new
-- one behind them for every other, in an index file of the old number of buckets with at most 20
-- bytes and the key for each record behind them, and the report tells of an unclean index and of no
-- bytes cut off.
pub open_database-put_crash :
    {crc : Crc32c} {d : Database} {rs : List Record} (create : ℕ → CreateDirectory) (k : ℕ)
    (path : Bytes) (requested : Option Bytes) (early : Bool) (key val : Bytes)
    (s : Stores crc d log_header rs)
    → extension path ≡ codes ".zdb"
    → create 0 ≡ made
    → 0 < k
    → s.index.num_buckets < 2 ^ 59
    → length key ≤ max_key_size
    → length val ≤ max_value_size
    → length s.idx + 20 + length key < 2 ^ 63
    → length (log_of crc log_header rs) + record_size (put_of key val) < 2 ^ 63
    → 41 + 8 * s.index.num_buckets + growth rs + 20 + length key < 2 ^ 63
    → (d' : Database) × (open_database crc create k path
          (put requested early crc key val d).1.db_file
          (put requested early crc key val d).1.idx_file
        ≡ (ok tt, d'))
      × StoresSized crc d' log_header
          (if is_requested requested (codes "before_db_append")
            then rs
            else rs ++ put_of key val ∷ [])
          s.index.num_buckets
          (41 + 8 * s.index.num_buckets + growth rs + 20 + length key)
      × (d'.report ≡ full_rebuild RecoveryReason.unclean_index 0)
open_database-put_crash {crc} {d} {rs} create k path requested early key val s named first k_pos lt
      key_le val_le idx_room log_room room =
    let r = put_of key val in
    let pos = s.holds.represents.header.num_buckets_pos in
    let crashed = put-Crashed s requested early key val key_le val_le idx_room log_room in
    let asked = is_requested requested (codes "before_db_append") in
    let longer : length (log_of crc log_header (rs ++ r ∷ []))
        ≡ length (log_of crc log_header rs) + length (record_bytes crc r) =
      rw (← appended_log s r) (length-append (log_of crc log_header rs) (record_bytes crc r)) in
    let limit = 41 + 8 * s.index.num_buckets + growth rs + 20 + length key in
    let within : 41 + 8 * s.index.num_buckets + growth (if asked then rs else rs ++ r ∷ [])
        ≤ limit =
      either asked (λ l. 41 + 8 * s.index.num_buckets + growth l ≤ limit) (omega arith)
        (omega (arith, growth-append rs r)) in
    let (d', run, (stores, same, size), report) =
      open_database-Crashed create k path crashed named first k_pos pos lt
        (either asked (λ l. All Fits l) s.fits
          (All-append rs r s.fits (record { key = key_le; value = val_le })))
        (either asked (λ l. length (log_of crc log_header l) < 2 ^ 63) s.small
          (omega (arith, longer, length-record_bytes crc r)))
        (omega (arith, within)) in
    (d', run, (stores, same, omega (arith, size, within)), report)
  where
    either :
        (b : Bool) (P : List Record → Type 0) {x y : List Record}
        → P x
        → P y
        → P (if b then x else y)
    either true P h k = h
    either false P h k = k
