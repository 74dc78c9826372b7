-- ===== src/Database/Replay.antt =====
-- Building an index from a log of whole records: what the index holds is the replay of the records.
use zidanedb.Base.{
  ℕ, zero, suc, ◌+◌, ◌*◌, ◌^◌, ◌≡◌, refl, ◌≤◌, ◌<◌, ap, Option, none, some, List, [], ◌∷◌, All,
  arith, length, ne→==, ◌++◌, append_assoc, append-nil,
}
use zidanedb.Base.Results.{ok}
use zidanedb.Base.Exec.{continue}
use zidanedb.Stream.{Bytes, IStream, stream}
use zidanedb.Utils.{read_uint8}
use zidanedb.Record.{Crc32c, Record, RecordType, RecordRead, put, delete, read_record, end_of_file}
use zidanedb.Record.RoundTrip.{Fits, record_bytes, record_size, read_record-append}
use zidanedb.Record.Sequence.{records_bytes, records_size}
use zidanedb.Index.{Index, fresh_index, open_index}
use zidanedb.Index.Represents.{Holds}
use zidanedb.Index.Bucket.{Written}
use zidanedb.Index.Set.{insert, set-Holds}
use zidanedb.Index.Erase.Total.{without, erase-Holds}
use zidanedb.Index.Header.{setup-Holds, length-fresh_file}
use zidanedb.Database.{ScanStatus, end_of_log, index_record, rebuild_loop, build_temporary}
use zidanedb.Database.Scan.{Ends, at_end, cut_short, bad_length, bad_checksum, bad_type}

-- What a record that begins at an offset makes of a map from keys to offsets.
unfoldable pub applied : RecordType → Bytes → (start : ℕ) → (Bytes → Option ℕ) → Bytes → Option ℕ
applied put key start m = insert key start m
applied delete key start m = without key m

unfoldable pub replay : (Bytes → Option ℕ) → (start : ℕ) → List Record → Bytes → Option ℕ
replay m start [] = m
replay m start (r ∷ rs) = replay (applied r.type r.key start m) (start + record_size r) rs

-- A bound for what the records add to the index file.
abbrev pub growth : List Record → ℕ
growth [] = 0
growth (r ∷ rs) = 20 + length r.key + growth rs

read_record_end : (crc : Crc32c) (pos : ℕ) → read_record crc (stream [] pos) ≡ end_of_file
unfolding read_record read_uint8
read_record_end crc pos = refl

rebuild_loop_end :
    (crc : Crc32c) (ix : Index) (file : Bytes) (fuel start : ℕ) (s : IStream) {m : RecordRead}
    {status : ScanStatus}
    → read_record crc s ≡ m
    → Ends m status
    → rebuild_loop crc fuel ix s start (some file) ≡ end_of_log status (some file)
unfolding rebuild_loop
rebuild_loop_end crc ix file zero start s e at_end = rw e refl
rebuild_loop_end crc ix file (suc fuel) start s e at_end = rw e refl
rebuild_loop_end crc ix file zero start s e cut_short = rw e refl
rebuild_loop_end crc ix file (suc fuel) start s e cut_short = rw e refl
rebuild_loop_end crc ix file zero start s e bad_length = rw e refl
rebuild_loop_end crc ix file (suc fuel) start s e bad_length = rw e refl
rebuild_loop_end crc ix file zero start s e bad_checksum = rw e refl
rebuild_loop_end crc ix file (suc fuel) start s e bad_checksum = rw e refl
rebuild_loop_end crc ix file zero start s e bad_type = rw e refl
rebuild_loop_end crc ix file (suc fuel) start s e bad_type = rw e refl

module _ {ix : Index} where
  index_record-Holds :
      (t : RecordType) (key value : Bytes) (start : ℕ) {file : Bytes} {m : Bytes → Option ℕ}
      → Holds ix file m
      → Fits (record { type = t; key = key; value = value })
      → start < 2 ^ 64
      → length file + 20 + length key < 2 ^ 63
      → (w : Written ix (applied t key start m) (length file + 20 + length key)) × (index_record ix
            (record { type = t; key = key; value = value })
            start
            (some file)
          ≡ (ok tt, some w.file))
  unfolding index_record applied
  index_record-Holds put key value start h fits lt room =
      let (w, run) = set-Holds key start h fits.key lt room in
      (record { file = w.file; holds = w.holds; grown = omega (arith, w.grown) }, run)
  index_record-Holds delete key value start h fits lt room =
      let (w, run) = erase-Holds key h in
      (
        record { file = w.file; holds = w.holds; grown = omega (arith, w.grown) },
        ap (λ r. continue r.0 (λ _ f. (ok tt, f)) r.1) run,
      )

  rebuild_loop-Ends :
      (crc : Crc32c) (fuel start : ℕ) (rs : List Record) (tail : Bytes) {file : Bytes}
      {m : Bytes → Option ℕ} {end : RecordRead} {status : ScanStatus}
      → length rs ≤ fuel
      → All Fits rs
      → Holds ix file m
      → start + records_size rs < 2 ^ 64
      → length file + growth rs < 2 ^ 63
      → read_record crc (stream tail (start + records_size rs)) ≡ end
      → Ends end status
      → (w : Written ix (replay m start rs) (length file + growth rs)) × (rebuild_loop crc fuel ix
            (stream (records_bytes crc rs ++ tail) start)
            start
            (some file)
          ≡ end_of_log status (some w.file))
  unfolding rebuild_loop replay records_bytes
  rebuild_loop-Ends crc fuel start [] tail enough fits h lt room e ends =
      let same : start + 0 ≡ start = omega arith in
      (
        record { file = _; holds = h; grown = omega arith },
        rebuild_loop_end crc ix _ fuel start (stream tail start) (rw same at e) ends,
      )
  rebuild_loop-Ends crc zero start (r ∷ rs) tail enough fits h lt room e ends = absurd (omega arith)
  rebuild_loop-Ends crc (suc fuel) start (r ∷ rs) tail enough (fit, fits) h lt room e ends =
      let same : start + (record_size r + records_size rs)
          ≡ start + record_size r + records_size rs =
        omega arith in
      let (w, run) =
        index_record-Holds r.type r.key r.value start h fit (omega arith) (omega arith) in
      let (w', run') =
        rebuild_loop-Ends crc fuel (start + record_size r) rs tail (omega arith) fits w.holds
          (omega arith) (omega (arith, w.grown)) (rw same at e) ends in
      (
        record { file = w'.file; holds = w'.holds; grown = omega (arith, w.grown, w'.grown) },
        rw
            (
              append_assoc (record_bytes crc r) (records_bytes crc rs) tail,
              read_record-append crc {r = r} (records_bytes crc rs ++ tail) start fit,
              run,
            )
            run',
      )

-- The temporary index of a rebuild starts out as a new file. It holds the replay of the whole records
-- when the read behind them ends the loop.
pub build_temporary-Ends :
    (crc : Crc32c) (n start : ℕ) (rs : List Record) (tail log : Bytes) {end : RecordRead}
    {status : ScanStatus}
    → 0 < n
    → n < 2 ^ 59
    → All Fits rs
    → length rs ≤ length log
    → start + records_size rs < 2 ^ 64
    → 41 + 8 * n + growth rs < 2 ^ 63
    → read_record crc (stream tail (start + records_size rs)) ≡ end
    → Ends end status
    → (w : Written (fresh_index n) (replay (λ key. none) start rs) (41 + 8 * n + growth rs))
      × (build_temporary crc log (stream (records_bytes crc rs ++ tail) start) start n none
          ≡ end_of_log status (some w.file))
unfolding build_temporary open_index
build_temporary-Ends crc n start rs tail log pos lt fits enough start_lt room e ends =
    let (made, holds) = setup-Holds n pos lt in
    let size = length-fresh_file n pos lt in
    let (w, run) =
      rebuild_loop-Ends crc (length log) start rs tail enough fits holds start_lt
        (omega (arith, size)) e ends in
    (
      record { file = w.file; holds = w.holds; grown = omega (arith, size, w.grown) },
      rw (ne→== n 0 (omega arith), made) run,
    )

pub build_temporary-records :
    (crc : Crc32c) (n start : ℕ) (rs : List Record) (log : Bytes)
    → 0 < n
    → n < 2 ^ 59
    → All Fits rs
    → length rs ≤ length log
    → start + records_size rs < 2 ^ 64
    → 41 + 8 * n + growth rs < 2 ^ 63
    → (w : Written (fresh_index n) (replay (λ key. none) start rs) (41 + 8 * n + growth rs))
      × (build_temporary crc log (stream (records_bytes crc rs) start) start n none
          ≡ (ok tt, some w.file))
build_temporary-records crc n start rs log pos lt fits enough start_lt room =
    rw (append-nil (records_bytes crc rs)) at (
      build_temporary-Ends crc n start rs [] log pos lt fits enough start_lt room
        (read_record_end crc (start + records_size rs)) at_end)
