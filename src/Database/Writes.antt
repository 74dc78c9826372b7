-- ===== src/Database/Writes.antt =====
-- `put` on an open database whose index is caught up with the log.
use zidanedb.Base.{
  ℕ, ◌+◌, ◌^◌, ◌≡◌, refl, sym, ◌≤◌, ◌<◌, ◌∙◌, ap, Option, none, some, List, [], ◌∷◌, ◌++◌, All,
  arith, length, length-append, append_assoc, append-nil, le→ltb, if◌then◌else◌, bytes_eq,
  Bool-cases, inl, inr,
}
use zidanedb.Base.Results.{ok}
use zidanedb.Constants.{max_key_size, max_value_size}
use zidanedb.Stream.{Bytes}
use zidanedb.Record.{Crc32c, Record}
use zidanedb.Record.RoundTrip.{
  Fits, record_bytes, record_size, length-record_bytes, serialize_record-ok,
}
use zidanedb.Record.Sequence.{records_bytes, records_size, length-records_bytes}
use zidanedb.Index.{Index}
use zidanedb.Index.Represents.{Holds}
use zidanedb.Index.Set.{insert, set-Holds}
use zidanedb.Index.Header.{with_up_to}
use zidanedb.Index.Header.Fields.{set_indexed_up_to_offset-Holds}
use zidanedb.Database.{Database, ensure_open, header_size, get, put, put_record, append_record}
use zidanedb.Database.Replay.{applied, replay}
use zidanedb.Database.Contents.{Stores, get-Stores, put_of, stored, values}

pub replay-append :
    (rs : List Record) (r : Record) (m : Bytes → Option ℕ) (start : ℕ)
    → replay m start (rs ++ r ∷ [])
      ≡ applied r.type r.key (start + records_size rs) (replay m start rs)
unfolding replay
replay-append [] r m start = let e : start + 0 ≡ start = omega arith in rw e refl
replay-append (x ∷ rs) r m start =
    let e : start + (record_size x + records_size rs) ≡ start + record_size x + records_size rs =
      omega arith in
    rw e (replay-append rs r (applied x.type x.key start m) (start + record_size x))

pub records_bytes-append :
    (crc : Crc32c) (rs : List Record) (r : Record)
    → records_bytes crc (rs ++ r ∷ []) ≡ records_bytes crc rs ++ record_bytes crc r
unfolding records_bytes
records_bytes-append crc [] r = append-nil (record_bytes crc r)
records_bytes-append crc (x ∷ rs) r =
    rw
      (
        records_bytes-append crc rs r,
        append_assoc (record_bytes crc x) (records_bytes crc rs) (record_bytes crc r),
      )
      refl

pub All-append : (rs : List Record) (r : Record) → All Fits rs → Fits r → All Fits (rs ++ r ∷ [])
All-append [] r fits fit = (fit, tt)
All-append (x ∷ rs) r (f, fits) fit = (f, All-append rs r fits fit)

module _ {crc : Crc32c} {d : Database} {header : Bytes} {rs : List Record}
    (s : Stores crc d header rs) where
  pub appended_log :
      (r : Record)
      → (header ++ records_bytes crc rs) ++ record_bytes crc r
        ≡ header ++ records_bytes crc (rs ++ r ∷ [])
  appended_log r =
      rw (records_bytes-append crc rs r)
        (append_assoc header (records_bytes crc rs) (record_bytes crc r))

  pub log_end : length (header ++ records_bytes crc rs) ≡ header_size d + records_size rs
  log_end = omega (
    arith,
    length-append header (records_bytes crc rs),
    length-records_bytes crc rs,
    s.header_length,
  )

  abbrev after_put : (key val idx : Bytes) → Database
  after_put key val idx = record d {
    db_file = some ((header ++ records_bytes crc rs) ++ record_bytes crc (put_of key val));
    idx_file = some idx;
    index = some (
        with_up_to s.index
          (length (header ++ records_bytes crc rs) + length (record_bytes crc (put_of key val))));
  }

  pub put-run :
      (key val : Bytes)
      → Fits (put_of key val)
      → length s.idx + 20 + length key < 2 ^ 63
      → length (header ++ records_bytes crc rs) + record_size (put_of key val) < 2 ^ 63
      → (idx : Bytes) × Holds
          (with_up_to s.index
            (length (header ++ records_bytes crc rs) + length (record_bytes crc (put_of key val))))
          idx
          (insert key
            (length (header ++ records_bytes crc rs))
            (replay (λ key. none) (header_size d) rs))
        × (put crc key val d ≡ (ok tt, after_put key val idx))
        × (length idx ≤ length s.idx + (20 + length key))
  unfolding put put_record append_record
  put-run key val fits idx_room log_room =
      let l = length (header ++ records_bytes crc rs) in
      let grown = length-record_bytes crc (put_of key val) in
      let (w, set_run) = set-Holds key l s.holds fits.key (omega arith) (omega arith) in
      let (idx, up_to_run, holds, same) =
        set_indexed_up_to_offset-Holds w.holds (l + length (record_bytes crc (put_of key val)))
          (omega (arith, grown)) in
      (
        idx,
        holds,
        rw
            (
              s.is_open,
              le→ltb max_key_size (length key) fits.key,
              le→ltb max_value_size (length val) fits.value,
              serialize_record-ok crc fits,
              s.log,
              s.idx_file,
              set_run,
              up_to_run,
            )
            refl,
        omega (arith, same, w.grown),
      )

pub still_open :
    (d : Database) {ix : Index} (db idx : Bytes) (new : Index)
    → ensure_open d ≡ ok ix
    → ensure_open (record d { db_file = some db; idx_file = some idx; index = some new }) ≡ ok new
unfolding ensure_open
still_open d db idx new h = elim (Bool-cases d.closed) [
  | inl closed ↦ cc (rw closed at h)
  | inr open_still ↦ rw open_still refl
]

-- What `put` leaves, with a bound for the size of the index file.
pub put-grows :
    {crc : Crc32c} {d : Database} {header : Bytes} {rs : List Record} (key val : Bytes)
    → (s : Stores crc d header rs) → Fits (put_of key val)
    → length s.idx + 20 + length key < 2 ^ 63
    → length (header ++ records_bytes crc rs) + record_size (put_of key val) < 2 ^ 63
    → (d' : Database) × (s' : Stores crc d' header (rs ++ put_of key val ∷ [])) × (put crc key val d
        ≡ (ok tt, d'))
      × (s'.index.num_buckets ≡ s.index.num_buckets)
      × (length s'.idx ≤ length s.idx + (20 + length key))
unfolding header_size applied
put-grows {crc} {d} {header} {rs} key val s fits idx_room log_room =
    let r = put_of key val in
    let (idx, holds, run, grown) = put-run s key val fits idx_room log_room in
    let end = length-record_bytes crc r in
    let new_log = appended_log s r in
    let new_length : length (header ++ records_bytes crc (rs ++ r ∷ []))
        ≡ length (header ++ records_bytes crc rs) + length (record_bytes crc r) =
      rw (← new_log) (length-append (header ++ records_bytes crc rs) (record_bytes crc r)) in
    (
      after_put s key val idx,
      record {
        index = _;
        idx = idx;
        is_open = still_open d _ idx _ s.is_open;
        log = ap some new_log;
        idx_file = refl;
        holds = rw (replay-append rs r (λ key. none) (header_size d), ← log_end s) holds;
        caught_up = sym new_length;
        dirty = s.dirty;
        header_length = s.header_length;
        small = omega (arith, new_length, end);
        fits = All-append rs r s.fits fits;
      },
      run,
      refl,
      grown,
    )

-- Where an open database stores a list of records, the key and the value are within the size
-- limits, and the index file and the log stay below 2^63 bytes, `put` returns and leaves a
-- database that stores the same records with the new one behind them.
pub put-Stores :
    {crc : Crc32c} {d : Database} {header : Bytes} {rs : List Record} (key val : Bytes)
    → (s : Stores crc d header rs) → length key ≤ max_key_size
    → length val ≤ max_value_size
    → length s.idx + 20 + length key < 2 ^ 63
    → length (header ++ records_bytes crc rs) + record_size (put_of key val) < 2 ^ 63
    → (d' : Database) × (put crc key val d ≡ (ok tt, d'))
      × Stores crc d' header (rs ++ put_of key val ∷ [])
put-Stores key val s key_le val_le idx_room log_room =
    let (d', s', run, buckets, grown) =
      put-grows key val s (record { key = key_le; value = val_le }) idx_room log_room in
    (d', run, s')

pub values-append :
    (rs : List Record) (r : Record) (v : Bytes → Option Bytes)
    → values v (rs ++ r ∷ []) ≡ stored r.type r.key r.value (values v rs)
unfolding values
values-append [] r v = refl
values-append (x ∷ rs) r v = values-append rs r (stored x.type x.key x.value v)

-- Where an open database stores a list of records, the key and the value are within the size
-- limits, and the index file and the log stay below 2^63 bytes, `get` of any key after a `put`
-- returns the new value for the key that was put, and what the records had for every other key.
pub get-put :
    {crc : Crc32c} {d : Database} {header : Bytes} {rs : List Record} (key val k : Bytes)
    → (s : Stores crc d header rs) → length key ≤ max_key_size
    → length val ≤ max_value_size
    → length s.idx + 20 + length key < 2 ^ 63
    → length (header ++ records_bytes crc rs) + record_size (put_of key val) < 2 ^ 63
    → get crc (put crc key val d).1 k
      ≡ ok (if bytes_eq key k then some val else values (λ key. none) rs k)
unfolding stored
get-put {crc} {d} {header} {rs} key val k s key_le val_le idx_room log_room =
    let (d', run, s') = put-Stores key val s key_le val_le idx_room log_room in
    rw run (get-Stores k s' ∙ ap (λ v. ok (v k)) (values-append rs (put_of key val) (λ key. none)))
