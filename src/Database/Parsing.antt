-- ===== src/Database/Parsing.antt =====
-- Every log is whole records with an end that recovery cuts off or refuses.
use zidanedb.Base.{
  ℕ, zero, suc, ◌≤◌, ◌≡◌, refl, ap, List, [], ◌∷◌, ◌++◌, arith, length, IsBytes, All, append_assoc,
  length-append,
}
use zidanedb.Stream.{Bytes}
use zidanedb.Record.{Crc32c, Record, RecordRead}
use zidanedb.Record.RoundTrip.{Fits, record_bytes, record_size, length-record_bytes}
use zidanedb.Record.Damaged.{Damaged}
use zidanedb.Record.Views.{RecordView, nothing, first_record, cut_off, damage, record_view}
use zidanedb.Record.Sequence.{records_bytes}
use zidanedb.Database.{ScanStatus}
use zidanedb.Database.Scan.{Tail, whole}

-- What is behind the whole records of a log.
pub data LogEnd (crc : Crc32c) : Bytes → Type 0 where
  repairable : {tail : Bytes} {status : ScanStatus} → Tail crc tail status → LogEnd crc tail
  refused : {tail : Bytes} {m : RecordRead} → Damaged crc tail m → LogEnd crc tail

-- Bytes as whole records and what is behind them.
pub record Parsed (crc : Crc32c) (bytes : Bytes) : Type 0 where
  pub records : List Record
  pub tail : Bytes
  pub split : bytes ≡ records_bytes crc records ++ tail
  pub fits : All Fits records
  pub end : LogEnd crc tail

module _ (crc : Crc32c) where
  with_no_records : {bytes : Bytes} → LogEnd crc bytes → Parsed crc bytes
  unfolding records_bytes
  with_no_records {bytes} end = record {
    records = [];
    tail = bytes;
    split = refl;
    fits = tt;
    end = end;
  }

  with_first :
      (r : Record) {rest : Bytes}
      → Fits r
      → Parsed crc rest
      → Parsed crc (record_bytes crc r ++ rest)
  unfolding records_bytes
  with_first r fits p = record {
    records = r ∷ p.records;
    tail = p.tail;
    split =
        rw (append_assoc (record_bytes crc r) (records_bytes crc p.records) p.tail)
          (ap (λ l. record_bytes crc r ++ l) p.split);
    fits = (fits, p.fits);
    end = p.end;
  }

  parse_view :
      (fuel : ℕ) {bytes : Bytes} → length bytes ≤ fuel → RecordView crc bytes → Parsed crc bytes
  unfolding record_size
  parse_view fuel enough nothing = with_no_records (repairable whole)
  parse_view fuel enough (cut_off read) = with_no_records (repairable (Tail.cut_off read))
  parse_view fuel enough (damage d) = with_no_records (refused d)
  parse_view zero enough (first_record r rest fits bytes) =
      absurd (omega (arith, length-append (record_bytes crc r) rest, length-record_bytes crc r))
  parse_view (suc fuel) enough (first_record r rest fits bytes) = with_first r fits (
      parse_view fuel
        (omega (arith, length-append (record_bytes crc r) rest, length-record_bytes crc r))
        (record_view crc rest bytes))

  -- Any log is whole records with nothing behind them, bytes that read as truncated, or a damaged
  -- record.
  pub parse : (bytes : Bytes) → IsBytes bytes → Parsed crc bytes
  parse bytes h = parse_view (length bytes) (omega arith) (record_view crc bytes h)
