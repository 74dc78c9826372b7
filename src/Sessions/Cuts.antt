-- ===== src/Sessions/Cuts.antt =====
-- A power failure in the middle of an append on an open database: what opening the files again makes of
-- it.
use zidanedb.Base.{
  ℕ, zero, suc, ◌+◌, ◌^◌, ◌≤◌, ◌<◌, ◌≡◌, refl, sym, ap, ◌∙◌, none, List, [], ◌∷◌, ◌++◌, leb, length,
  take, arith, inl, inr, Bool-cases, length-append, append_assoc, append-nil,
}
use zidanedb.Constants.{codes}
use zidanedb.Stream.{Bytes}
use zidanedb.Record.{Crc32c, Record}
use zidanedb.Record.RoundTrip.{
  Fits, record_size, record_bytes, serialize_record-ok, length-record_bytes,
}
use zidanedb.Record.Sequence.{records_bytes}
use zidanedb.Database.{Database, CreateDirectory, made, ScanStatus, extension}
use zidanedb.Database.Scan.{Tail, whole, torn-Tail}
use zidanedb.Database.Recovery.{log_of}
use zidanedb.Database.Writes.{values-append, appended_log, All-append}
use zidanedb.Database.Opening.{log_header}
use zidanedb.Database.Opening.Recovered.{torn_log}
use zidanedb.Failpoints.Recovery.{growth-append}
use zidanedb.Sessions.{cut_append, step, expected, answer}
use zidanedb.Sessions.Steps.{Opened, Follows, length-log_of, records_size-snoc}
use zidanedb.Sessions.Crashes.{open-Tail}

-- A part of the bytes of a list.
take-split :
    (count : ℕ) (bytes : Bytes)
    → count < length bytes
    → (x : ℕ) × (back : Bytes) × (bytes ≡ take count bytes ++ x ∷ back)
take-split zero [] lt = absurd (omega arith)
take-split zero (b ∷ bytes) lt = (b, bytes, refl)
take-split (suc count) [] lt = absurd (omega arith)
take-split (suc count) (b ∷ bytes) lt =
    let (x, back, e) = take-split count bytes (omega arith) in (x, back, ap (λ l. b ∷ l) e)

take-all : (count : ℕ) (bytes : Bytes) → length bytes ≤ count → take count bytes ≡ bytes
take-all zero [] le = refl
take-all zero (b ∷ bytes) le = absurd (omega arith)
take-all (suc count) [] le = refl
take-all (suc count) (b ∷ bytes) le = ap (λ l. b ∷ l) (take-all count bytes (omega arith))

length-take : (count : ℕ) (bytes : Bytes) → length (take count bytes) ≤ length bytes
length-take zero bytes = omega arith
length-take (suc count) [] = omega arith
length-take (suc count) (b ∷ bytes) = omega (arith, length-take count bytes)

cut-Tail :
    (crc : Crc32c) (r : Record) (count : ℕ)
    → Fits r
    → count < record_size r
    → (status : ScanStatus) × Tail crc (take count (record_bytes crc r)) status
unfolding record_bytes
cut-Tail crc r zero fits lt = (ScanStatus.success, whole)
cut-Tail crc r (suc count) fits lt =
    let (x, back, e) =
      take-split (suc count) (record_bytes crc r) (omega (arith, length-record_bytes crc r)) in
    (ScanStatus.truncated, torn-Tail _ _ x back fits e)

module _ (crc : Crc32c) (create : ℕ → CreateDirectory) (n : ℕ) (path : Bytes) {d : Database}
    {rs : List Record} {limit size : ℕ} (o : Opened crc d rs n limit size)
    (named : extension path ≡ codes ".zdb") (first : create 0 ≡ made) (pos : 0 < n)
    (lt : n < 2 ^ 59) where
  pub cut_append-Follows :
      (r : Record) (count : ℕ)
      → Fits r
      → limit + (20 + length r.key) < 2 ^ 63
      → size + record_size r < 2 ^ 63
      → Follows crc create n path (cut_append r count) d rs limit size
  unfolding step answer expected
  cut_append-Follows r count fits idx_space log_space =
      let (s, buckets, within) = o.stores in
      let bytes = record_bytes crc r in
      let cut = take count bytes in
      elim (Bool-cases (leb (record_size r) count)) [
        | inl all ↦
            let all_bytes : take count bytes ≡ bytes =
              take-all count bytes (ground (arith, length-record_bytes crc r)) in
            let log : log_of crc log_header rs ++ bytes ≡ torn_log crc (rs ++ r ∷ []) [] =
              appended_log s r ∙ ap (λ l. log_header ++ l) (sym (append-nil _)) in
            let (d', run, (s', same, grown)) =
              open-Tail crc create n path o named first pos lt (rs ++ r ∷ []) [] log whole
                (All-append rs r s.fits fits)
                (rw (← log) (
                  omega (
                    arith,
                    length-append (log_of crc log_header rs) bytes,
                    length-record_bytes crc r,
                    length-log_of crc rs,
                    o.log_size,
                  )))
                (omega (arith, growth-append rs r, o.entries)) in
            (
              d',
              rs ++ r ∷ [],
              rw (serialize_record-ok crc fits, s.log, all_bytes, run) refl,
              record {
                stores = (s', same, omega (arith, grown, growth-append rs r, o.entries));
                entries = omega (arith, o.entries, growth-append rs r);
                log_size = omega (arith, o.log_size, records_size-snoc rs r);
              },
              λ k. rw all (ap (λ v. v k) (values-append rs r (λ key. none))),
            )
        | inr part ↦
            let (status, t) = cut-Tail crc r count fits (ground arith) in
            let log : log_of crc log_header rs ++ cut ≡ torn_log crc rs cut =
              append_assoc log_header (records_bytes crc rs) cut in
            let (d', run, (s', same, grown)) =
              open-Tail crc create n path o named first pos lt rs cut log t s.fits
                (rw (← log) (
                  omega (
                    arith,
                    length-append (log_of crc log_header rs) cut,
                    length-take count bytes,
                    length-record_bytes crc r,
                    length-log_of crc rs,
                    o.log_size,
                  )))
                (omega (arith, o.entries)) in
            (
              d',
              rs,
              rw (serialize_record-ok crc fits, s.log, run) refl,
              record {
                stores = (s', same, omega (arith, grown, o.entries));
                entries = omega (arith, o.entries);
                log_size = omega (arith, o.log_size);
              },
              λ k. rw part refl,
            )
      ]
