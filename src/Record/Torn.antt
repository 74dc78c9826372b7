-- ===== src/Record/Torn.antt =====
-- A record that the end of the log cuts short, as a crash in the middle of an append leaves it.
use zidanedb.Base.{
  ℕ, ◌+◌, ◌≡◌, ◌≢◌, refl, ap, [], ◌∷◌, ◌++◌, arith, length, append-nil, length-append,
  if◌then◌else◌, ◌==◌, Bool, true, false, ◌⊎◌, inl, inr, some, none, Option,
}
use zidanedb.Constants.{max_key_size, max_value_size}
use zidanedb.Stream.{Bytes, IStream, stream}
use zidanedb.Utils.{Read, read_uint8, read_uint32, read_string}
use zidanedb.Utils.Prefixes.{
  longer, Stable, read_uint8-Stable, read_uint32-Stable, read_string-Stable,
}
use zidanedb.Record.{
  Crc32c, Record, RecordRead, success, end_of_file, truncated, invalid_length, checksum_mismatch,
  invalid_type, and_type, and_string, and_checksum, and_known, read_record, record_type, RecordType,
  record_checksum,
}
use zidanedb.Record.RoundTrip.{Fits, record_bytes, record_size, read_record-append}

-- `Stays t m m'`: reading a record met the end of the file, or `m'` is its answer over the longer file.
pub data Stays (t : Bytes) : RecordRead → RecordRead → Type 0 where
  ended : {m : RecordRead} → Stays t end_of_file m
  cut : {m : RecordRead} → Stays t truncated m
  done : {r : Record} {s : IStream} → Stays t (success r s) (success r (longer t s))
  bad_length : Stays t invalid_length invalid_length
  bad_checksum : Stays t checksum_mismatch checksum_mismatch
  bad_type : Stays t invalid_type invalid_type

module _ (t : Bytes) where
  and_type-Stays :
      {m m' : Read ℕ} {f : ℕ → IStream → RecordRead}
      → Stable t m m'
      → ((a : ℕ) (s : IStream) → Stays t (f a s) (f a (longer t s)))
      → Stays t (and_type m f) (and_type m' f)
  and_type-Stays Stable.ended h = ended
  and_type-Stays Stable.cut h = ended
  and_type-Stays Stable.done h = h _ _
  and_type-Stays Stable.bad h = ended

  and_string-Stays :
      {m m' : Read Bytes} {f : Bytes → IStream → RecordRead}
      → Stable t m m'
      → ((a : Bytes) (s : IStream) → Stays t (f a s) (f a (longer t s)))
      → Stays t (and_string m f) (and_string m' f)
  and_string-Stays Stable.ended h = cut
  and_string-Stays Stable.cut h = cut
  and_string-Stays Stable.done h = h _ _
  and_string-Stays Stable.bad h = bad_length

  and_checksum-Stays :
      {m m' : Read ℕ} {f : ℕ → IStream → RecordRead}
      → Stable t m m'
      → ((a : ℕ) (s : IStream) → Stays t (f a s) (f a (longer t s)))
      → Stays t (and_checksum m f) (and_checksum m' f)
  and_checksum-Stays Stable.ended h = cut
  and_checksum-Stays Stable.cut h = cut
  and_checksum-Stays Stable.done h = h _ _
  and_checksum-Stays Stable.bad h = cut

  and_known-Stays :
      (o : Option RecordType) {f g : RecordType → RecordRead}
      → ((a : RecordType) → Stays t (f a) (g a))
      → Stays t (and_known o f) (and_known o g)
  and_known-Stays none h = bad_type
  and_known-Stays (some a) h = h a

  verdict-Stays :
      (b : Bool) (r : Record) (s : IStream)
      → Stays t
          (if b then success r s else checksum_mismatch)
          (if b then success r (longer t s) else checksum_mismatch)
  verdict-Stays true r s = done
  verdict-Stays false r s = bad_checksum

  -- Reading a record from the beginning of a file ends at its end or in the middle of a record,
  -- or gives the record or the error that the longer file gives.
  pub read_record-Stays :
      (crc : Crc32c) (s : IStream) → Stays t (read_record crc s) (read_record crc (longer t s))
  unfolding read_record
  read_record-Stays crc s = and_type-Stays (read_uint8-Stable t s) λ n s.
      and_known-Stays (record_type n) λ type.
        and_string-Stays (read_string-Stable t s max_key_size) λ key s.
          and_string-Stays (read_string-Stable t s max_value_size)
            λ value s. and_checksum-Stays (read_uint32-Stable t s) λ stored s. verdict-Stays _ _ s

-- the bytes behind the record that was read
abbrev left_over : RecordRead → ℕ
left_over (success r s) = length s.rest
left_over _ = 0

Stays-short :
    (t : Bytes) (x : ℕ) {m m' : RecordRead} {r : Record} {pos : ℕ}
    → Stays (x ∷ t) m m'
    → m' ≡ success r (stream [] pos)
    → (m ≡ end_of_file) ⊎ (m ≡ truncated)
Stays-short t x ended e = inl refl
Stays-short t x cut e = inr refl
Stays-short t x (done {s = s}) e =
    absurd (omega (arith, ap left_over e, length-append s.rest (x ∷ t)))
Stays-short t x bad_length e = cc
Stays-short t x bad_checksum e = cc
Stays-short t x bad_type e = cc

-- Only a stream with no byte left gives `EndOfFile`.
and_string-not_eof :
    (m : Read Bytes) {f : Bytes → IStream → RecordRead}
    → ((a : Bytes) (s : IStream) → f a s ≢ end_of_file)
    → and_string m f ≢ end_of_file
and_string-not_eof (Read.success a s) h = h a s
and_string-not_eof Read.end_of_input h = λ e. cc
and_string-not_eof Read.truncated h = λ e. cc
and_string-not_eof Read.invalid_length h = λ e. cc

and_checksum-not_eof :
    (m : Read ℕ) {f : ℕ → IStream → RecordRead}
    → ((a : ℕ) (s : IStream) → f a s ≢ end_of_file)
    → and_checksum m f ≢ end_of_file
and_checksum-not_eof (Read.success a s) h = h a s
and_checksum-not_eof Read.end_of_input h = λ e. cc
and_checksum-not_eof Read.truncated h = λ e. cc
and_checksum-not_eof Read.invalid_length h = λ e. cc

and_known-not_eof :
    (o : Option RecordType) {f : RecordType → RecordRead}
    → ((a : RecordType) → f a ≢ end_of_file)
    → and_known o f ≢ end_of_file
and_known-not_eof none h = λ e. cc
and_known-not_eof (some a) h = h a

verdict-not_eof :
    (b : Bool) (r : Record) (s : IStream)
    → (if b then success r s else checksum_mismatch) ≢ end_of_file
verdict-not_eof true r s = λ e. cc
verdict-not_eof false r s = λ e. cc

module _ (crc : Crc32c) where
  pub read_record-not_eof :
      (b : ℕ) (bs : Bytes) (pos : ℕ) → read_record crc (stream (b ∷ bs) pos) ≢ end_of_file
  unfolding read_record read_uint8
  read_record-not_eof b bs pos = and_known-not_eof (record_type b) λ type.
      and_string-not_eof (read_string (stream bs (pos + 1)) max_key_size) λ key s.
        and_string-not_eof (read_string s max_value_size) λ value s.
          and_checksum-not_eof (read_uint32 s) λ stored s.
            verdict-not_eof (record_checksum crc type key value == stored)
              (record { type = type; key = key; value = value }) s

  pub read_record-eof : (pos : ℕ) → read_record crc (stream [] pos) ≡ end_of_file
  unfolding read_record read_uint8
  read_record-eof pos = refl

  -- A record within the size limits that is cut short behind its first byte or later reads as
  -- truncated.
  pub read_record-torn :
      {r : Record} (b : ℕ) (front : Bytes) (x : ℕ) (back : Bytes) (pos : ℕ)
      → Fits r
      → record_bytes crc r ≡ b ∷ front ++ x ∷ back
      → read_record crc (stream (b ∷ front) pos) ≡ truncated
  read_record-torn {r} b front x back pos h e = decide (
      Stays-short back x {r = r} {pos = pos + record_size r}
        (read_record-Stays (x ∷ back) crc (stream (b ∷ front) pos)) (rw (← e) whole))
    where
      whole :
          read_record crc (stream (record_bytes crc r) pos)
          ≡ success r (stream [] (pos + record_size r))
      whole = rw append-nil at (read_record-append crc [] pos h)

      decide :
          (read_record crc (stream (b ∷ front) pos) ≡ end_of_file)
            ⊎ (read_record crc (stream (b ∷ front) pos) ≡ truncated)
          → read_record crc (stream (b ∷ front) pos) ≡ truncated
      decide (inl eof) = absurd (read_record-not_eof b front pos eof)
      decide (inr short) = short
