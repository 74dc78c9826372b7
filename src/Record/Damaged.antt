-- ===== src/Record/Damaged.antt =====
-- Records whose bytes were damaged, and what reading one of them returns.
use zidanedb.Base.{ℕ, ◌+◌, ◌^◌, ◌≤◌, ◌<◌, ◌≡◌, ◌≢◌, none, ◌∷◌, ◌++◌, arith, length, refl, ne→==}
use zidanedb.Constants.{max_key_size, max_value_size}
use zidanedb.Stream.{Bytes, stream}
use zidanedb.Utils.{read_uint8, write_uint32, string_size}
use zidanedb.Utils.Integers.{read_uint32-write}
use zidanedb.Utils.Strings.{string_bytes, read_string-string_bytes, read_string-too_large}
use zidanedb.Record.{
  Crc32c, Record, RecordType, RecordRead, type_code, record_type, record_checksum, read_record,
  checksum_mismatch, invalid_length, invalid_type,
}
use zidanedb.Record.RoundTrip.{Fits, record_type-type_code}

-- The damages that are told from a record that the end of the file cuts short: a first byte that is no
-- type, a length above the limit, and a checksum that is not that of the fields.
pub data Damaged (crc : Crc32c) : Bytes → RecordRead → Type 0 where
  bad_type : (b : ℕ) (rest : Bytes) → record_type b ≡ none → Damaged crc (b ∷ rest) invalid_type
  bad_key_length :
      (t : RecordType) (len : ℕ) (rest : Bytes)
      → max_key_size < len
      → len < 2 ^ 32
      → Damaged crc (type_code t ∷ write_uint32 len ++ rest) invalid_length
  bad_value_length :
      (t : RecordType) (key : Bytes) (len : ℕ) (rest : Bytes)
      → length key ≤ max_key_size
      → max_value_size < len
      → len < 2 ^ 32
      → Damaged crc (type_code t ∷ string_bytes key ++ (write_uint32 len ++ rest)) invalid_length
  bad_checksum :
      (r : Record) (found : ℕ) (rest : Bytes)
      → Fits r
      → found < 2 ^ 32
      → record_checksum crc r.type r.key r.value ≢ found
      → Damaged crc
          (type_code r.type ∷ string_bytes r.key
            ++ (string_bytes r.value ++ (write_uint32 found ++ rest)))
          checksum_mismatch

-- A damaged record reads as what was damaged.
pub read_record-Damaged :
    (crc : Crc32c) {bytes : Bytes} {m : RecordRead} (pos : ℕ)
    → Damaged crc bytes m
    → read_record crc (stream bytes pos) ≡ m
unfolding read_record read_uint8
read_record-Damaged crc pos (bad_type b rest unknown) = rw unknown refl
read_record-Damaged crc pos (bad_key_length t len rest large lt) =
    rw (record_type-type_code t, read_string-too_large len max_key_size rest (pos + 1) large lt)
      refl
read_record-Damaged crc pos (bad_value_length t key len rest key_le large lt) =
    rw
      (
        record_type-type_code t,
        read_string-string_bytes key (write_uint32 len ++ rest) max_key_size (pos + 1) key_le
            (omega arith),
        read_string-too_large len max_value_size rest (pos + 1 + string_size key) large lt,
      )
      refl
read_record-Damaged crc pos (bad_checksum r found rest fits lt differs) =
    rw
      (
        record_type-type_code r.type,
        read_string-string_bytes r.key (string_bytes r.value ++ (write_uint32 found ++ rest))
            max_key_size (pos + 1) fits.key (omega arith),
        read_string-string_bytes r.value (write_uint32 found ++ rest) max_value_size _ fits.value
            (omega arith),
        read_uint32-write found rest (pos + 1 + string_size r.key + string_size r.value) lt,
        ne→== (record_checksum crc r.type r.key r.value) found differs,
      )
      refl
