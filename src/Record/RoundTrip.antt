-- ===== src/Record/RoundTrip.antt =====
-- Reading back a serialised record.
use zidanedb.Base.{
  ℕ, ◌+◌, ◌≤◌, ◌<◌, ◌^◌, ◌≡◌, refl, ◌∷◌, ◌++◌, arith, length, eq→==, append_assoc, length-append,
  some,
}
use zidanedb.Base.Results.{ok}
use zidanedb.Constants.{max_key_size, max_value_size}
use zidanedb.Stream.{Bytes, stream}
use zidanedb.Utils.{write_uint32, write_uint8, read_uint8, string_size}
use zidanedb.Utils.Integers.{read_uint32-write, length-write_uint32}
use zidanedb.Utils.Strings.{
  string_bytes, write_string-ok, read_string-string_bytes, length-string_bytes,
}
use zidanedb.Record.{
  Crc32c, RecordType, put, delete, Record, success, type_code, record_type, record_checksum,
  read_record, serialize_record, string_checksum, extend_checksum_string,
}

-- The sizes that `write_string` accepts.
pub record Fits (r : Record) : Type 0 where
  pub key : length r.key ≤ max_key_size
  pub value : length r.value ≤ max_value_size

pub record_type-type_code : (t : RecordType) → record_type (type_code t) ≡ some t
unfolding record_type type_code
record_type-type_code put = refl
record_type-type_code delete = refl

unfoldable pub record_size : Record → ℕ
record_size r = 5 + string_size r.key + string_size r.value

module _ (crc : Crc32c) where
  -- The bytes of a record in the log.
  unfoldable pub record_bytes : Record → Bytes
  record_bytes r =
      type_code r.type ∷ string_bytes r.key
      ++ (string_bytes r.value ++ write_uint32 (record_checksum crc r.type r.key r.value))

  pub record_checksum-lt : (t : RecordType) (k v : Bytes) → record_checksum crc t k v < 2 ^ 32
  unfolding record_checksum string_checksum extend_checksum_string
  record_checksum-lt t k v = crc.extend-lt _ v

  -- A record within the size limits serializes to its type, its two strings with their lengths,
  -- and its checksum.
  pub serialize_record-ok : {r : Record} → Fits r → serialize_record crc r ≡ ok (record_bytes r)
  unfolding serialize_record record_bytes write_uint8
  serialize_record-ok {r} h = rw (
    write_string-ok r.key max_key_size h.key (omega arith),
    write_string-ok r.value max_value_size h.value (omega arith),
  )

  pub length-record_bytes : (r : Record) → length (record_bytes r) ≡ record_size r
  unfolding record_bytes record_size
  length-record_bytes r = omega (
    arith,
    length-append (string_bytes r.key) (string_bytes r.value ++ write_uint32 _),
    length-append (string_bytes r.value) (write_uint32 (record_checksum crc r.type r.key r.value)),
    length-string_bytes r.key,
    length-string_bytes r.value,
    length-write_uint32 (record_checksum crc r.type r.key r.value),
  )

  end_pos :
      (r : Record) (pos : ℕ)
      → pos + 1 + string_size r.key + string_size r.value + 4 ≡ pos + record_size r
  unfolding record_size
  end_pos r pos = omega arith

  -- A record within the size limits is read back from its bytes, whatever follows them, and the
  -- stream stands behind it.
  pub read_record-append :
      {r : Record} (rest : Bytes) (pos : ℕ)
      → Fits r
      → read_record crc (stream (record_bytes r ++ rest) pos)
        ≡ success r (stream rest (pos + record_size r))
  unfolding read_record read_uint8 record_bytes
  read_record-append {r} rest pos h = rw (
    record_type-type_code r.type,
    append_assoc (string_bytes r.key) _ rest,
    read_string-string_bytes r.key _ max_key_size (pos + 1) h.key (omega arith),
    append_assoc (string_bytes r.value) _ rest,
    read_string-string_bytes r.value _ max_value_size _ h.value (omega arith),
    read_uint32-write _ rest (pos + 1 + string_size r.key + string_size r.value)
        (record_checksum-lt r.type r.key r.value),
    eq→== (record_checksum crc r.type r.key r.value) _ refl,
    end_pos r pos,
  )
