-- ===== src/Record.antt =====
-- src/record.cpp and src/record.h: one record of the data log. The checksum is `crc32c::Extend` of
-- the crc32c library, a parameter.
pub mod RoundTrip
pub mod Torn
pub mod Damaged
pub mod Views
pub mod Sequence
use zidanedb.Base.{
  ℕ, ◌+◌, ◌/◌, ◌%◌, ◌^◌, ◌<◌, ◌≤◌, [], ◌∷◌, ◌++◌, Bool, Option, none, some, ◌==◌, if◌then◌else◌,
  length,
}
use zidanedb.Base.Results.{Result, ok, and_then}
use zidanedb.Constants.{max_key_size, max_value_size}
use zidanedb.Stream.{Bytes, IStream}
use zidanedb.Utils.{
  Read, read_uint8, read_uint32, read_string, write_uint8, write_uint32, write_string,
}

-- `crc32c::Extend(crc, data, count)` returns a `uint32_t`.
pub record Crc32c : Type 0 where
  pub extend : ℕ → Bytes → ℕ
  pub extend-lt : (crc : ℕ) (bytes : Bytes) → extend crc bytes < 2 ^ 32

pub data RecordType : Type 0 where
  put delete : RecordType

pub record Record : Type 0 where
  pub type : RecordType
  pub key : Bytes
  pub value : Bytes

-- `RecordReadStatus`, with the record and the stream behind it where the status is `Success`
pub data RecordRead : Type 0 where
  success : Record → IStream → RecordRead
  end_of_file truncated invalid_length checksum_mismatch invalid_type : RecordRead

-- `static_cast<std::uint8_t>(type)`
unfoldable pub type_code : RecordType → ℕ
type_code put = 1
type_code delete = 2

-- `static_cast<RecordType>(type)`, where that is an enumerator
unfoldable pub record_type : ℕ → Option RecordType
record_type n = if n == 1 then some put else if n == 2 then some delete else none

-- What `read_record` returns for the status of its first byte, of a string, and of the checksum.
abbrev pub and_type : Read ℕ → (ℕ → IStream → RecordRead) → RecordRead
and_type (Read.success n s) f = f n s
and_type Read.end_of_input f = end_of_file
and_type Read.truncated f = end_of_file
and_type Read.invalid_length f = end_of_file

abbrev pub and_string : Read Bytes → (Bytes → IStream → RecordRead) → RecordRead
and_string (Read.success b s) f = f b s
and_string Read.end_of_input f = truncated
and_string Read.truncated f = truncated
and_string Read.invalid_length f = invalid_length

abbrev pub and_checksum : Read ℕ → (ℕ → IStream → RecordRead) → RecordRead
and_checksum (Read.success n s) f = f n s
and_checksum Read.end_of_input f = truncated
and_checksum Read.truncated f = truncated
and_checksum Read.invalid_length f = truncated

abbrev pub and_known : Option RecordType → (RecordType → RecordRead) → RecordRead
and_known none f = invalid_type
and_known (some t) f = f t

module _ (crc : Crc32c) where
  open crc use {extend}

  unfoldable pub extend_checksum_string : ℕ → Bytes → ℕ
  extend_checksum_string checksum piece = extend checksum piece

  unfoldable pub extend_checksum_record_type : ℕ → RecordType → ℕ
  extend_checksum_record_type checksum type = extend checksum (type_code type ∷ [])

  unfoldable pub extend_checksum_uint32 : ℕ → ℕ → ℕ
  extend_checksum_uint32 checksum number =
      extend checksum
        (number % 256 ∷ number / 2 ^ 8 % 256 ∷ number / 2 ^ 16 % 256 ∷ number / 2 ^ 24 % 256 ∷ [])

  -- The checksum that `read_record` and `serialize_record` build up, each step behind its field.
  unfoldable pub type_checksum : RecordType → ℕ
  type_checksum type = extend_checksum_record_type 0 type

  unfoldable pub string_checksum : ℕ → Bytes → ℕ
  string_checksum checksum piece =
      extend_checksum_string (extend_checksum_uint32 checksum (length piece % 2 ^ 32)) piece

  unfoldable pub record_checksum : RecordType → Bytes → Bytes → ℕ
  record_checksum type key value = string_checksum (string_checksum (type_checksum type) key) value

  unfoldable pub read_record : IStream → RecordRead
  read_record s = and_type (read_uint8 s) λ n s. and_known (record_type n) λ type.
      and_string (read_string s max_key_size) λ key s.
        and_string (read_string s max_value_size) λ value s.
          and_checksum (read_uint32 s) λ stored s.
            if record_checksum type key value == stored
            then success (record { type = type; key = key; value = value }) s
            else checksum_mismatch

  -- The string that `serialize_record` returns. `write_record` hands it to `stream.write`.
  unfoldable pub serialize_record : Record → Result Bytes
  serialize_record r = and_then (write_string r.key max_key_size) λ key.
      and_then (write_string r.value max_value_size) λ value. ok (
        write_uint8 (type_code r.type)
        ++ (key ++ (value ++ write_uint32 (record_checksum r.type r.key r.value))))
