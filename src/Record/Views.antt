-- ===== src/Record/Views.antt =====
-- What any bytes are to `read_record`: nothing, a record with what follows it, a record that the end of
-- the file cuts short, or a damaged one.
use zidanedb.Base.{
  ℕ, ◌+◌, ◌≤◌, ◌≡◌, ◌⊎◌, inl, inr, refl, [], ◌∷◌, ◌++◌, arith, length, IsBytes, append_assoc,
  Bool-cases, ◌==◌, ==→eq, none,
}
use zidanedb.Constants.{max_key_size, max_value_size}
use zidanedb.Stream.{Bytes, IStream, stream}
use zidanedb.Utils.{Read, read_uint8, read_uint32, read_string, write_uint32, string_size}
use zidanedb.Utils.Strings.{string_bytes, read_string-string_bytes}
use zidanedb.Utils.Views.{
  Uint32View, few, number, uint32_view, StringView, cut, long, whole, string_view,
}
use zidanedb.Record.{
  Crc32c, Record, RecordType, put, delete, truncated, type_code, record_type, record_checksum,
  read_record, RecordRead, and_string, and_checksum,
}
use zidanedb.Record.RoundTrip.{Fits, record_bytes, record_type-type_code}
use zidanedb.Record.Damaged.{Damaged, bad_type, bad_key_length, bad_value_length, bad_checksum}

pub data RecordView (crc : Crc32c) : Bytes → Type 0 where
  nothing : RecordView crc []
  first_record :
      (r : Record) (rest : Bytes)
      → Fits r
      → IsBytes rest
      → RecordView crc (record_bytes crc r ++ rest)
  cut_off :
      {bytes : Bytes}
      → ((pos : ℕ) → read_record crc (stream bytes pos) ≡ truncated)
      → RecordView crc bytes
  damage : {bytes : Bytes} {m : RecordRead} → Damaged crc bytes m → RecordView crc bytes

type_view : (b : ℕ) → (record_type b ≡ none) ⊎ ((t : RecordType) × (b ≡ type_code t))
unfolding record_type type_code
type_view b = elim (Bool-cases (b == 1)) [
  | inl one ↦ inr (put, ==→eq b 1 one)
  | inr other ↦ elim (Bool-cases (b == 2)) [
    | inl two ↦ inr (delete, ==→eq b 2 two)
    | inr unknown ↦ inl (rw (other, unknown) refl)
  ]
]

-- A string or a checksum that the end of the file cuts short.
and_string-short :
    (m : Read Bytes) (f : Bytes → IStream → RecordRead)
    → (m ≡ Read.end_of_input) ⊎ (m ≡ Read.truncated)
    → and_string m f ≡ truncated
and_string-short m f (inl e) = rw e refl
and_string-short m f (inr e) = rw e refl

and_checksum-short :
    (m : Read ℕ) (f : ℕ → IStream → RecordRead)
    → (m ≡ Read.end_of_input) ⊎ (m ≡ Read.truncated)
    → and_checksum m f ≡ truncated
and_checksum-short m f (inl e) = rw e refl
and_checksum-short m f (inr e) = rw e refl

module _ (crc : Crc32c) where
  cut_key :
      (t : RecordType) (bs : Bytes) (pos : ℕ)
      → (read_string (stream bs (pos + 1)) max_key_size ≡ Read.end_of_input)
        ⊎ (read_string (stream bs (pos + 1)) max_key_size ≡ Read.truncated)
      → read_record crc (stream (type_code t ∷ bs) pos) ≡ truncated
  unfolding read_record read_uint8
  cut_key t bs pos short = rw (record_type-type_code t) (and_string-short _ _ short)

  cut_value :
      (t : RecordType) (key bs : Bytes) (pos : ℕ)
      → length key ≤ max_key_size
      → (read_string (stream bs (pos + 1 + string_size key)) max_value_size ≡ Read.end_of_input)
        ⊎ (read_string (stream bs (pos + 1 + string_size key)) max_value_size ≡ Read.truncated)
      → read_record crc (stream (type_code t ∷ string_bytes key ++ bs) pos) ≡ truncated
  unfolding read_record read_uint8
  cut_value t key bs pos le short =
      rw
        (
          record_type-type_code t,
          read_string-string_bytes key bs max_key_size (pos + 1) le (omega arith),
        )
        (and_string-short _ _ short)

  cut_checksum :
      (r : Record) (bs : Bytes) (pos : ℕ)
      → Fits r
      → (read_uint32 (stream bs (pos + 1 + string_size r.key + string_size r.value))
          ≡ Read.end_of_input)
        ⊎ (read_uint32 (stream bs (pos + 1 + string_size r.key + string_size r.value))
            ≡ Read.truncated)
      → read_record crc
          (stream (type_code r.type ∷ string_bytes r.key ++ (string_bytes r.value ++ bs)) pos)
        ≡ truncated
  unfolding read_record read_uint8
  cut_checksum r bs pos fits short =
      rw
        (
          record_type-type_code r.type,
          read_string-string_bytes r.key (string_bytes r.value ++ bs) max_key_size (pos + 1)
              fits.key (omega arith),
          read_string-string_bytes r.value bs max_value_size _ fits.value (omega arith),
        )
        (and_checksum-short _ _ short)

  at_checksum :
      (r : Record)
      → Fits r
      → {bs : Bytes} → Uint32View bs
      → RecordView crc (type_code r.type ∷ string_bytes r.key ++ (string_bytes r.value ++ bs))
  unfolding record_bytes
  at_checksum r fits (few h) = cut_off (λ pos. cut_checksum r _ pos fits (h _))
  at_checksum r fits (number found rest lt bytes) =
      elim (Bool-cases (record_checksum crc r.type r.key r.value == found)) [
        | inl same ↦
            rw
              (
                ← ==→eq (record_checksum crc r.type r.key r.value) found same,
                ← append_assoc (string_bytes r.value)
                    (write_uint32 (record_checksum crc r.type r.key r.value)) rest,
                ← append_assoc (string_bytes r.key)
                    (string_bytes r.value
                      ++ write_uint32 (record_checksum crc r.type r.key r.value))
                    rest,
              )
              (first_record r rest fits bytes)
        | inr differs ↦ damage (bad_checksum r found rest fits lt (λ e. ground arith))
      ]

  at_value :
      (t : RecordType) (key : Bytes)
      → length key ≤ max_key_size
      → {bs : Bytes} → StringView max_value_size bs
      → RecordView crc (type_code t ∷ string_bytes key ++ bs)
  at_value t key le (cut h) = cut_off (λ pos. cut_value t key _ pos le (h _))
  at_value t key le (long len rest large lt) = damage (bad_value_length t key len rest le large lt)
  at_value t key le (whole value rest fits bytes) =
      at_checksum (record { type = t; key = key; value = value })
        (record { key = le; value = fits }) (uint32_view rest bytes)

  at_key :
      (t : RecordType)
      → {bs : Bytes} → StringView max_key_size bs
      → RecordView crc (type_code t ∷ bs)
  at_key t (cut h) = cut_off (λ pos. cut_key t _ pos (h _))
  at_key t (long len rest large lt) = damage (bad_key_length t len rest large lt)
  at_key t (whole key rest fits bytes) = at_value t key fits (string_view max_value_size rest bytes)

  -- Bytes begin with a whole record, or they are none, or reading a record from them fails with a
  -- status that says why.
  pub record_view : (bytes : Bytes) → IsBytes bytes → RecordView crc bytes
  record_view [] h = nothing
  record_view (b ∷ bs) (lt, h) = elim (type_view b) [
    | inl unknown ↦ damage (bad_type b bs unknown)
    | inr (t, e) ↦ rw e (at_key t (string_view max_key_size bs h))
  ]
