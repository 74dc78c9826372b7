-- ===== src/Record/Sequence.antt =====
-- Records one behind the other, as the data log has them.
use zidanedb.Base.{ℕ, ◌+◌, ◌≡◌, refl, ◌≤◌, List, [], ◌∷◌, ◌++◌, arith, length, length-append}
use zidanedb.Stream.{Bytes}
use zidanedb.Record.{Crc32c, Record}
use zidanedb.Record.RoundTrip.{record_bytes, record_size, length-record_bytes}

abbrev pub records_size : List Record → ℕ
records_size [] = 0
records_size (r ∷ rs) = record_size r + records_size rs

module _ (crc : Crc32c) where
  unfoldable pub records_bytes : List Record → Bytes
  records_bytes [] = []
  records_bytes (r ∷ rs) = record_bytes crc r ++ records_bytes rs

  pub length-records_bytes : (rs : List Record) → length (records_bytes rs) ≡ records_size rs
  unfolding records_bytes
  length-records_bytes [] = refl
  length-records_bytes (r ∷ rs) = omega (
    arith,
    length-append (record_bytes crc r) (records_bytes rs),
    length-record_bytes crc r,
    length-records_bytes rs,
  )

-- A record takes a byte at least.
pub length_le : (rs : List Record) → length rs ≤ records_size rs
unfolding record_size
length_le [] = omega arith
length_le (r ∷ rs) = omega (arith, length_le rs)
