-- ===== src/Tests/Sample.antt =====
-- A checksum that stands for `crc32c::Extend` in the examples.
use zidanedb.Base.{ℕ, ◌+◌, ◌*◌, ◌%◌, ◌^◌, ◌<◌, [], ◌∷◌, arith}
use zidanedb.Stream.{Bytes}
use zidanedb.Record.{Crc32c}

abbrev pub polynomial : ℕ → Bytes → ℕ
polynomial crc [] = crc % 2 ^ 32
polynomial crc (b ∷ bs) = polynomial ((crc * 31 + b) % 2 ^ 32) bs

pub polynomial-lt : (crc : ℕ) (bytes : Bytes) → polynomial crc bytes < 2 ^ 32
polynomial-lt crc [] = omega arith
polynomial-lt crc (b ∷ bs) = polynomial-lt ((crc * 31 + b) % 2 ^ 32) bs

abbrev pub sample_crc : Crc32c
sample_crc = record { extend = polynomial; extend-lt = polynomial-lt }
