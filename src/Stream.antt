-- ===== src/Stream.antt =====
-- Byte streams of the standard library, as the source uses them: a binary `std::istream` is the bytes
-- that are not read yet with the position reached, and a binary file is the list of its bytes. A
-- write past the end fills the gap with zeros, and a file offset is a signed 64-bit number.
pub mod Positions
use zidanedb.Base.{
  ℕ, ◌+◌, ◌-◌, ◌^◌, List, ◌++◌, Bool, Option, none, some, ltb, if◌then◌else◌, length, take, drop,
  replicate,
}

abbrev pub Bytes : Type 0
Bytes = List ℕ

pub record IStream : Type 0 where
  pub rest : Bytes
  pub pos : ℕ

abbrev pub stream : Bytes → ℕ → IStream
stream rest pos = record { rest = rest; pos = pos }

-- `file.read(data, n)`; `none` is a stream whose failbit is set
abbrev pub read : ℕ → IStream → Option (Bytes × IStream)
read n s =
    if ltb (length s.rest) n then none else some (take n s.rest, stream (drop n s.rest) (s.pos + n))

-- An offset of 2^63 or more is negative as a `std::streamoff`, and the seek fails. A seek past the
-- end succeeds, and the next read meets the end of the file.
abbrev pub seek_ok : ℕ → Bool
seek_ok off = ltb off (2 ^ 63)

abbrev pub seekg : Bytes → ℕ → IStream
seekg file off = stream (drop off file) off

-- `seekp(off)` and `write`
unfoldable pub write_at : ℕ → Bytes → Bytes → Bytes
write_at off bytes file =
    take off file ++ (replicate (off - length file) 0 ++ (bytes ++ drop (off + length bytes) file))
