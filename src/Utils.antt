-- ===== src/Utils.antt =====
-- src/utils.cpp and src/utils.h: fixed-width integers in little-endian order, length-prefixed
-- strings, and the FNV-1a hash. A write function is the bytes that it hands to `stream.write`.
pub mod Integers
pub mod Strings
pub mod Prefixes
pub mod Views
use Prim.Native.Nat.{bit_and, bit_or, bit_xor}
use zidanedb.Base.{
  ℕ, zero, suc, ◌+◌, ◌*◌, ◌/◌, ◌%◌, ◌^◌, List, [], ◌∷◌, ◌++◌, Bool, Option, none, some, ltb, ◌==◌,
  if◌then◌else◌, length,
}
use zidanedb.Base.Results.{Result, ok, throws, string_too_large}
use zidanedb.Stream.{Bytes, IStream, stream, read}

-- `ReadStatus`, with the value read and the stream behind it where the status is `Success`. No
-- caller reads a result or goes on with a stream after another status.
pub data Read (A : Type 0) : Type 0 where
  success : A → IStream → Read A
  end_of_input truncated invalid_length : Read A

-- `if ((status = ...) != Success) return status;`
abbrev pub and_read : {A B : Type 0} → Read A → (A → IStream → Read B) → Read B
and_read (success a s) f = f a s
and_read end_of_input f = end_of_input
and_read truncated f = truncated
and_read invalid_length f = invalid_length

-- `static_cast<std::uint8_t>((n >> k) & 0xFF)`
abbrev pub byte_at : ℕ → ℕ → ℕ
byte_at n k = bit_and (n / 2 ^ k) 0xff % 256

unfoldable pub write_uint64 : ℕ → Bytes
write_uint64 n =
    byte_at n 0
    ∷ byte_at n 8
    ∷ byte_at n 16
    ∷ byte_at n 24
    ∷ byte_at n 32
    ∷ byte_at n 40
    ∷ byte_at n 48
    ∷ byte_at n 56
    ∷ []

unfoldable pub write_uint32 : ℕ → Bytes
write_uint32 n = byte_at n 0 ∷ byte_at n 8 ∷ byte_at n 16 ∷ byte_at n 24 ∷ []

unfoldable pub write_uint8 : ℕ → Bytes
write_uint8 n = n ∷ []

-- The loops of `read_uint64` and `read_uint32`: `rounds` bytes are still to be read, `i` have been,
-- and the shifted byte is cast to `width` bits.
unfoldable pub read_loop : (width rounds i result : ℕ) → Bytes → ℕ → Read ℕ
read_loop width zero i result rest pos = success result (stream rest pos)
read_loop width (suc rounds) i result [] pos = if i == 0 then end_of_input else truncated
read_loop width (suc rounds) i result (n ∷ rest) pos =
    read_loop width rounds (suc i) (bit_or result (n * 2 ^ (i * 8) % 2 ^ width)) rest (pos + 1)

unfoldable pub read_uint64 : IStream → Read ℕ
read_uint64 s = read_loop 64 8 0 0 s.rest s.pos

unfoldable pub read_uint32 : IStream → Read ℕ
read_uint32 s = read_loop 32 4 0 0 s.rest s.pos

unfoldable pub read_uint8 : IStream → Read ℕ
read_uint8 s = elim (s.rest) [ [] ↦ end_of_input | n ∷ rest ↦ success n (stream rest (s.pos + 1)) ]

unfoldable pub write_string : Bytes → ℕ → Result Bytes
write_string s max_length =
    if ltb max_length (length s)
    then throws string_too_large
    else ok (write_uint32 (length s % 2 ^ 32) ++ s)

-- `if (!stream.read(...)) return ReadStatus::Truncated;`
abbrev of_read : Option (Bytes × IStream) → Read Bytes
of_read none = truncated
of_read (some (result, s)) = success result s

-- The body of `read_string` behind the length prefix.
read_body : (length max_length : ℕ) → IStream → Read Bytes
read_body length max_length s =
    if ltb max_length length then invalid_length else of_read (read length s)

unfoldable pub read_string : IStream → ℕ → Read Bytes
unfolding read_body
read_string s max_length = and_read (read_uint32 s) (λ length s'. read_body length max_length s')

-- The loop of `fnv1a`, over the characters that are left.
unfoldable pub fnv1a_loop : ℕ → Bytes → ℕ
fnv1a_loop hash [] = hash
fnv1a_loop hash (c ∷ key) = fnv1a_loop (bit_xor hash c * 1_099_511_628_211 % 2 ^ 64) key

unfoldable pub fnv1a : Bytes → ℕ
unfolding fnv1a_loop
fnv1a key = fnv1a_loop 14_695_981_039_346_656_037 key

unfoldable pub string_size : Bytes → ℕ
string_size s = 4 + length s
