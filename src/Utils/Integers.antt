-- ===== src/Utils/Integers.antt =====
-- The integers of utils.cpp: reading back what was written, and reading a file that is too short.
use zidanedb.Base.{
  ℕ, zero, suc, ◌+◌, ◌*◌, ◌/◌, ◌%◌, ◌^◌, ◌≤◌, ◌<◌, ◌≡◌, refl, ap, [], ◌∷◌, ◌++◌, arith, length,
  IsBytes,
}
use zidanedb.Base.Bits.{bit_and_byte, bit_or_shifted}
use zidanedb.Stream.{Bytes, stream}
use zidanedb.Utils.{
  Read, success, end_of_input, truncated, write_uint64, write_uint32, read_loop, read_uint64,
  read_uint32,
}
use Prim.Native.Nat.{bit_or}
use native.Mathlib.Nat.{pow-suc, pow-le-pow_right, one-le-pow, mod-eq_of_lt, div-add-mod}
use native.Mathlib.Numerals.{towards_suc}

-- The `n` low bytes of `v`, lowest first.
unfoldable pub le_bytes : ℕ → ℕ → Bytes
le_bytes zero v = []
le_bytes (suc n) v = v % 256 ∷ le_bytes n (v / 256)

pub length-le_bytes : (n v : ℕ) → length (le_bytes n v) ≡ n
unfolding le_bytes
length-le_bytes zero v = refl
length-le_bytes (suc n) v = ap suc (length-le_bytes n (v / 256))

pub le_bytes-IsBytes : (n v : ℕ) → IsBytes (le_bytes n v)
unfolding le_bytes
le_bytes-IsBytes zero v = tt
le_bytes-IsBytes (suc n) v = (omega arith, le_bytes-IsBytes n (v / 256))

pub write_uint64-le_bytes : (v : ℕ) → write_uint64 v ≡ le_bytes 8 v
unfolding write_uint64 le_bytes
write_uint64-le_bytes v = simp bit_and_byte (ground arith)

pub write_uint32-le_bytes : (v : ℕ) → write_uint32 v ≡ le_bytes 4 v
unfolding write_uint32 le_bytes
write_uint32-le_bytes v = simp bit_and_byte (ground arith)

pow_byte : (k : ℕ) → 2 ^ (k + 8) ≡ 256 * 2 ^ k
pow_byte k = simp towards_suc (omega arith)

pow_next : (i : ℕ) → 2 ^ (suc i * 8) ≡ 256 * 2 ^ (i * 8)
pow_next i = let e : suc i * 8 ≡ i * 8 + 8 = omega arith in rw e (pow_byte (i * 8))

pow_256 : (n : ℕ) → 256 ^ suc n ≡ 256 * 256 ^ n
pow_256 n = omega (arith, pow-suc 256 n)

byte_fits : (b i w : ℕ) → b < 256 → i * 8 + 8 ≤ w → b * 2 ^ (i * 8) % 2 ^ w ≡ b * 2 ^ (i * 8)
byte_fits b i w h fits =
    mod-eq_of_lt (omega (arith, pow_byte (i * 8), le, one-le-pow (i * 8) 2 (omega arith), scaled))
  where
    le : 2 ^ (i * 8 + 8) ≤ 2 ^ w
    le = pow-le-pow_right (omega arith) fits

    scaled : b * 2 ^ (i * 8) ≤ 255 * 2 ^ (i * 8)
    scaled = grind arith

-- A round of the loop adds its byte above the bits that are there.
add_byte :
    (b i w r : ℕ)
    → b < 256
    → i * 8 + 8 ≤ w
    → r < 2 ^ (i * 8)
    → bit_or r (b * 2 ^ (i * 8) % 2 ^ w) ≡ r + b * 2 ^ (i * 8)
add_byte b i w r h fits low = rw (byte_fits b i w h fits) (bit_or_shifted (i * 8) r b low)

read_loop-le_bytes :
    (w n i r v : ℕ) (rest : Bytes) (pos : ℕ)
    → r < 2 ^ (i * 8)
    → v < 256 ^ n
    → (i + n) * 8 ≤ w
    → read_loop w n i r (le_bytes n v ++ rest) pos
      ≡ success (r + v * 2 ^ (i * 8)) (stream rest (pos + n))
unfolding read_loop le_bytes
read_loop-le_bytes w zero i r v rest pos hr hv fits = ground arith
read_loop-le_bytes w (suc n) i r v rest pos hr hv fits =
    rw (add_byte (v % 256) i w r (omega arith) (omega arith) hr) (
      ground (
        arith,
        read_loop-le_bytes w n (suc i) (r + v % 256 * 2 ^ (i * 8)) (v / 256) rest (pos + 1)
            (grind (arith, pow_next i)) (omega (arith, pow_256 n)) (omega arith),
        ap (λ (t : ℕ). v / 256 * t) (pow_next i),
        ap (λ (t : ℕ). t * 2 ^ (i * 8)) (div-add-mod v 256),
      ))

-- A 64-bit number is read back from its eight bytes, whatever follows them.
pub read_uint64-write :
    (v : ℕ) (rest : Bytes) (pos : ℕ)
    → v < 2 ^ 64
    → read_uint64 (stream (write_uint64 v ++ rest) pos) ≡ success v (stream rest (pos + 8))
unfolding read_uint64
read_uint64-write v rest pos h =
    rw (write_uint64-le_bytes v)
      (ground (arith, read_loop-le_bytes 64 8 0 0 v rest pos (omega arith) h (omega arith)))

pub read_uint32-write :
    (v : ℕ) (rest : Bytes) (pos : ℕ)
    → v < 2 ^ 32
    → read_uint32 (stream (write_uint32 v ++ rest) pos) ≡ success v (stream rest (pos + 4))
unfolding read_uint32
read_uint32-write v rest pos h =
    rw (write_uint32-le_bytes v)
      (ground (arith, read_loop-le_bytes 32 4 0 0 v rest pos (omega arith) h (omega arith)))

pub length-write_uint64 : (v : ℕ) → length (write_uint64 v) ≡ 8
length-write_uint64 v = rw (write_uint64-le_bytes v) (length-le_bytes 8 v)

pub length-write_uint32 : (v : ℕ) → length (write_uint32 v) ≡ 4
length-write_uint32 v = rw (write_uint32-le_bytes v) (length-le_bytes 4 v)

pub write_uint64-IsBytes : (v : ℕ) → IsBytes (write_uint64 v)
write_uint64-IsBytes v = rw (write_uint64-le_bytes v) (le_bytes-IsBytes 8 v)

pub write_uint32-IsBytes : (v : ℕ) → IsBytes (write_uint32 v)
write_uint32-IsBytes v = rw (write_uint32-le_bytes v) (le_bytes-IsBytes 4 v)

-- A stream that ends within the integer.
unfoldable pub short_status : ℕ → Read ℕ
short_status zero = end_of_input
short_status (suc n) = truncated

pub read_loop_short :
    (w n i r : ℕ) (bs : Bytes) (pos : ℕ)
    → length bs < n
    → read_loop w n i r bs pos ≡ short_status (i + length bs)
unfolding read_loop short_status
read_loop_short w zero i r bs pos h = elim h [ ]
read_loop_short w (suc n) zero r [] pos h = refl
read_loop_short w (suc n) (suc i) r [] pos h = ground arith
read_loop_short w (suc n) i r (b ∷ bs) pos h =
    let e : i + suc (length bs) ≡ suc i + length bs = omega arith in
    rw e (read_loop_short w n (suc i) _ bs (pos + 1) (omega arith))
