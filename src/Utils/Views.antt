-- ===== src/Utils/Views.antt =====
-- What any bytes are to the reads of utils.cpp: an integer or a string with what follows it, or too
-- few bytes, or a length above the limit.
use zidanedb.Base.{
  ℕ, zero, suc, ◌+◌, ◌*◌, ◌/◌, ◌%◌, ◌^◌, ◌≤◌, ◌<◌, ◌≡◌, ◌⊎◌, inl, inr, refl, [], ◌∷◌, ◌++◌, arith,
  length, IsBytes, take, drop, length-take, take-append-drop, lt→ltb, le→ltb, ltb, Bool-cases,
  append_assoc,
}
use zidanedb.Stream.{Bytes, stream}
use zidanedb.Utils.{end_of_input, truncated, write_uint32, read_uint32, read_string, read_body}
use zidanedb.Utils.Integers.{
  le_bytes, write_uint32-le_bytes, read_uint32-write, read_loop_short, short_status,
}
use zidanedb.Utils.Strings.{string_bytes}
use native.Mathlib.Nat.{pow-suc}

pub IsBytes-drop : (n : ℕ) (bs : Bytes) → IsBytes bs → IsBytes (drop n bs)
IsBytes-drop zero bs h = h
IsBytes-drop (suc n) [] h = h
IsBytes-drop (suc n) (b ∷ bs) (lt, h) = IsBytes-drop n bs h

-- Any `n` bytes are those of a number.
le_bytes_view :
    (n : ℕ) (bs : Bytes)
    → IsBytes bs
    → n ≤ length bs
    → (v : ℕ) × (rest : Bytes) × (v < 256 ^ n) × (bs ≡ le_bytes n v ++ rest) × IsBytes rest
unfolding le_bytes
le_bytes_view zero bs h enough = (0, bs, omega arith, refl, h)
le_bytes_view (suc n) [] h enough = absurd (omega arith)
le_bytes_view (suc n) (b ∷ bs) (lt, h) enough =
    let (v, rest, small, e, bytes) = le_bytes_view n bs h (omega arith) in
    let low : (b + 256 * v) % 256 ≡ b = omega arith in
    let high : (b + 256 * v) / 256 ≡ v = omega arith in
    (b + 256 * v, rest, omega (arith, pow-suc 256 n), rw (low, high, e) refl, bytes)

pub data Uint32View : Bytes → Type 0 where
  few :
      {bs : Bytes}
      → ((pos : ℕ)
          → (read_uint32 (stream bs pos) ≡ end_of_input)
            ⊎ (read_uint32 (stream bs pos) ≡ truncated))
      → Uint32View bs
  number : (v : ℕ) (rest : Bytes) → v < 2 ^ 32 → IsBytes rest → Uint32View (write_uint32 v ++ rest)

short-cases : (n : ℕ) → (short_status n ≡ end_of_input) ⊎ (short_status n ≡ truncated)
unfolding short_status
short-cases zero = inl refl
short-cases (suc n) = inr refl

pub uint32_view : (bs : Bytes) → IsBytes bs → Uint32View bs
unfolding read_uint32
uint32_view bs h = elim (Bool-cases (ltb (length bs) 4)) [
  | inl short ↦ few (λ pos. rw (read_loop_short 32 4 0 0 bs pos (ground arith)) (short-cases _))
  | inr enough ↦
      let (v, rest, small, e, bytes) = le_bytes_view 4 bs h (ground arith) in
      rw (e, ← write_uint32-le_bytes v) (number v rest (omega (arith, small)) bytes)
]

-- A string no longer than `m`, and what is behind it.
pub data StringView (m : ℕ) : Bytes → Type 0 where
  cut :
      {bs : Bytes}
      → ((pos : ℕ)
          → (read_string (stream bs pos) m ≡ end_of_input)
            ⊎ (read_string (stream bs pos) m ≡ truncated))
      → StringView m bs
  long : (len : ℕ) (rest : Bytes) → m < len → len < 2 ^ 32 → StringView m (write_uint32 len ++ rest)
  whole : (s rest : Bytes) → length s ≤ m → IsBytes rest → StringView m (string_bytes s ++ rest)

read_string_few :
    (m : ℕ) (bs : Bytes) (pos : ℕ)
    → (read_uint32 (stream bs pos) ≡ end_of_input) ⊎ (read_uint32 (stream bs pos) ≡ truncated)
    → (read_string (stream bs pos) m ≡ end_of_input) ⊎ (read_string (stream bs pos) m ≡ truncated)
unfolding read_string
read_string_few m bs pos (inl e) = inl (rw e refl)
read_string_few m bs pos (inr e) = inr (rw e refl)

read_string_short :
    (m len : ℕ) (rest : Bytes) (pos : ℕ)
    → len < 2 ^ 32
    → len ≤ m
    → length rest < len
    → read_string (stream (write_uint32 len ++ rest) pos) m ≡ truncated
unfolding read_string read_body
read_string_short m len rest pos lt fits short =
    rw (read_uint32-write len rest pos lt, le→ltb m len fits, lt→ltb (length rest) len short) refl

prefixed : (m : ℕ) {bs : Bytes} → Uint32View bs → StringView m bs
prefixed m (few h) = cut (λ pos. read_string_few m _ pos (h pos))
prefixed m (number len rest lt bytes) = elim (Bool-cases (ltb m len)) [
  | inl large ↦ long len rest (ground arith) lt
  | inr fits ↦ elim (Bool-cases (ltb (length rest) len)) [
    | inl short ↦
        cut (λ pos. inr (read_string_short m len rest pos lt (ground arith) (ground arith)))
    | inr enough ↦
        let size : length (take len rest) ≡ len = length-take len rest (ground arith) in
        let split : string_bytes (take len rest) ++ drop len rest ≡ write_uint32 len ++ rest =
          rw
            (
              append_assoc (write_uint32 (length (take len rest))) (take len rest) (drop len rest),
              size,
              take-append-drop len rest,
            )
            refl in
        rw (← split) (
          whole (take len rest) (drop len rest) (ground (arith, size))
            (IsBytes-drop len rest bytes))
  ]
]

pub string_view : (m : ℕ) (bs : Bytes) → IsBytes bs → StringView m bs
string_view m bs h = prefixed m (uint32_view bs h)
