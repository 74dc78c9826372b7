-- ===== src/Utils/Strings.antt =====
-- The strings of utils.cpp: the round trip, and every way in which reading one fails.
use zidanedb.Base.{
  ℕ, ◌+◌, ◌%◌, refl, ◌^◌, ◌≤◌, ◌<◌, ◌≡◌, ap, ◌++◌, arith, length, IsBytes, length-append,
  take-length-append, drop-length-append, le→ltb, lt→ltb, IsBytes-append, append_assoc, ◌∙◌,
}
use zidanedb.Base.Results.{ok, throws, string_too_large}
use zidanedb.Stream.{Bytes, stream}
use zidanedb.Utils.{Read, success, write_uint32, write_string, read_string, read_body, string_size}
use zidanedb.Utils.Integers.{read_uint32-write, length-write_uint32, write_uint32-IsBytes}

-- The bytes of a string with its length prefix.
abbrev pub string_bytes : Bytes → Bytes
string_bytes s = write_uint32 (length s) ++ s

pub write_string-ok :
    (s : Bytes) (m : ℕ) → length s ≤ m → m < 2 ^ 32 → write_string s m ≡ ok (string_bytes s)
unfolding write_string
write_string-ok s m h fits =
    let small : length s % 2 ^ 32 ≡ length s = omega arith in rw (le→ltb m (length s) h, small)

pub write_string-throws :
    (s : Bytes) (m : ℕ) → m < length s → write_string s m ≡ throws string_too_large
unfolding write_string
write_string-throws s m h = rw (lt→ltb m (length s) h)

pub length-string_bytes : (s : Bytes) → length (string_bytes s) ≡ string_size s
unfolding string_size
length-string_bytes s = rw length-append (omega (arith, length-write_uint32 (length s)))

pub string_bytes-IsBytes : (s : Bytes) → IsBytes s → IsBytes (string_bytes s)
string_bytes-IsBytes s h = IsBytes-append (write_uint32 (length s)) s (write_uint32-IsBytes _) h

read_body-append :
    (s rest : Bytes) (m pos : ℕ)
    → length s ≤ m
    → read_body (length s) m (stream (s ++ rest) pos) ≡ success s (stream rest (pos + length s))
unfolding read_body
read_body-append s rest m pos h = rw (
  le→ltb m (length s) h,
  le→ltb (length (s ++ rest)) (length s) (omega (arith, length-append s rest)),
  take-length-append s rest,
  drop-length-append s rest,
)

end_pos : (s : Bytes) (pos : ℕ) → pos + 4 + length s ≡ pos + string_size s
unfolding string_size
end_pos s pos = omega arith

-- A string no longer than the limit, which is below 2^32, is read back from its length and its
-- bytes, whatever follows them.
pub read_string-string_bytes :
    (s rest : Bytes) (m pos : ℕ)
    → length s ≤ m
    → m < 2 ^ 32
    → read_string (stream (string_bytes s ++ rest) pos) m
      ≡ success s (stream rest (pos + string_size s))
unfolding read_string
read_string-string_bytes s rest m pos h fits = rw (append_assoc (write_uint32 (length s)) s rest) (
    rw (read_uint32-write (length s) (s ++ rest) pos (omega arith)) (
      read_body-append s rest m (pos + 4) h
      ∙ ap (λ (p : ℕ). success s (stream rest p)) (end_pos s pos)))

-- A string whose length is above the limit is refused before its bytes are read.
pub read_string-too_large :
    (len limit : ℕ) (rest : Bytes) (pos : ℕ)
    → limit < len
    → len < 2 ^ 32
    → read_string (stream (write_uint32 len ++ rest) pos) limit ≡ Read.invalid_length
unfolding read_string read_body
read_string-too_large len limit rest pos large lt =
    rw (read_uint32-write len rest pos lt, lt→ltb limit len large) refl
