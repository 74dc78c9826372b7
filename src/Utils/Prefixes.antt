-- ===== src/Utils/Prefixes.antt =====
-- Reading from a file that is cut short: each read of utils.cpp either meets the end of the stream, or
-- answers as it does on the whole file.
use zidanedb.Base.{
  ℕ, zero, suc, ◌+◌, ◌≤◌, ◌≡◌, refl, ap, [], ◌∷◌, ◌++◌, arith, length, take, drop, length-append,
  ltb, inl, inr, Bool-cases, ne→==, le→ltb,
}
use zidanedb.Stream.{Bytes, IStream, stream, read}
use zidanedb.Utils.{
  Read, and_read, read_loop, read_uint32, read_uint8, read_string, read_body, of_read,
}

-- the stream `s` over a longer file
abbrev pub longer : Bytes → IStream → IStream
longer t s = stream (s.rest ++ t) s.pos

-- `Stable t m m'`: the read `m` met the end of the stream, or `m'` is its answer over the longer file.
pub data Stable {A : Type 0} (t : Bytes) : Read A → Read A → Type 0 where
  ended : {m : Read A} → Stable t Read.end_of_input m
  cut : {m : Read A} → Stable t Read.truncated m
  done : {a : A} {s : IStream} → Stable t (Read.success a s) (Read.success a (longer t s))
  bad : Stable t Read.invalid_length Read.invalid_length

module _ (t : Bytes) where
  and_read-Stable :
      {A B : Type 0} {m m' : Read A} {f : A → IStream → Read B}
      → Stable t m m'
      → ((a : A) (s : IStream) → Stable t (f a s) (f a (longer t s)))
      → Stable t (and_read m f) (and_read m' f)
  and_read-Stable ended h = ended
  and_read-Stable cut h = cut
  and_read-Stable done h = h _ _
  and_read-Stable bad h = bad

  read_loop-Stable :
      (w n i r : ℕ) (bs : Bytes) (pos : ℕ)
      → Stable t (read_loop w n i r bs pos) (read_loop w n i r (bs ++ t) pos)
  unfolding read_loop
  read_loop-Stable w zero i r bs pos = done
  read_loop-Stable w (suc n) zero r [] pos = ended
  read_loop-Stable w (suc n) (suc i) r [] pos = rw (ne→== (suc i) 0 (omega arith)) cut
  read_loop-Stable w (suc n) i r (b ∷ bs) pos = read_loop-Stable w n (suc i) _ bs (pos + 1)

  take-append : (n : ℕ) (xs : Bytes) → n ≤ length xs → take n (xs ++ t) ≡ take n xs
  take-append zero xs h = refl
  take-append (suc n) [] h = elim h [ ]
  take-append (suc n) (x ∷ xs) h = ap (λ l. x ∷ l) (take-append n xs (omega arith))

  drop-append : (n : ℕ) (xs : Bytes) → n ≤ length xs → drop n (xs ++ t) ≡ drop n xs ++ t
  drop-append zero xs h = refl
  drop-append (suc n) [] h = elim h [ ]
  drop-append (suc n) (x ∷ xs) h = drop-append n xs (omega arith)

  of_read-Stable :
      (n : ℕ) (s : IStream) → Stable t (of_read (read n s)) (of_read (read n (longer t s)))
  of_read-Stable n s = elim (Bool-cases (ltb (length s.rest) n)) [
    | inl short ↦ rw short cut
    | inr enough ↦
        let fits : n ≤ length s.rest = ground arith in
        rw
          (
            enough,
            le→ltb (length (s.rest ++ t)) n (omega (arith, length-append s.rest t)),
            take-append n s.rest fits,
            drop-append n s.rest fits,
          )
          done
  ]

  pub read_uint8-Stable : (s : IStream) → Stable t (read_uint8 s) (read_uint8 (longer t s))
  unfolding read_uint8
  read_uint8-Stable s = first s.rest s.pos
    where
      first :
          (bs : Bytes) (pos : ℕ)
          → Stable t (read_uint8 (stream bs pos)) (read_uint8 (longer t (stream bs pos)))
      first [] pos = ended
      first (b ∷ bs) pos = done

  pub read_uint32-Stable : (s : IStream) → Stable t (read_uint32 s) (read_uint32 (longer t s))
  unfolding read_uint32
  read_uint32-Stable s = read_loop-Stable 32 4 0 0 s.rest s.pos

  read_body-Stable :
      (n m : ℕ) (s : IStream) → Stable t (read_body n m s) (read_body n m (longer t s))
  unfolding read_body
  read_body-Stable n m s = elim (Bool-cases (ltb m n)) [
    | inl long ↦ rw long bad
    | inr fits ↦ rw fits (of_read-Stable n s)
  ]

  pub read_string-Stable :
      (s : IStream) (m : ℕ) → Stable t (read_string s m) (read_string (longer t s) m)
  unfolding read_string
  read_string-Stable s m = and_read-Stable (read_uint32-Stable s) (λ n s'. read_body-Stable n m s')
