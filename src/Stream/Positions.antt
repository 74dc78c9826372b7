-- ===== src/Stream/Positions.antt =====
-- Reading and writing at an offset where the file is split.
use zidanedb.Base.{
  ℕ, ◌-◌, ◌≡◌, [], ◌++◌, arith, length, drop, drop-length-append, take-length-append, drop_add,
  length-append, drop-length, drop_nil, append-nil,
}
use zidanedb.Stream.{Bytes, write_at}

pub drop_at : (front back : Bytes) (off : ℕ) → off ≡ length front → drop off (front ++ back) ≡ back
drop_at front back off e = rw e (drop-length-append front back)

-- A write over as many bytes as it has.
pub write_at-middle :
    (front old back new : Bytes) (off : ℕ)
    → off ≡ length front
    → length new ≡ length old
    → write_at off new (front ++ (old ++ back)) ≡ front ++ (new ++ back)
unfolding write_at
write_at-middle front old back new off e same = rw (
  e,
  take-length-append front (old ++ back),
  no_gap,
  ← drop_add (length new) (length front) (front ++ (old ++ back)),
  drop-length-append front (old ++ back),
  same,
  drop-length-append old back,
)
  where
    no_gap : length front - length (front ++ (old ++ back)) ≡ 0
    no_gap = omega (arith, length-append front (old ++ back))

-- A write at the end of the file.
pub write_at-end :
    (file new : Bytes) (off : ℕ) → off ≡ length file → write_at off new file ≡ file ++ new
unfolding write_at
write_at-end file new off e = rw (
  e,
  rw append-nil at (take-length-append file []),
  no_gap,
  ← drop_add (length new) (length file) file,
  drop-length file,
  drop_nil {A = ℕ} (length new),
  append-nil new,
)
  where
    no_gap : length file - length file ≡ 0
    no_gap = omega arith
