-- ===== src/Index/Table.antt =====
-- The bucket table of an index file: reading and writing a bucket's head.
use zidanedb.Base.{
  ℕ, ◌+◌, ◌*◌, ◌^◌, ◌<◌, ◌≡◌, refl, sym, ap, ◌∙◌, List, [], ◌∷◌, ◌++◌, arith, length, get_or, set,
  set-split, append_assoc, length-append, lt→ltb,
}
use zidanedb.Base.Results.{ok}
use zidanedb.Constants.{index_magic}
use zidanedb.Stream.{Bytes, write_at}
use zidanedb.Stream.Positions.{drop_at, write_at-middle}
use zidanedb.Utils.{write_uint64, write_uint32, write_uint8, string_size}
use zidanedb.Utils.Integers.{length-write_uint64, length-write_uint32, read_uint64-write}
use zidanedb.Utils.Strings.{string_bytes, length-string_bytes}
use zidanedb.Index.Read.{Index, header_size, bucket_offset_of, read_head}
use zidanedb.Index.File.{header_bytes}
use zidanedb.Index.Represents.{heads_bytes, header_of, table_of, IsHeader}

pub length-header_of : (ix : Index) → length (header_of ix) ≡ header_size ix
unfolding header_bytes header_size write_uint8
length-header_of ix = omega (
  arith,
  length-append (string_bytes ix.magic) (header_bytes [] ix),
  length-append (write_uint32 ix.version) (
      write_uint64 ix.num_buckets
      ++ (write_uint64 ix.indexed_up_to_offset ++ write_uint8 ix.index_clean)),
  length-append (write_uint64 ix.num_buckets)
      (write_uint64 ix.indexed_up_to_offset ++ write_uint8 ix.index_clean),
  length-append (write_uint64 ix.indexed_up_to_offset) (write_uint8 ix.index_clean),
  length-string_bytes ix.magic,
  length-write_uint32 ix.version,
  length-write_uint64 ix.num_buckets,
  length-write_uint64 ix.indexed_up_to_offset,
)

pub length-heads_bytes : (hs : List ℕ) → length (heads_bytes hs) ≡ 8 * length hs
unfolding heads_bytes
length-heads_bytes [] = refl
length-heads_bytes (h ∷ hs) = omega (
  arith,
  length-append (write_uint64 h) (heads_bytes hs),
  length-write_uint64 h,
  length-heads_bytes hs,
)

heads_bytes-append : (xs ys : List ℕ) → heads_bytes (xs ++ ys) ≡ heads_bytes xs ++ heads_bytes ys
unfolding heads_bytes
heads_bytes-append [] ys = refl
heads_bytes-append (x ∷ xs) ys = rw (heads_bytes-append xs ys, append_assoc)

pub length-table_of :
    (ix : Index) (hs : List ℕ) → length (table_of ix hs) ≡ header_size ix + 8 * length hs
length-table_of ix hs = omega (
  arith,
  length-append (header_of ix) (heads_bytes hs),
  length-header_of ix,
  length-heads_bytes hs,
)

pub header_size-41 : {ix : Index} → IsHeader ix → header_size ix ≡ 41
unfolding header_size string_size index_magic
header_size-41 {ix} h = rw h.magic

pub bucket_offset_of-lem :
    {ix : Index} (b : ℕ)
    → IsHeader ix
    → b < ix.num_buckets
    → bucket_offset_of ix b ≡ header_size ix + 8 * b
unfolding bucket_offset_of
bucket_offset_of-lem {ix} b h lt =
    let size = header_size-41 h in let bound = h.num_buckets_lt in omega arith

regroup : (h x m y r : Bytes) → (h ++ (x ++ (m ++ y))) ++ r ≡ (h ++ x) ++ (m ++ (y ++ r))
regroup h x m y r = simp append_assoc

-- The file split at a bucket's head.
pub split_table :
    (ix : Index) (heads : List ℕ) (rest : Bytes) (b : ℕ)
    → b < length heads
    → (before after : Bytes) × (header_size ix + 8 * b ≡ length before)
      × (table_of ix heads ++ rest ≡ before ++ (write_uint64 (get_or heads b 0) ++ after))
      × ((v : ℕ) → table_of ix (set heads b v) ++ rest ≡ before ++ (write_uint64 v ++ after))
split_table ix heads rest b h =
    let (front, back, whole, at, written) = set-split heads b 0 h in
    (
      header_of ix ++ heads_bytes front,
      heads_bytes back ++ rest,
      omega (
        arith,
        length-append (header_of ix) (heads_bytes front),
        length-header_of ix,
        length-heads_bytes front,
      ),
      ap (λ hs. table_of ix hs ++ rest) whole ∙ grouped front (get_or heads b 0) back,
      λ v. ap (λ hs. table_of ix hs ++ rest) (written v) ∙ grouped front v back,
    )
  where
    grouped :
        (front : List ℕ) (v : ℕ) (back : List ℕ)
        → table_of ix (front ++ v ∷ back) ++ rest
          ≡ (header_of ix ++ heads_bytes front) ++ (write_uint64 v ++ (heads_bytes back ++ rest))
    grouped front v back = rw (heads_bytes-append front (v ∷ back)) (
        unfold heads_bytes in
        regroup (header_of ix) (heads_bytes front) (write_uint64 v) (heads_bytes back) rest)

pub read_head-table :
    (ix : Index) (heads : List ℕ) (rest : Bytes) (b : ℕ)
    → b < length heads
    → header_size ix + 8 * b < 2 ^ 63
    → get_or heads b 0 < 2 ^ 64
    → read_head (table_of ix heads ++ rest) (header_size ix + 8 * b) ≡ ok (get_or heads b 0)
unfolding read_head
read_head-table ix heads rest b h small fits =
    let (before, after, at, whole, written) = split_table ix heads rest b h in
    rw (
      lt→ltb (header_size ix + 8 * b) (2 ^ 63) small,
      whole,
      drop_at before (write_uint64 (get_or heads b 0) ++ after) (header_size ix + 8 * b) at,
      read_uint64-write (get_or heads b 0) after (header_size ix + 8 * b) fits,
    )

pub write_head-table :
    (ix : Index) (heads : List ℕ) (rest : Bytes) (b v : ℕ)
    → b < length heads
    → write_at (header_size ix + 8 * b) (write_uint64 v) (table_of ix heads ++ rest)
      ≡ table_of ix (set heads b v) ++ rest
write_head-table ix heads rest b v h =
    let (before, after, at, whole, written) = split_table ix heads rest b h in
    rw (whole, written v)
      (write_at-middle before (write_uint64 (get_or heads b 0)) after (write_uint64 v)
        (header_size ix + 8 * b) at
        (length-write_uint64 v ∙ sym (length-write_uint64 (get_or heads b 0))))
