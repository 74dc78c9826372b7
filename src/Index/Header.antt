-- ===== src/Index/Header.antt =====
-- The header of an index file: a new file, the two fields that are written in place, and `load`.
pub mod Fields
pub mod Load
use zidanedb.Base.{
  ℕ, zero, suc, ◌+◌, ◌-◌, ◌*◌, ◌/◌, ◌^◌, ◌≤◌, ◌<◌, ◌≡◌, ◌≢◌, refl, sym, ap, ◌∙◌, List, [], ◌∷◌,
  ◌++◌, Option, none, some, Bool, true, false, if◌then◌else◌, arith, length, All, get_or, replicate,
  length-replicate, append_assoc, append-nil, length-append, eq→==, ne→==, lt→ltb, le→ltb, bytes_eq,
  bytes_eq_self, not, ltb,
}
use zidanedb.Base.Results.{Result, ok}
use zidanedb.Constants.{index_magic, index_version}
use zidanedb.Stream.{Bytes, stream, write_at}
use zidanedb.Stream.Positions.{write_at-middle}
use zidanedb.Utils.{
  Read, write_uint64, write_uint32, write_uint8, write_string, read_uint8, string_size,
}
use zidanedb.Utils.Integers.{
  length-write_uint64, length-write_uint32, read_uint64-write, read_uint32-write,
}
use zidanedb.Utils.Strings.{
  string_bytes, write_string-ok, length-string_bytes, read_string-string_bytes,
}
use zidanedb.Index.Read.{Index, header_size}
use zidanedb.Index.File.{
  header_bytes, empty_buckets, fresh_index, setup, load, load_header, open_index,
}
use zidanedb.Index.Update.{set_index_clean, set_indexed_up_to_offset}
use zidanedb.Index.Layout.{entries_bytes, entries_size}
use zidanedb.Index.Chains.{Node, end, lookup}
use zidanedb.Index.Represents.{
  IsHeader, Represents, Holds, heads_bytes, header_of, table_of, bucket, entries_base,
}
use zidanedb.Index.Table.{header_size-41, length-table_of}
use zidanedb.Index.Find.{end_of_file}
use zidanedb.Index.Bucket.{length-file}

-- A new file.
empty_buckets-heads : (n : ℕ) → empty_buckets n ≡ heads_bytes (replicate n 0)
unfolding empty_buckets heads_bytes
empty_buckets-heads zero = refl
empty_buckets-heads (suc n) = ap (λ l. write_uint64 0 ++ l) (empty_buckets-heads n)

get_or-replicate : (n i : ℕ) → ◌≡◌ {A = ℕ} (get_or (replicate n 0) i 0) 0
get_or-replicate zero i = refl
get_or-replicate (suc n) zero = refl
get_or-replicate (suc n) (suc i) = get_or-replicate n i

All-replicate : (P : ℕ → Type 0) (n : ℕ) → P 0 → All P (replicate n 0)
All-replicate P zero p = tt
All-replicate P (suc n) p = (p, All-replicate P n p)

abbrev pub fresh_file : ℕ → Bytes
fresh_file n = table_of (fresh_index n) (replicate n 0) ++ entries_bytes []

pub setup-ok : (n : ℕ) → setup n none ≡ (ok (fresh_index n), some (fresh_file n))
unfolding setup index_magic fresh_index entries_bytes
setup-ok n = rw (
  write_string-ok index_magic 16 (omega arith) (omega arith),
  empty_buckets-heads n,
  append-nil (table_of (fresh_index n) (replicate n 0)),
)

fresh-IsHeader : (n : ℕ) → 0 < n → n < 2 ^ 59 → IsHeader (fresh_index n)
unfolding fresh_index
fresh-IsHeader n pos lt = record {
  magic = refl;
  version = refl;
  num_buckets_pos = pos;
  num_buckets_lt = omega arith;
  up_to_lt = omega arith;
  clean_le = omega arith;
}

pub length-fresh_file : (n : ℕ) → 0 < n → n < 2 ^ 59 → length (fresh_file n) ≡ 41 + 8 * n
length-fresh_file n pos lt = omega (
  arith,
  length-file (fresh_index n) (replicate n 0) [],
  header_size-41 (fresh-IsHeader n pos lt),
  length-replicate {A = ℕ} n 0,
)

-- A new index holds the empty map.
pub fresh-Holds : (n : ℕ) → 0 < n → n < 2 ^ 59 → Holds (fresh_index n) (fresh_file n) (λ key. none)
unfolding lookup
fresh-Holds n pos lt =
    let header = fresh-IsHeader n pos lt in
    record {
      heads = replicate n 0;
      es = [];
      chains = λ b. [];
      represents = record {
        header = header;
        bytes = refl;
        small = omega (
          arith,
          length-file (fresh_index n) (replicate n 0) [],
          header_size-41 header,
          length-replicate {A = ℕ} n 0,
        );
        heads_length = unfold fresh_index in length-replicate n 0;
        heads_lt = All-replicate (λ h. h < 2 ^ 63) n (omega arith);
        entries = tt;
        chain = λ b h. end (get_or-replicate n b);
        hashed = λ b h. tt;
        distinct = λ b h. tt;
      };
      map = λ key. refl;
    }

-- For a positive number of buckets below 2^59, `setup` without a file returns a new index with a
-- file that holds the empty map.
pub setup-Holds :
    (n : ℕ)
    → 0 < n
    → n < 2 ^ 59
    → (setup n none ≡ (ok (fresh_index n), some (fresh_file n)))
      × Holds (fresh_index n) (fresh_file n) (λ key. none)
setup-Holds n pos lt = (setup-ok n, fresh-Holds n pos lt)

-- The header up to its last two fields.
abbrev front_of : Index → Bytes
front_of ix = string_bytes ix.magic ++ (write_uint32 ix.version ++ write_uint64 ix.num_buckets)

regroup_clean :
    (m v n u c h e : Bytes)
    → ((m ++ (v ++ (n ++ (u ++ c)))) ++ h) ++ e ≡ ((m ++ (v ++ n)) ++ u) ++ (c ++ (h ++ e))
regroup_clean m v n u c h e = simp append_assoc

regroup_up_to :
    (m v n u c h e : Bytes)
    → ((m ++ (v ++ (n ++ (u ++ c)))) ++ h) ++ e ≡ (m ++ (v ++ n)) ++ (u ++ (c ++ (h ++ e)))
regroup_up_to m v n u c h e = simp append_assoc

length-front : (ix : Index) → length (front_of ix) ≡ header_size ix - 9
unfolding header_size
length-front ix = omega (
  arith,
  length-append (string_bytes ix.magic) (write_uint32 ix.version ++ write_uint64 ix.num_buckets),
  length-append (write_uint32 ix.version) (write_uint64 ix.num_buckets),
  length-string_bytes ix.magic,
  length-write_uint32 ix.version,
  length-write_uint64 ix.num_buckets,
)

abbrev pub with_clean : Index → ℕ → Index
with_clean ix c = record ix { index_clean = c }

abbrev pub with_up_to : Index → ℕ → Index
with_up_to ix d = record ix { indexed_up_to_offset = d }

write_clean :
    (ix : Index) (heads : List ℕ) (rest : Bytes) (c : ℕ)
    → 41 ≤ header_size ix
    → write_at (header_size ix - 1) (write_uint8 c) (table_of ix heads ++ rest)
      ≡ table_of (with_clean ix c) heads ++ rest
unfolding header_bytes write_uint8
write_clean ix heads rest c size =
    let m = string_bytes ix.magic in
    let v = write_uint32 ix.version in
    let n = write_uint64 ix.num_buckets in
    let u = write_uint64 ix.indexed_up_to_offset in
    rw
      (
        regroup_clean m v n u (ix.index_clean ∷ []) (heads_bytes heads) rest,
        regroup_clean m v n u (c ∷ []) (heads_bytes heads) rest,
      )
      (write_at-middle (front_of ix ++ u) (ix.index_clean ∷ []) (heads_bytes heads ++ rest) (c ∷ [])
        (header_size ix - 1)
        (omega (
          arith,
          length-append (front_of ix) u,
          length-front ix,
          length-write_uint64 ix.indexed_up_to_offset,
        ))
        refl)

write_up_to :
    (ix : Index) (heads : List ℕ) (rest : Bytes) (d : ℕ)
    → write_at (header_size ix - 1 - 8) (write_uint64 d) (table_of ix heads ++ rest)
      ≡ table_of (with_up_to ix d) heads ++ rest
unfolding header_bytes
write_up_to ix heads rest d =
    let m = string_bytes ix.magic in
    let v = write_uint32 ix.version in
    let n = write_uint64 ix.num_buckets in
    let c = write_uint8 ix.index_clean in
    rw
      (
        regroup_up_to m v n (write_uint64 ix.indexed_up_to_offset) c (heads_bytes heads) rest,
        regroup_up_to m v n (write_uint64 d) c (heads_bytes heads) rest,
      )
      (write_at-middle (front_of ix) (write_uint64 ix.indexed_up_to_offset)
        (c ++ (heads_bytes heads ++ rest)) (write_uint64 d) (header_size ix - 1 - 8)
        (omega (arith, length-front ix))
        (length-write_uint64 d ∙ sym (length-write_uint64 ix.indexed_up_to_offset)))
