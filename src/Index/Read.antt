-- ===== src/Index/Read.antt =====
-- src/index.cpp: reading entries, and the walk along a bucket's chain.
use zidanedb.Base.{
  ℕ, zero, suc, ◌+◌, ◌*◌, ◌%◌, ◌^◌, Option, none, some, [], Bool, true, false, ◌==◌, if◌then◌else◌,
  bytes_eq, length, ltb,
}
use zidanedb.Base.Results.{
  Exception, Result, ok, throws, diverges, and_then, ◌>>=◌, seek_failed,
  could_not_read_chain_offset, could_not_read_db_offset, could_not_read_next_entry_offset,
  could_not_read_key, could_not_open_index,
}
use zidanedb.Constants.{max_key_size}
use zidanedb.Stream.{Bytes, IStream, seek_ok, seekg}
use zidanedb.Utils.{Read, read_uint64, read_string, string_size, fnv1a}

-- The private members of the class; `path_` is the file that the actions run on.
pub record Index : Type 0 where
  pub magic : Bytes
  pub version : ℕ
  pub num_buckets : ℕ
  pub indexed_up_to_offset : ℕ
  pub index_clean : ℕ

pub record EntryLocation : Type 0 where
  pub entry_offset : ℕ
  pub prev_entry_offset : ℕ
  pub bucket_offset : ℕ
  pub chain_offset : ℕ

pub record IndexEntry : Type 0 where
  pub db_offset : ℕ
  pub next_entry_offset : ℕ
  pub key : Bytes

abbrev pub no_entry : IndexEntry
no_entry = record { db_offset = 0; next_entry_offset = 0; key = [] }

-- `file.seekg(off); if (!file) throw std::runtime_error{"seek failed"};`
abbrev pub seek : Bytes → ℕ → Result IStream
seek file off = if seek_ok off then ok (seekg file off) else throws seek_failed

-- `if (read(...) != ReadStatus::Success) throw ...;`
abbrev pub expect : {A : Type 0} → Read A → Exception → Result (A × IStream)
expect (Read.success a s) e = ok (a, s)
expect Read.end_of_input e = throws e
expect Read.truncated e = throws e
expect Read.invalid_length e = throws e

abbrev pub with_file : {A : Type 0} → Option Bytes → (Bytes → Result A) → Result A
with_file none f = throws could_not_open_index
with_file (some file) f = f file

unfoldable pub header_size : Index → ℕ
unfolding string_size
header_size ix = string_size ix.magic + 4 + 8 + 8 + 1

-- The reads of `read_entry` behind its seek.
unfoldable pub read_fields : IStream → Result IndexEntry
read_fields s = do
  (db_offset, s) ← expect (read_uint64 s) could_not_read_db_offset
  (next_entry_offset, s) ← expect (read_uint64 s) could_not_read_next_entry_offset
  (key, s) ← expect (read_string s max_key_size) could_not_read_key
  ok (record { db_offset = db_offset; next_entry_offset = next_entry_offset; key = key })

unfoldable pub read_entry : Bytes → ℕ → Result IndexEntry
unfolding read_fields
read_entry file entry_offset =
    if entry_offset == 0 then ok no_entry else (do s ← seek file entry_offset; read_fields s)

-- The `while` loop of `find_entry_offset`: the entry with the key and its predecessor. A chain whose
-- offsets never repeat has fewer entries than the file has bytes; on a cycle the loop does not end.
unfoldable pub find_loop : ℕ → Bytes → Bytes → (prev cur : ℕ) → Result (ℕ × ℕ)
find_loop zero file key prev cur = if cur == 0 then ok (0, prev) else diverges
find_loop (suc fuel) file key prev cur =
    let step = and_then (read_entry file cur) (λ entry.
      let rest = find_loop fuel file key cur entry.next_entry_offset in
      if bytes_eq key entry.key then ok (cur, prev) else rest) in
    if cur == 0 then ok (0, prev) else step

unfoldable pub bucket_offset_of : Index → ℕ → ℕ
bucket_offset_of ix bucket = (header_size ix + bucket * 8 % 2 ^ 64) % 2 ^ 64

unfoldable pub read_head : Bytes → ℕ → Result ℕ
read_head file bucket_offset = do
  s ← seek file bucket_offset
  (chain_offset, s) ← expect (read_uint64 s) could_not_read_chain_offset
  ok chain_offset

unfoldable pub find_entry_offset : Index → Bytes → Bytes → Result EntryLocation
unfolding bucket_offset_of
find_entry_offset ix file key = do
  let bucket_offset = bucket_offset_of ix (fnv1a key % ix.num_buckets)
  chain_offset ← read_head file bucket_offset
  (existing, prev) ← find_loop (length file) file key 0 chain_offset
  ok (record {
    entry_offset = existing;
    prev_entry_offset = if existing == 0 then 0 else prev;
    bucket_offset = bucket_offset;
    chain_offset = chain_offset;
  })

-- The value that `find` reads at a location.
unfoldable pub read_found : Bytes → EntryLocation → Result (Option ℕ)
read_found file loc = if loc.entry_offset == 0 then ok none else (do
  s ← seek file loc.entry_offset
  (db_offset, s) ← expect (read_uint64 s) could_not_read_db_offset
  ok (some db_offset))

unfoldable pub find : Index → Option Bytes → Bytes → Result (Option ℕ)
unfolding find_entry_offset read_found
find ix path key =
    with_file path λ file. do offsets ← find_entry_offset ix file key; read_found file offsets

-- `empty`: the loop over the buckets that are left, on a stream that reads them in order.
unfoldable pub empty_loop : ℕ → IStream → Result Bool
empty_loop zero s = ok true
empty_loop (suc rounds) s = do
  (chain_offset, s') ← expect (read_uint64 s) could_not_read_chain_offset
  let rest = empty_loop rounds s'
  if chain_offset == 0 then rest else ok false

unfoldable pub empty : Index → Option Bytes → Result Bool
unfolding empty_loop
empty ix path =
    with_file path λ file. do s ← seek file (header_size ix); empty_loop ix.num_buckets s

-- `IndexStats`. The `double` of the average is kept as the two numbers that it is the quotient of;
-- it is `none` where no bucket is occupied.
pub record IndexStats : Type 0 where
  pub num_buckets : ℕ
  pub empty_buckets : ℕ
  pub non_empty_buckets : ℕ
  pub avg_chain_length : Option (ℕ × ℕ)
  pub max_chain_length : ℕ

-- The length of a chain, as `stats` walks it.
unfoldable pub chain_loop : ℕ → Bytes → (chain_length cur : ℕ) → Result ℕ
chain_loop zero file n cur = if cur == 0 then ok n else diverges
chain_loop (suc fuel) file n cur =
    let step =
      and_then (read_entry file cur)
        (λ entry. chain_loop fuel file (n + 1) entry.next_entry_offset) in
    if cur == 0 then ok n else step

-- One round of the loop over the buckets: the counts so far, with the total length.
unfoldable pub count_chain : ℕ → ℕ → IndexStats × ℕ → IndexStats × ℕ
count_chain chain_offset chain_length (r, total) = (
  record r {
    empty_buckets = if chain_offset == 0 then r.empty_buckets + 1 else r.empty_buckets;
    non_empty_buckets = if chain_offset == 0 then r.non_empty_buckets else r.non_empty_buckets + 1;
    max_chain_length =
        if ltb r.max_chain_length chain_length then chain_length else r.max_chain_length;
  },
  total + chain_length,
)

unfoldable pub stats_loop : ℕ → Index → Bytes → (i : ℕ) → IndexStats × ℕ → Result (IndexStats × ℕ)
unfolding count_chain bucket_offset_of
stats_loop zero ix file i acc = ok acc
stats_loop (suc rounds) ix file i acc = do
  chain_offset ← read_head file (bucket_offset_of ix i)
  chain_length ← chain_loop (length file) file 0 chain_offset
  stats_loop rounds ix file (i + 1) (count_chain chain_offset chain_length acc)

unfoldable pub stats : Index → Option Bytes → Result IndexStats
unfolding stats_loop
stats ix path = with_file path λ file. do
  (r, total) ← stats_loop ix.num_buckets ix file 0 (
    record {
      num_buckets = ix.num_buckets;
      empty_buckets = 0;
      non_empty_buckets = 0;
      avg_chain_length = none;
      max_chain_length = 0;
    },
    0,
  )
  ok (record r {
    avg_chain_length = if r.non_empty_buckets == 0 then none else some (total, r.non_empty_buckets);
  })
