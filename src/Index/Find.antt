-- ===== src/Index/Find.antt =====
-- `find` on a file that holds a map.
use zidanedb.Base.{
  ℕ, zero, suc, ◌+◌, ◌*◌, ◌^◌, ◌≤◌, ◌<◌, ◌≡◌, refl, List, [], ◌∷◌, ◌++◌, Option, some, none, ◌∙◌,
  ◌≢◌, ◌⊎◌, Bool, true, false, if◌then◌else◌, arith, length, All, get_or, inl, inr, ne→==, eq→==,
  lt→ltb, bytes_eq, Bool-cases, ◌==◌, length-append,
}
use mathlib.Core.Path.{subst}
use zidanedb.Base.Results.{ok}
use zidanedb.Stream.{Bytes}
use zidanedb.Index.Read.{
  Index, IndexEntry, EntryLocation, header_size, find_loop, find_entry_offset, read_head,
  read_found, find,
}
use zidanedb.Index.Layout.{
  entry_at, entries_bytes, entries_size, entry_size, entry_at-lt, length-entries_bytes,
}
use zidanedb.Index.Entries.{EntryFits, read_entry-entry_at, read_uint64-db_offset}
use zidanedb.Index.Chains.{Node, Chain, end, link, locate, lookup, locate-lookup}
use zidanedb.Index.Represents.{Represents, Holds, bucket, table_of, entries_base}
use zidanedb.Index.Table.{length-table_of, bucket_offset_of-lem, read_head-table}

pub All-get_or :
    (P : ℕ → Type 0) (xs : List ℕ) (i d : ℕ) → All P xs → i < length xs → P (get_or xs i d)
All-get_or P [] i d all h = elim h [ ]
All-get_or P (x ∷ xs) zero d (p, ps) h = p
All-get_or P (x ∷ xs) (suc i) d (p, ps) h = All-get_or P xs i d ps (omega arith)

pub entry_at-EntryFits :
    (base off : ℕ) (es : List IndexEntry) {e : IndexEntry}
    → All EntryFits es
    → entry_at base off es ≡ some e
    → EntryFits e
unfolding entry_at
entry_at-EntryFits base off [] all h = cc
entry_at-EntryFits base off (x ∷ es) {e} (fits, rest) h = elim (Bool-cases (base == off)) [
  | inl here ↦ let same : x ≡ e = ground arith in subst EntryFits same fits
  | inr later ↦ entry_at-EntryFits (base + entry_size x) off es rest (rw later at h)
]

if-ok : {A : Type 0} (b : Bool) (x y : A) → (if b then ok x else ok y) ≡ ok (if b then x else y)
if-ok true x y = refl
if-ok false x y = refl

-- On a chain the walk ends, and stops where `locate` says.
module _ (front : Bytes) (base : ℕ) (at_base : base ≡ length front) (es : List IndexEntry)
    (fits : All EntryFits es) (small : base + entries_size es < 2 ^ 63) where
  find_loop-Chain :
      (fuel : ℕ) {off : ℕ} {ns : List Node} (key : Bytes) (prev : ℕ)
      → Chain base es off ns
      → off ≤ fuel
      → find_loop fuel (front ++ entries_bytes es) key prev off ≡ ok (locate key prev ns)
  unfolding find_loop locate
  find_loop-Chain zero key prev (end z) h = rw z
  find_loop-Chain zero key prev (link pos e n lt c) h = absurd (omega arith)
  find_loop-Chain (suc fuel) key prev (end z) h = rw z
  find_loop-Chain (suc fuel) {off} key prev (link {e} {ns} pos h n lt c) le =
      rw
        (
          ne→== off 0 pos,
          read_entry-entry_at front base at_base off es h (entry_at-EntryFits base off es fits h)
              pos (omega (arith, entry_at-lt base off es h)),
          n,
          find_loop-Chain fuel key off c (omega arith),
        )
        (if-ok (bytes_eq key e.key) (off, prev) (locate key off ns))

module _ {ix : Index} {file : Bytes} {heads : List ℕ} {es : List IndexEntry}
    {chains : ℕ → List Node} (rep : Represents ix file heads es chains) where
  -- The end of the file, as the end of its entries.
  pub end_of_file : length file ≡ entries_base ix + entries_size es
  end_of_file = rw rep.bytes (
      omega (
        arith,
        length-append (table_of ix heads) (entries_bytes es),
        length-table_of ix heads,
        length-entries_bytes es,
        rep.heads_length,
      ))

  pub table_end : entries_base ix ≡ length (table_of ix heads)
  table_end = omega (arith, length-table_of ix heads, rep.heads_length)

  -- The head of a bucket lies before the end of the file.
  pub head-le : (b : ℕ) → b < ix.num_buckets → get_or heads b 0 ≤ length file
  head-le b h = below (rep.chain b h)
    where
      below : {ns : List Node} {off : ℕ} → Chain (entries_base ix) es off ns → off ≤ length file
      below (end z) = omega arith
      below (link {off} pos e n lt c) =
          omega (arith, entry_at-lt (entries_base ix) off es e, end_of_file)

  -- What `find_entry_offset` returns, bucket by bucket.
  abbrev pub location : Bytes → EntryLocation
  location key =
      let b = bucket ix key in
      let found = locate key 0 (chains b) in
      record {
        entry_offset = found.0;
        prev_entry_offset = if found.0 == 0 then 0 else found.1;
        bucket_offset = header_size ix + 8 * b;
        chain_offset = get_or heads b 0;
      }

  pub bucket-lt : (key : Bytes) → bucket ix key < ix.num_buckets
  unfolding bucket
  bucket-lt key = let pos = rep.header.num_buckets_pos in grind arith

  pub head_at :
      (b : ℕ) → b < ix.num_buckets → read_head file (header_size ix + 8 * b) ≡ ok (get_or heads b 0)
  head_at b h =
      let inside : b < length heads = omega (arith, rep.heads_length) in
      let head_lt : get_or heads b 0 < 2 ^ 63 =
        All-get_or (λ h. h < 2 ^ 63) heads b 0 rep.heads_lt inside in
      rw rep.bytes (
        read_head-table ix heads (entries_bytes es) b inside (omega (arith, end_of_file, rep.small))
          (omega arith))

  walk_at :
      (key : Bytes) (b : ℕ)
      → b < ix.num_buckets
      → find_loop (length file) file key 0 (get_or heads b 0) ≡ ok (locate key 0 (chains b))
  walk_at key b h = rw (← rep.bytes) at (
      find_loop-Chain (table_of ix heads) (entries_base ix) table_end es rep.entries
        (omega (arith, end_of_file, rep.small)) (length file) key 0 (rep.chain b h) (head-le b h))

  pub find_entry_offset-location : (key : Bytes) → find_entry_offset ix file key ≡ ok (location key)
  unfolding find_entry_offset bucket
  find_entry_offset-location key =
      let b = bucket ix key in
      let lt = bucket-lt key in
      rw (bucket_offset_of-lem b rep.header lt, head_at b lt, walk_at key b lt)

  -- The offset that `find` reads from an entry that is there.
  pub read_found-location :
      (key : Bytes) → read_found file (location key) ≡ ok (lookup key (chains (bucket ix key)))
  unfolding read_found
  read_found-location key =
      let b = bucket ix key in
      elim (locate-lookup key 0 (rep.chain b (bucket-lt key))) [
        | inl (none_there, absent) ↦ rw (eq→== _ 0 none_there, absent)
        | inr (e, at, same, pos, there) ↦
            let o = (locate key 0 (chains b)).0 in
            let o_lt : o < 2 ^ 63 =
              omega (arith, entry_at-lt (entries_base ix) o es at, end_of_file, rep.small) in
            let fits = entry_at-EntryFits (entries_base ix) o es rep.entries at in
            let (s, value) =
              read_uint64-db_offset (table_of ix heads) (entries_base ix) table_end o es at
                fits.db_offset in
            rw (ne→== o 0 pos, lt→ltb o (2 ^ 63) o_lt, rep.bytes, value, there)
      ]

-- Where a file holds a map, `find` returns what the map has for the key; it does not throw, and
-- the walk along the chain ends.
pub find-Holds :
    {ix : Index} {file : Bytes} {m : Bytes → Option ℕ} (key : Bytes)
    → Holds ix file m
    → find ix (some file) key ≡ ok (m key)
unfolding find
find-Holds key h =
    rw
      (find_entry_offset-location h.represents key, read_found-location h.represents key, h.map key)

-- The entry offset is zero for the keys that the map does not have.
pub location-cases :
    {ix : Index} {file : Bytes} {m : Bytes → Option ℕ}
    → (h : Holds ix file m) → (key : Bytes)
    → (((location h.represents key).entry_offset ≡ 0) × (m key ≡ none))
      ⊎ (((location h.represents key).entry_offset ≢ 0) × ((offset : ℕ) × (m key ≡ some offset)))
location-cases {ix} h key =
    elim (locate-lookup key 0 (h.represents.chain (bucket ix key) (bucket-lt h.represents key))) [
      | inl (none_there, absent) ↦ inl (none_there, h.map key ∙ absent)
      | inr (e, at, same, pos, there) ↦ inr (pos, (e.db_offset, h.map key ∙ there))
    ]
