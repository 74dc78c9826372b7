-- ===== src/Index/Counts/Stats.antt =====
-- What `stats` counts on a file that holds a map, as sums over the lengths of its chains.
use zidanedb.Base.{
  ℕ, zero, suc, ◌+◌, ◌^◌, ◌≤◌, ◌<◌, ◌≡◌, refl, ap, List, [], ◌∷◌, ◌++◌, Option, none, some,
  if◌then◌else◌, arith, length, All, get_or, ◌==◌, ltb, ne→==, eq→==,
}
use zidanedb.Base.Results.{ok}
use zidanedb.Stream.{Bytes}
use zidanedb.Index.Read.{Index, IndexEntry, IndexStats, chain_loop, count_chain, stats_loop, stats}
use zidanedb.Index.Layout.{entries_bytes, entries_size, entry_at-lt}
use zidanedb.Index.Entries.{EntryFits, read_entry-entry_at}
use zidanedb.Index.Chains.{Node, Chain, end, link}
use zidanedb.Index.Represents.{Represents, Holds, table_of, entries_base}
use zidanedb.Index.Table.{bucket_offset_of-lem}
use zidanedb.Index.Find.{entry_at-EntryFits, end_of_file, table_end, head-le, head_at}

-- The numbers of a list of chain lengths.
abbrev pub count_zero : List ℕ → ℕ
count_zero [] = 0
count_zero (n ∷ ns) = (if n == 0 then 1 else 0) + count_zero ns

abbrev pub count_pos : List ℕ → ℕ
count_pos [] = 0
count_pos (n ∷ ns) = (if n == 0 then 0 else 1) + count_pos ns

abbrev pub total : List ℕ → ℕ
total [] = 0
total (n ∷ ns) = n + total ns

-- The lengths of the chains of the buckets from `i` on.
abbrev pub chain_lengths : (ℕ → List Node) → (rounds i : ℕ) → List ℕ
chain_lengths chains zero i = []
chain_lengths chains (suc rounds) i = length (chains i) ∷ chain_lengths chains rounds (i + 1)

zero_add : (n : ℕ) → 0 + n ≡ n
zero_add n = omega arith

-- The walk along a chain counts its nodes.
module _ (front : Bytes) (base : ℕ) (at_base : base ≡ length front) (es : List IndexEntry)
    (fits : All EntryFits es) (small : base + entries_size es < 2 ^ 63) where
  chain_loop-Chain :
      (fuel : ℕ) {off : ℕ} {ns : List Node} (n : ℕ)
      → Chain base es off ns
      → off ≤ fuel
      → chain_loop fuel (front ++ entries_bytes es) n off ≡ ok (n + length ns)
  unfolding chain_loop
  chain_loop-Chain zero n (end z) h = rw z (ap (λ (k : ℕ). ok k) (omega arith))
  chain_loop-Chain zero n (link pos e x lt c) h = absurd (omega arith)
  chain_loop-Chain (suc fuel) n (end z) h = rw z (ap (λ (k : ℕ). ok k) (omega arith))
  chain_loop-Chain (suc fuel) {off} n (link {e} {ns} pos h x lt c) le =
      rw
        (
          ne→== off 0 pos,
          read_entry-entry_at front base at_base off es h (entry_at-EntryFits base off es fits h)
              pos (omega (arith, entry_at-lt base off es h)),
          x,
          chain_loop-Chain fuel (n + 1) c (omega arith),
        )
        (ap (λ (k : ℕ). ok k) (omega arith))

-- A head is zero exactly where the chain is empty.
Chain-empty :
    {base : ℕ} {es : List IndexEntry} {off : ℕ} {ns : List Node}
    → Chain base es off ns
    → (off == 0) ≡ (length ns == 0)
Chain-empty (end z) = rw (eq→== _ 0 z) refl
Chain-empty (link {off} pos h x lt c) = rw (ne→== off 0 pos) (ground arith)

-- The length of the longest chain, where those before it are no longer than `m`.
abbrev pub longest_from : ℕ → List ℕ → ℕ
longest_from m [] = m
longest_from m (n ∷ ns) = longest_from (if ltb m n then n else m) ns

-- What the loop makes of its counts over these chains.
abbrev counted : IndexStats × ℕ → List ℕ → IndexStats × ℕ
counted (r, t) ns = (
  record r {
    empty_buckets = r.empty_buckets + count_zero ns;
    non_empty_buckets = r.non_empty_buckets + count_pos ns;
    max_chain_length = longest_from r.max_chain_length ns;
  },
  t + total ns,
)

counted_nil : (acc : IndexStats × ℕ) → counted acc [] ≡ acc
counted_nil (r, t) = ground arith

counted-count_chain :
    (acc : IndexStats × ℕ) (off n : ℕ) (ns : List ℕ)
    → (off == 0) ≡ (n == 0)
    → counted (count_chain off n acc) ns ≡ counted acc (n ∷ ns)
unfolding count_chain
counted-count_chain (r, t) off n ns same = ground (arith, same)

module _ {ix : Index} {file : Bytes} {heads : List ℕ} {es : List IndexEntry}
    {chains : ℕ → List Node} (rep : Represents ix file heads es chains) where
  length_at :
      (b : ℕ)
      → b < ix.num_buckets
      → chain_loop (length file) file 0 (get_or heads b 0) ≡ ok (length (chains b))
  length_at b h =
      rw (← rep.bytes, zero_add (length (chains b))) at
        (chain_loop-Chain (table_of ix heads) (entries_base ix) (table_end rep) es rep.entries
          (omega (arith, end_of_file rep, rep.small)) (length file) 0 (rep.chain b h)
          (head-le rep b h))

  stats_loop-chains :
      (rounds i : ℕ) (acc : IndexStats × ℕ)
      → i + rounds ≡ ix.num_buckets
      → stats_loop rounds ix file i acc ≡ ok (counted acc (chain_lengths chains rounds i))
  unfolding stats_loop
  stats_loop-chains zero i acc e = rw (counted_nil acc) refl
  stats_loop-chains (suc rounds) i acc e =
      let lt : i < ix.num_buckets = omega arith in
      let off = get_or heads i 0 in
      let step = count_chain off (length (chains i)) acc in
      let rest = chain_lengths chains rounds (i + 1) in
      rw
        (
          bucket_offset_of-lem i rep.header lt,
          head_at rep i lt,
          length_at i lt,
          stats_loop-chains rounds (i + 1) step (omega arith),
        )
        (ap (λ (r : IndexStats × ℕ). ok r)
          (counted-count_chain acc off (length (chains i)) rest (Chain-empty (rep.chain i lt))))

-- The statistics of chains of these lengths.
abbrev pub stats_of : List ℕ → IndexStats
stats_of ns = record {
  num_buckets = length ns;
  empty_buckets = count_zero ns;
  non_empty_buckets = count_pos ns;
  avg_chain_length = if count_pos ns == 0 then none else some (total ns, count_pos ns);
  max_chain_length = longest_from 0 ns;
}

pub length-chain_lengths :
    (chains : ℕ → List Node) (rounds i : ℕ) → length (chain_lengths chains rounds i) ≡ rounds
length-chain_lengths chains zero i = refl
length-chain_lengths chains (suc rounds) i = ap suc (length-chain_lengths chains rounds (i + 1))

-- Where a file holds a map, `stats` returns: the number of buckets, how many of their chains are
-- empty and how many are not, the number of entries with the number of occupied buckets as the
-- quotient of the average, and the length of the longest chain.
pub stats-Holds :
    {ix : Index} {file : Bytes} {m : Bytes → Option ℕ} (h : Holds ix file m)
    → stats ix (some file) ≡ ok (stats_of (chain_lengths h.chains ix.num_buckets 0))
unfolding stats
stats-Holds {ix} {file} h =
    let ns = chain_lengths h.chains ix.num_buckets 0 in
    rw
      (
        stats_loop-chains h.represents ix.num_buckets 0 _ (omega arith),
        length-chain_lengths h.chains ix.num_buckets 0,
        zero_add (count_zero ns),
        zero_add (count_pos ns),
        zero_add (total ns),
      )
      refl
