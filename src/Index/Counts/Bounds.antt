-- ===== src/Index/Counts/Bounds.antt =====
-- Bounds for what `stats` counts on a file that holds a map.
use zidanedb.Base.{
  ℕ, zero, suc, ◌+◌, ◌*◌, ◌≤◌, ◌<◌, ◌≡◌, ◌≢◌, refl, sym, ◌∙◌, ap, List, [], ◌∷◌, Option, none, some,
  arith, length, ◌==◌, ltb, ne→==, Bool-cases, inl, inr, ==→eq,
}
use zidanedb.Base.Results.{ok}
use zidanedb.Stream.{Bytes}
use zidanedb.Index.Read.{Index, IndexStats, stats}
use zidanedb.Index.Chains.{Node, lookup}
use zidanedb.Index.Represents.{Holds, bucket}
use zidanedb.Index.Find.{bucket-lt}
use zidanedb.Index.Counts.Stats.{
  count_zero, count_pos, total, longest_from, chain_lengths, length-chain_lengths, stats_of,
  stats-Holds,
}

count_zero-count_pos : (ns : List ℕ) → count_zero ns + count_pos ns ≡ length ns
count_zero-count_pos [] = omega arith
count_zero-count_pos (n ∷ ns) = ground (arith, count_zero-count_pos ns)

count_pos-le : (ns : List ℕ) → count_pos ns ≤ total ns
count_pos-le [] = omega arith
count_pos-le (n ∷ ns) = ground (arith, count_pos-le ns)

le-longest_from : (m : ℕ) (ns : List ℕ) → m ≤ longest_from m ns
le-longest_from m [] = omega arith
le-longest_from m (n ∷ ns) = ground (arith, le-longest_from m ns, le-longest_from n ns)

total-le : (m : ℕ) (ns : List ℕ) → total ns ≤ longest_from m ns * count_pos ns
total-le m [] = omega arith
total-le m (n ∷ ns) = elim (Bool-cases (n == 0)) [
  | inl e ↦ rw e (let z = ==→eq n 0 e in ground (arith, total-le m ns))
  | inr e ↦ rw e (elim (Bool-cases (ltb m n)) [
    | inl up ↦
        rw up (more (longest_from n ns) (count_pos ns) (le-longest_from n ns) (total-le n ns))
    | inr no_more ↦ rw no_more (
        more (longest_from m ns) (count_pos ns) (ground (arith, le-longest_from m ns))
          (total-le m ns))
  ])
]
  where
    more : (l k : ℕ) → n ≤ l → total ns ≤ l * k → n + total ns ≤ l * (1 + k)
    more l k a b = grind arith

average_bounds :
    (ns : List ℕ)
    → 0 < count_pos ns
    → (sum : ℕ) × (chains : ℕ) × ((stats_of ns).avg_chain_length ≡ some (sum, chains))
      × (chains ≡ count_pos ns)
      × (0 < chains)
      × (chains ≤ sum)
      × (sum ≤ longest_from 0 ns * chains)
average_bounds ns pos = (
  total ns,
  count_pos ns,
  rw (ne→== (count_pos ns) 0 (omega arith)) refl,
  refl,
  pos,
  count_pos-le ns,
  total-le 0 ns,
)

-- A bucket with a chain counts.
count_pos-chain :
    (chains : ℕ → List Node) (b rounds i : ℕ)
    → i ≤ b
    → b < i + rounds
    → chains b ≢ []
    → 0 < count_pos (chain_lengths chains rounds i)
count_pos-chain chains b zero i le lt there = absurd (omega arith)
count_pos-chain chains b (suc rounds) i le lt there = elim (Bool-cases (i == b)) [
  | inl same ↦
      rw
        (ne→== (length (chains i)) 0
          (λ e. there (ap chains (sym (==→eq i b same)) ∙ length_zero (chains i) e)))
        (omega arith)
  | inr other ↦
      let rest = count_pos-chain chains b rounds (i + 1) (ground arith) (omega arith) there in
      omega arith
]
  where
    length_zero : (ns : List Node) → length ns ≡ 0 → ns ≡ []
    length_zero [] e = refl
    length_zero (n ∷ ns) e = absurd (omega arith)

-- Where a file holds a map that has a key, `stats` returns, with an average of a sum of lengths over
-- a number of chains; the empty and the occupied buckets together are the buckets of the index, the
-- number of chains is that of the occupied buckets and positive, and the average lies between one
-- and the length of the longest chain.
pub stats-bounds :
    {ix : Index} {file : Bytes} {m : Bytes → Option ℕ} (key : Bytes)
    → Holds ix file m
    → m key ≢ none
    → (r : IndexStats) × (sum : ℕ) × (chains : ℕ) × (stats ix (some file) ≡ ok r)
      × (r.avg_chain_length ≡ some (sum, chains))
      × (r.empty_buckets + r.non_empty_buckets ≡ ix.num_buckets)
      × (chains ≡ r.non_empty_buckets)
      × (0 < chains)
      × (chains ≤ sum)
      × (sum ≤ r.max_chain_length * chains)
unfolding lookup
stats-bounds {ix} key h there =
    let ns = chain_lengths h.chains ix.num_buckets 0 in
    let b = bucket ix key in
    let pos =
      count_pos-chain h.chains b ix.num_buckets 0 (omega arith)
        (omega (arith, bucket-lt h.represents key)) (λ e. there (h.map key ∙ ap (lookup key) e)) in
    let (sum, chains, avg, same, some_chain, least, most) = average_bounds ns pos in
    (
      stats_of ns,
      sum,
      chains,
      stats-Holds h,
      avg,
      omega (arith, count_zero-count_pos ns, length-chain_lengths h.chains ix.num_buckets 0),
      same,
      some_chain,
      least,
      most,
    )
