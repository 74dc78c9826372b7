-- ===== src/Index/Bucket.antt =====
-- Changing the chain of one bucket keeps the invariant of the file.
use zidanedb.Base.{
  ℕ, ◌+◌, ◌*◌, ◌^◌, ◌≤◌, ◌<◌, ◌≡◌, ◌≢◌, refl, sym, ap, ◌∙◌, List, [], ◌∷◌, ◌++◌, Option, some,
  false, if◌then◌else◌, arith, length, All, get_or, inl, inr, ==→eq, Bool-cases, ◌==◌,
  length-append, bytes_eq, bytes_eq_iff,
}
use zidanedb.Stream.{Bytes}
use zidanedb.Index.Read.{Index, IndexEntry, header_size}
use zidanedb.Index.Layout.{
  entry_at, update_at, entries_bytes, entries_size, entry_size, length-entries_bytes,
}
use zidanedb.Index.Entries.{EntryFits}
use zidanedb.Index.Chains.{Node, Chain, end, link, Apart, lookup}
use zidanedb.Index.Chains.Keys.{HashTo, Distinct}
use zidanedb.Index.Represents.{Represents, Holds, bucket, table_of, entries_base}
use zidanedb.Index.Table.{length-table_of}
use zidanedb.Index.Find.{end_of_file}

-- Chains of two buckets share no entry, since its key has one hash.
pub Apart-hash :
    (hash : Bytes → ℕ) (o b : ℕ) {base b' : ℕ} {es : List IndexEntry} {e : IndexEntry} {off : ℕ}
    {ns : List Node}
    → Chain base es off ns
    → HashTo hash b' ns
    → entry_at base o es ≡ some e
    → hash e.key ≡ b
    → b' ≢ b
    → Apart o ns
Apart-hash hash o b (end z) h at to ne = tt
Apart-hash hash o b {base} {es = es} (link {off} {e = x} pos found n lt c) (first, rest) at to ne =
    (
      λ (same : off ≡ o).
          let there : entry_at base o es ≡ some x = rw same at found in
          ne (sym first ∙ ap (λ (k : Bytes). hash k) (key_eq (sym there ∙ at)) ∙ to),
      Apart-hash hash o b c rest at to ne,
    )
  where
    key_eq : {x e : IndexEntry} → some x ≡ some e → x.key ≡ e.key
    key_eq h = cc

pub All-EntryFits-update :
    (base o : ℕ) (f : IndexEntry → IndexEntry) (es : List IndexEntry)
    → ((e : IndexEntry) → EntryFits e → EntryFits (f e))
    → All EntryFits es
    → All EntryFits (update_at base o f es)
unfolding update_at
All-EntryFits-update base o f [] keeps h = tt
All-EntryFits-update base o f (e ∷ es) keeps (first, rest) = elim (Bool-cases (base == o)) [
  | inl here ↦ rw here (keeps e first, rest)
  | inr later ↦ rw later (first, All-EntryFits-update (base + entry_size e) o f es keeps rest)
]

pub length-file :
    (ix : Index) (heads : List ℕ) (es : List IndexEntry)
    → length (table_of ix heads ++ entries_bytes es)
      ≡ header_size ix + 8 * length heads + entries_size es
length-file ix heads es = omega (
  arith,
  length-append (table_of ix heads) (entries_bytes es),
  length-table_of ix heads,
  length-entries_bytes es,
)

-- The chains with the bucket's replaced.
abbrev pub with_chain : ℕ → List Node → (ℕ → List Node) → ℕ → List Node
with_chain b ns chains b' = if b' == b then ns else chains b'

-- The new contents of a bucket, with the heads and entries of the new file.
pub record NewBucket (ix : Index) (heads : List ℕ) (es : List IndexEntry) (chains : ℕ → List Node)
    (b : ℕ) (heads' : List ℕ) (es' : List IndexEntry) (ns : List Node) : Type 0 where
  pub heads_length : length heads' ≡ length heads
  pub heads_lt : All (λ h. h < 2 ^ 63) heads'
  pub heads_same : (b' : ℕ) → b' ≢ b → get_or heads' b' 0 ≡ get_or heads b' 0
  pub entries : All EntryFits es'
  pub small : entries_base ix + entries_size es' < 2 ^ 63
  pub chain : Chain (entries_base ix) es' (get_or heads' b 0) ns
  pub others :
      (b' : ℕ)
      → b' < ix.num_buckets
      → b' ≢ b
      → Chain (entries_base ix) es' (get_or heads b' 0) (chains b')
  pub hashed : HashTo (bucket ix) b ns
  pub distinct : Distinct ns

module _ {ix : Index} {file : Bytes} {heads heads' : List ℕ} {es es' : List IndexEntry}
    {chains : ℕ → List Node} {b : ℕ} {ns : List Node} where
  pub Represents-NewBucket :
      Represents ix file heads es chains
      → NewBucket ix heads es chains b heads' es' ns
      → Represents ix (table_of ix heads' ++ entries_bytes es') heads' es' (with_chain b ns chains)
  Represents-NewBucket rep new = record {
    header = rep.header;
    bytes = refl;
    small = omega (arith, length-file ix heads' es', new.heads_length, rep.heads_length, new.small);
    heads_length = new.heads_length ∙ rep.heads_length;
    heads_lt = new.heads_lt;
    entries = new.entries;
    chain = λ b' lt. elim (Bool-cases (b' == b)) [
      | inl same ↦ rw (same, ==→eq b' b same) new.chain
      | inr other ↦
          let ne : b' ≢ b = ground arith in rw (other, new.heads_same b' ne) (new.others b' lt ne)
    ];
    hashed = λ b' lt. elim (Bool-cases (b' == b)) [
      | inl same ↦ rw (same, ==→eq b' b same) new.hashed
      | inr other ↦ rw other (rep.hashed b' lt)
    ];
    distinct = λ b' lt. elim (Bool-cases (b' == b)) [
      | inl same ↦ rw same new.distinct
      | inr other ↦ rw other (rep.distinct b' lt)
    ];
  }

module _ (ix : Index) (m : Bytes → Option ℕ) (chains : ℕ → List Node) (key : Bytes) (r : Option ℕ)
    (map : (k : Bytes) → m k ≡ lookup k (chains (bucket ix k))) (ns : List Node)
    (new : (k : Bytes)
      → lookup k ns ≡ (if bytes_eq key k then r else lookup k (chains (bucket ix key)))) where
  -- A change of the bucket of `key` that changes the map at `key` alone.
  pub map-NewBucket :
      (k : Bytes)
      → (if bytes_eq key k then r else m k)
        ≡ lookup k (with_chain (bucket ix key) ns chains (bucket ix k))
  map-NewBucket k = elim (Bool-cases (bucket ix k == bucket ix key)) [
    | inl same ↦ rw (same, map k, ==→eq _ _ same) (sym (new k))
    | inr other ↦
        let apart : bytes_eq key k ≡ false = ground (arith, bytes_eq_iff key k) in
        rw (other, apart) (map k)
  ]

-- The file that a write left, which holds a map, and a bound on its size.
pub record Written (ix : Index) (m : Bytes → Option ℕ) (limit : ℕ) : Type 0 where
  pub file : Bytes
  pub holds : Holds ix file m
  pub grown : length file ≤ limit

module _ {ix : Index} {file : Bytes} {m : Bytes → Option ℕ} (h : Holds ix file m) (key : Bytes)
    (r : Option ℕ) {heads' : List ℕ} {es' : List IndexEntry} {ns : List Node} (extra : ℕ)
    (new : NewBucket ix h.heads h.es h.chains (bucket ix key) heads' es' ns)
    (size : entries_size es' ≤ entries_size h.es + extra)
    (lookups : (k : Bytes)
      → lookup k ns ≡ (if bytes_eq key k then r else lookup k (h.chains (bucket ix key)))) where
  pub written-grown : length (table_of ix heads' ++ entries_bytes es') ≤ length file + extra
  written-grown = omega (
    arith,
    length-file ix heads' es',
    end_of_file h.represents,
    new.heads_length,
    h.represents.heads_length,
  )

  -- A new bucket that changes the map at one key, as a file.
  abbrev pub written : Written ix (λ k. if bytes_eq key k then r else m k) (length file + extra)
  written = record {
    file = table_of ix heads' ++ entries_bytes es';
    holds = record {
      heads = heads';
      es = es';
      chains = with_chain (bucket ix key) ns h.chains;
      represents = Represents-NewBucket h.represents new;
      map = map-NewBucket ix m h.chains key r h.map ns lookups;
    };
    grown = written-grown;
  }
