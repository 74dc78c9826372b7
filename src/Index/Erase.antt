-- ===== src/Index/Erase.antt =====
-- `erase` on a file that holds a map.
pub mod Total
use zidanedb.Base.{
  ℕ, zero, suc, ◌+◌, ◌*◌, ◌%◌, ◌^◌, ◌≤◌, ◌<◌, ◌≡◌, ◌≢◌, refl, sym, ap, ◌∙◌, List, [], ◌∷◌, ◌++◌,
  Option, none, some, Bool, true, false, if◌then◌else◌, arith, length, All, get_or, set as set_elem,
  inl, inr, ne→==, eq→==, ==→eq, Bool-cases, ◌==◌, length-append, length-set, get_or-set, bytes_eq,
  bytes_eq_iff, le→ltb, lt→ltb, append_assoc, append-nil, ◌⊎◌,
}
use zidanedb.Base.Results.{Result, ok}
use zidanedb.Constants.{max_key_size}
use zidanedb.Stream.{Bytes, write_at}
use zidanedb.Utils.{write_uint64}
use zidanedb.Index.Read.{Index, IndexEntry, header_size}
use zidanedb.Index.Update.{erase, unlink_entry, link_offset}
use zidanedb.Index.Layout.{
  entry_at, update_at, entries_bytes, entries_size, entry_size, length-entries_bytes, KeepsKey,
  entries_size-update, entry_at-lt, entry_bytes, entries_bytes-append, entries_size-append,
  entry_at-last,
}
use zidanedb.Index.Entries.{EntryFits, write_db_offset, write_next, read_uint64-next}
use zidanedb.Index.Chains.{
  Node, node, Chain, end, link, Chain-update, Chain-append, lookup, locate, remove, locate-lookup,
  Apart, Chain-below,
}
use zidanedb.Index.Chains.Changes.{
  with_db_offset, with_next, unlinked, Chain-unlink, entry_at-update_self, entry_at-update_ne,
}
use zidanedb.Index.Chains.Keys.{HashTo, Distinct, lookup-remove, Distinct-remove, HashTo-remove}
use zidanedb.Index.Represents.{Represents, Holds, bucket, table_of, entries_base}
use zidanedb.Index.Table.{write_head-table}
use zidanedb.Index.Find.{
  end_of_file, table_end, bucket-lt, location, find_entry_offset-location, entry_at-EntryFits,
}
use zidanedb.Index.Set.{All-set}
use zidanedb.Index.Bucket.{Written, written, Apart-hash, All-EntryFits-update, NewBucket}

-- The predecessor that the walk ends with: an entry of the same bucket, above the entry found.
record Predecessor (hash : Bytes → ℕ) (b base : ℕ) (es : List IndexEntry) (o p : ℕ) : Type 0 where
  entry : IndexEntry
  at : entry_at base p es ≡ some entry
  pos : p ≢ 0
  above : o < p
  hashed : hash entry.key ≡ b

locate-Predecessor :
    (hash : Bytes → ℕ) (b : ℕ) {base : ℕ} {es : List IndexEntry} {next : ℕ} {ns : List Node}
    (key : Bytes) (prev : ℕ) (e : IndexEntry)
    → Chain base es next ns
    → HashTo hash b ns
    → entry_at base prev es ≡ some e
    → prev ≢ 0
    → hash e.key ≡ b
    → next < prev
    → Predecessor hash b base es (locate key prev ns).0 (locate key prev ns).1
unfolding locate
locate-Predecessor hash b key prev e (end z) to at pos hb lt = record {
  entry = e;
  at = at;
  pos = pos;
  above = omega arith;
  hashed = hb;
}
locate-Predecessor hash b key prev e (link {off} {e = x} pos' at' n lt' c) (first, rest) at pos hb
      lt =
    elim (Bool-cases (bytes_eq key x.key)) [
      | inl hit ↦ rw hit (record { entry = e; at = at; pos = pos; above = lt; hashed = hb })
      | inr miss ↦ rw miss (locate-Predecessor hash b key off x c rest at' pos' first lt')
    ]

-- A chain is empty, or begins with an entry.
Chain-cases :
    {base : ℕ} {es : List IndexEntry} {off : ℕ} {ns : List Node}
    → Chain base es off ns
    → (ns ≡ [])
      ⊎ ((e : IndexEntry) × (next : ℕ) × (rest : List Node) × (ns ≡ node off e ∷ rest)
          × (off ≢ 0)
          × (entry_at base off es ≡ some e)
          × (e.next_entry_offset ≡ next)
          × (next < off)
          × Chain base es next rest)
Chain-cases (end z) = inl refl
Chain-cases (link {next} {e} {ns} pos at n lt c) = inr (e, next, ns, refl, pos, at, n, lt, c)

EntryFits-db_offset :
    (d : ℕ) → d < 2 ^ 64 → (e : IndexEntry) → EntryFits e → EntryFits (with_db_offset d e)
EntryFits-db_offset d lt e h = record { db_offset = lt; next = h.next; key = h.key }

EntryFits-next : (n : ℕ) → n < 2 ^ 64 → (e : IndexEntry) → EntryFits e → EntryFits (with_next n e)
EntryFits-next n lt e h = record { db_offset = h.db_offset; next = lt; key = h.key }

module _ {ix : Index} {file : Bytes} {heads : List ℕ} {es : List IndexEntry}
    {chains : ℕ → List Node} (rep : Represents ix file heads es chains) (key : Bytes)
    (e : IndexEntry) (at : entry_at (entries_base ix) (location rep key).entry_offset es ≡ some e)
    (pos : (location rep key).entry_offset ≢ 0) where
  cleared : List IndexEntry
  cleared = update_at (entries_base ix) (location rep key).entry_offset (with_db_offset 0) es

  entry-inside : (location rep key).entry_offset + 20 < 2 ^ 63
  entry-inside = omega (
    arith,
    entry_at-lt (entries_base ix) (location rep key).entry_offset es at,
    end_of_file rep,
    rep.small,
  )

  fits : EntryFits e
  fits = entry_at-EntryFits (entries_base ix) (location rep key).entry_offset es rep.entries at

  cleared-at :
      entry_at (entries_base ix) (location rep key).entry_offset cleared ≡ some (with_db_offset 0 e)
  unfolding cleared
  cleared-at =
      entry_at-update_self (entries_base ix) es (location rep key).entry_offset (with_db_offset 0)
        (λ e. refl) at

  -- `erase` of a key that is there, with the file behind its last write.
  erase-run :
      (at_link : ℕ) (result : Bytes)
      → link_offset (location rep key) ≡ at_link
      → at_link < 2 ^ 63
      → write_at at_link
          (write_uint64 e.next_entry_offset)
          (table_of ix heads ++ entries_bytes cleared)
        ≡ result
      → erase ix key (some file) ≡ (ok true, some result)
  unfolding erase cleared
  erase-run at_link result to inside done =
      let o = (location rep key).entry_offset in
      let no_wrap : (o + 8) % 2 ^ 64 ≡ o + 8 = omega (arith, entry-inside) in
      let (s, next) =
        read_uint64-next (table_of ix heads) (entries_base ix) (table_end rep) o cleared cleared-at
          fits.next in
      rw (
        find_entry_offset-location rep key,
        to,
        ne→== o 0 pos,
        lt→ltb o (2 ^ 63) (omega (arith, entry-inside)),
        rep.bytes,
        write_db_offset (table_of ix heads) (entries_base ix) (table_end rep) o 0 es at,
        no_wrap,
        lt→ltb (o + 8) (2 ^ 63) (omega (arith, entry-inside)),
        next,
        lt→ltb at_link (2 ^ 63) inside,
        done,
      )

  -- The bucket without the key, whatever the way in which the file changed.
  NewBucket-remove :
      (heads' : List ℕ) (es' : List IndexEntry)
      → length heads' ≡ length heads
      → All (λ h. h < 2 ^ 63) heads'
      → ((b' : ℕ) → b' ≢ bucket ix key → get_or heads' b' 0 ≡ get_or heads b' 0)
      → All EntryFits es'
      → entries_size es' ≡ entries_size es
      → Chain
          (entries_base ix)
          es'
          (get_or heads' (bucket ix key) 0)
          (remove key (chains (bucket ix key)))
      → ((b' : ℕ)
          → b' < ix.num_buckets
          → b' ≢ bucket ix key
          → Chain (entries_base ix) es' (get_or heads b' 0) (chains b'))
      → NewBucket ix heads es chains
          (bucket ix key)
          heads'
          es'
          (remove key (chains (bucket ix key)))
  NewBucket-remove heads' es' len lt same fits' size chain others =
      let b = bucket ix key in
      let b_lt = bucket-lt rep key in
      record {
        heads_length = len;
        heads_lt = lt;
        heads_same = same;
        entries = fits';
        small = omega (arith, end_of_file rep, rep.small);
        chain = chain;
        others = others;
        hashed = HashTo-remove (bucket ix) b key (chains b) (rep.hashed b b_lt);
        distinct = Distinct-remove key (chains b) (rep.distinct b b_lt);
      }

  module _ (same : e.key ≡ key) where
    -- The chains of the other buckets do not run through the entry.
    others-cleared :
        (b' : ℕ)
        → b' < ix.num_buckets
        → b' ≢ bucket ix key
        → Chain (entries_base ix) cleared (get_or heads b' 0) (chains b')
    unfolding cleared
    others-cleared b' lt ne =
        Chain-update (location rep key).entry_offset (with_db_offset 0) (λ e. refl)
          (rep.chain b' lt)
          (Apart-hash (bucket ix) (location rep key).entry_offset (bucket ix key) (rep.chain b' lt)
            (rep.hashed b' lt) at (ap (λ (k : Bytes). bucket ix k) same) ne)

    cleared-EntryFits : All EntryFits cleared
    unfolding cleared
    cleared-EntryFits =
        All-EntryFits-update (entries_base ix) _ (with_db_offset 0) es
          (EntryFits-db_offset 0 (omega arith)) rep.entries

    cleared-size : entries_size cleared ≡ entries_size es
    unfolding cleared
    cleared-size = entries_size-update (entries_base ix) _ (with_db_offset 0) es (λ e. refl)

    bucket-inside : bucket ix key < length heads
    bucket-inside = omega (arith, bucket-lt rep key, rep.heads_length)

    -- The key is the first of its chain.
    module _ (next : ℕ) (rest : List Node)
        (first : (location rep key).entry_offset ≡ get_or heads (bucket ix key) 0)
        (alone : (locate key 0 (chains (bucket ix key))).1 ≡ 0) (links : e.next_entry_offset ≡ next)
        (lt : next < get_or heads (bucket ix key) 0) (tail : Chain (entries_base ix) es next rest)
        (removed : remove key (chains (bucket ix key)) ≡ rest) where
      headless : List ℕ
      headless = set_elem heads (bucket ix key) next

      NewBucket-head :
          NewBucket ix heads es chains
            (bucket ix key)
            headless
            cleared
            (remove key (chains (bucket ix key)))
      unfolding headless cleared
      NewBucket-head =
          let b = bucket ix key in
          let o = (location rep key).entry_offset in
          let next_lt : next < 2 ^ 63 = omega (arith, entry-inside) in
          NewBucket-remove headless cleared (length-set heads b next)
            (All-set (λ h. h < 2 ^ 63) heads b next rep.heads_lt next_lt)
            (λ b' ne.
              get_or-set heads b b' next 0 bucket-inside ∙ rw (ne→== b b' (λ e. ne (sym e))))
            cleared-EntryFits cleared-size
            (rw (get_or-set heads b b next 0 bucket-inside, eq→== b b refl, removed)
              (Chain-update o (with_db_offset 0) (λ e. refl) tail
                (Chain-below o tail (omega arith))))
            others-cleared

      erase-head :
          erase ix key (some file) ≡ (ok true, some (table_of ix headless ++ entries_bytes cleared))
      unfolding headless link_offset
      erase-head =
          erase-run (header_size ix + 8 * bucket ix key) _
            (rw (ne→== (location rep key).entry_offset 0 pos, alone))
            (omega (arith, bucket-lt rep key, end_of_file rep, rep.small))
            (rw links (
              write_head-table ix heads (entries_bytes cleared) (bucket ix key) next bucket-inside))
