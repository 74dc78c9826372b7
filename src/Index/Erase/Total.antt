-- ===== src/Index/Erase/Total.antt =====
-- `erase` of a key behind the first of its chain, and of any key.
use zidanedb.Base.{
  ℕ, ◌+◌, ◌%◌, ◌^◌, ◌<◌, ◌≡◌, ◌≢◌, refl, sym, ap, ◌∙◌, List, [], ◌∷◌, ◌++◌, Option, none, some,
  Bool, true, false, if◌then◌else◌, arith, length, get_or, inl, inr, ne→==, eq→==, Bool-cases,
  bytes_eq, bytes_eq_self, bytes_eq-cases,
}
use zidanedb.Base.Results.{ok}
use zidanedb.Stream.{Bytes}
use zidanedb.Index.Read.{Index, IndexEntry}
use zidanedb.Index.Update.{erase, link_offset}
use zidanedb.Index.Layout.{entry_at, entries_bytes, entries_size, entries_size-update, entry_at-lt}
use zidanedb.Index.Entries.{write_next}
use zidanedb.Index.Chains.{Node, node, Chain, Chain-update, lookup, locate, remove, locate-lookup}
use zidanedb.Index.Chains.Changes.{
  with_db_offset, with_next, unlinked, Chain-unlink, entry_at-update_ne,
}
use zidanedb.Index.Chains.Keys.{HashTo, lookup-remove}
use zidanedb.Index.Represents.{Represents, Holds, bucket, table_of, entries_base}
use zidanedb.Index.Find.{end_of_file, table_end, bucket-lt, location, find_entry_offset-location}
use zidanedb.Index.Bucket.{Written, written, Apart-hash, All-EntryFits-update, NewBucket}
use zidanedb.Index.Chains.Changes.{with_next}
use zidanedb.Index.Erase.{
  Predecessor, locate-Predecessor, Chain-cases, EntryFits-next, cleared, fits, erase-run,
  NewBucket-remove, others-cleared, cleared-EntryFits, cleared-size, NewBucket-head, erase-head,
}

module _ {ix : Index} {file : Bytes} {heads : List ℕ} {es : List IndexEntry}
    {chains : ℕ → List Node} (rep : Represents ix file heads es chains) (key : Bytes)
    (e : IndexEntry) (at : entry_at (entries_base ix) (location rep key).entry_offset es ≡ some e)
    (pos : (location rep key).entry_offset ≢ 0) (same : e.key ≡ key)
    (before : Predecessor
      (bucket ix)
      (bucket ix key)
      (entries_base ix)
      es
      (locate key 0 (chains (bucket ix key))).0
      (locate key 0 (chains (bucket ix key))).1)
    (chain : Chain
      (entries_base ix)
      (unlinked
        (entries_base ix)
        es
        (locate key 0 (chains (bucket ix key))).0
        (locate key 0 (chains (bucket ix key))).1
        e.next_entry_offset)
      (get_or heads (bucket ix key) 0)
      (remove key (chains (bucket ix key)))) where
  bypassed : List IndexEntry
  bypassed =
      unlinked (entries_base ix) es (locate key 0 (chains (bucket ix key))).0
        (locate key 0 (chains (bucket ix key))).1 e.next_entry_offset

  bypassed-size : entries_size bypassed ≡ entries_size es
  unfolding bypassed cleared
  bypassed-size =
      entries_size-update (entries_base ix) _ (with_next e.next_entry_offset) _ (λ e. refl)
      ∙ cleared-size rep key e at pos same

  NewBucket-inner :
      NewBucket ix heads es chains
        (bucket ix key)
        heads
        bypassed
        (remove key (chains (bucket ix key)))
  unfolding bypassed cleared
  NewBucket-inner =
      let p = (locate key 0 (chains (bucket ix key))).1 in
      let next = e.next_entry_offset in
      NewBucket-remove rep key e at pos heads bypassed refl rep.heads_lt (λ b' ne. refl)
        (All-EntryFits-update (entries_base ix) p (with_next next) _
          (EntryFits-next next (fits rep key e at pos).next)
          (cleared-EntryFits rep key e at pos same))
        bypassed-size chain
        (λ b' lt ne.
          Chain-update p (with_next next) (λ e. refl)
            (others-cleared rep key e at pos same b' lt ne)
            (Apart-hash (bucket ix) p (bucket ix key) (rep.chain b' lt) (rep.hashed b' lt) before.at
              before.hashed ne))

  erase-inner :
      erase ix key (some file) ≡ (ok true, some (table_of ix heads ++ entries_bytes bypassed))
  unfolding bypassed cleared link_offset
  erase-inner =
      let o = (location rep key).entry_offset in
      let p = (locate key 0 (chains (bucket ix key))).1 in
      let inside : p + 20 < 2 ^ 63 =
        omega (arith, entry_at-lt (entries_base ix) p es before.at, end_of_file rep, rep.small) in
      let no_wrap : (p + 8) % 2 ^ 64 ≡ p + 8 = omega arith in
      let apart : p ≢ o = omega (arith, before.above) in
      erase-run rep key e at pos (p + 8) _ (rw (ne→== o 0 pos, ne→== p 0 before.pos, no_wrap))
        (omega arith)
        (write_next (table_of ix heads) (entries_base ix) (table_end rep) p e.next_entry_offset _ (
          entry_at-update_ne (entries_base ix) es p o (with_db_offset 0) (λ e. refl) apart
            before.at))

abbrev pub without : Bytes → (Bytes → Option ℕ) → Bytes → Option ℕ
without key m k = if bytes_eq key k then none else m k

abbrev pub is_some : Option ℕ → Bool
is_some none = false
is_some (some d) = true

abbrev next_of : Option IndexEntry → ℕ
next_of none = 0
next_of (some e) = e.next_entry_offset

-- The walk on a chain that begins with an entry.
module _ (key : Bytes) (prev off : ℕ) (e : IndexEntry) {ns rest : List Node}
    (begins : ns ≡ node off e ∷ rest) where
  locate-hit : bytes_eq key e.key ≡ true → locate key prev ns ≡ (off, prev)
  unfolding locate
  locate-hit hit = rw (begins, hit)

  locate-miss : bytes_eq key e.key ≡ false → locate key prev ns ≡ locate key off rest
  unfolding locate
  locate-miss miss = rw (begins, miss)

  remove-hit : bytes_eq key e.key ≡ true → remove key ns ≡ rest
  unfolding remove
  remove-hit hit = rw (begins, hit)

  remove-miss : bytes_eq key e.key ≡ false → remove key ns ≡ node off e ∷ remove key rest
  unfolding remove
  remove-miss miss = rw (begins, miss)

lookup-nil : (key : Bytes) {ns : List Node} {d : ℕ} → ns ≡ [] → lookup key ns ≡ some d → ⊥
unfolding lookup
lookup-nil key {d = d} nil h = let h' : lookup key [] ≡ some d = rw nil at h in cc

module _ {ix : Index} {file : Bytes} {m : Bytes → Option ℕ} (h : Holds ix file m)
    (key : Bytes) where
  module _ (e : IndexEntry)
      (at : entry_at (entries_base ix) (location h.represents key).entry_offset h.es ≡ some e)
      (same : e.key ≡ key) (pos : (location h.represents key).entry_offset ≢ 0)
      (there : lookup key (h.chains (bucket ix key)) ≡ some e.db_offset) where
    module _ (first : IndexEntry) (next : ℕ) (rest : List Node)
        (begins : h.chains (bucket ix key) ≡ node (get_or h.heads (bucket ix key) 0) first ∷ rest)
        (first_pos : get_or h.heads (bucket ix key) 0 ≢ 0)
        (first_at : entry_at (entries_base ix) (get_or h.heads (bucket ix key) 0) h.es ≡ some first)
        (links : first.next_entry_offset ≡ next) (lt : next < get_or h.heads (bucket ix key) 0)
        (tail : Chain (entries_base ix) h.es next rest) where
      erase_first :
          bytes_eq key first.key ≡ true
          → (w : Written ix (without key m) (length file + 0)) × (erase ix key (some file)
              ≡ (ok true, some w.file))
      erase_first hit =
          let rep = h.represents in
          let b = bucket ix key in
          let head = get_or h.heads b 0 in
          let found = locate-hit key 0 head first begins hit in
          let o_eq : (location rep key).entry_offset ≡ head = ap (λ (l : ℕ × ℕ). l.0) found in
          let first_next : first.next_entry_offset ≡ e.next_entry_offset =
            ap next_of (sym first_at ∙ rw o_eq at at) in
          let e_links : e.next_entry_offset ≡ next = sym first_next ∙ links in
          let alone = ap (λ (l : ℕ × ℕ). l.1) found in
          let removed = remove-hit key 0 head first begins hit in
          (
            written h key none 0
                (NewBucket-head rep key e at pos same next rest o_eq alone e_links lt tail removed)
                (omega (arith, cleared-size rep key e at pos same))
                (λ k. lookup-remove key k (h.chains b) (rep.distinct b (bucket-lt rep key))),
            erase-head rep key e at pos same next rest o_eq alone e_links lt tail removed,
          )

      erase_later :
          bytes_eq key first.key ≡ false
          → (w : Written ix (without key m) (length file + 0)) × (erase ix key (some file)
              ≡ (ok true, some w.file))
      erase_later miss =
          let rep = h.represents in
          let b = bucket ix key in
          let ns = h.chains b in
          let head = get_or h.heads b 0 in
          let found = locate-miss key 0 head first begins miss in
          let hashes : HashTo (bucket ix) b (node head first ∷ rest) =
            rw begins at (rep.hashed b (bucket-lt rep key)) in
          let before : Predecessor (bucket ix) b (entries_base ix) h.es (locate key 0 ns).0
              (locate key 0 ns).1 =
            rw found (
              locate-Predecessor (bucket ix) b key head first tail hashes.1 first_at first_pos
                hashes.0 lt) in
          let chain : Chain (entries_base ix)
              (unlinked (entries_base ix) h.es (locate key 0 ns).0 (locate key 0 ns).1
                e.next_entry_offset)
              head (remove key ns) =
            rw (found, remove-miss key 0 head first begins miss)
              (Chain-unlink key head first e tail first_pos first_at links lt (rw found at pos)
                (rw found at at)) in
          (
            written h key none 0 (NewBucket-inner rep key e at pos same before chain)
                (omega (arith, bypassed-size rep key e at pos same before chain))
                (λ k. lookup-remove key k ns (rep.distinct b (bucket-lt rep key))),
            erase-inner rep key e at pos same before chain,
          )

    erase_there :
        (w : Written ix (without key m) (length file + 0)) × (erase ix key (some file)
          ≡ (ok true, some w.file))
    erase_there =
        elim (Chain-cases (h.represents.chain (bucket ix key) (bucket-lt h.represents key))) [
          | inl empty ↦ absurd (lookup-nil key empty there)
          | inr (first, next, rest, begins, first_pos, first_at, links, lt, tail) ↦
              elim (Bool-cases (bytes_eq key first.key)) [
                | inl hit ↦ erase_first first next rest begins first_pos first_at links lt tail hit
                | inr miss ↦
                    erase_later first next rest begins first_pos first_at links lt tail miss
              ]
        ]

  erase_absent :
      (location h.represents key).entry_offset ≡ 0
      → erase ix key (some file) ≡ (ok false, some file)
  unfolding erase
  erase_absent none_there = rw (find_entry_offset-location h.represents key, eq→== _ 0 none_there)

  -- Where the key is not there the map without it is the map.
  Holds-absent : m key ≡ none → Holds ix file (without key m)
  Holds-absent absent = record {
    heads = h.heads;
    es = h.es;
    chains = h.chains;
    represents = h.represents;
    map = λ k. elim (bytes_eq-cases key k) [
      | inl e ↦ rw (← e, bytes_eq_self key) (sym absent ∙ h.map key)
      | inr (ne, _) ↦ rw ne (h.map k)
    ];
  }

-- Where a file holds a map, `erase` returns whether the key was there and leaves a file, no
-- longer than before, that holds the map without the key.
pub erase-Holds :
    {ix : Index} {file : Bytes} {m : Bytes → Option ℕ} (key : Bytes)
    → Holds ix file m
    → (w : Written ix (without key m) (length file + 0)) × (erase ix key (some file)
        ≡ (ok (is_some (m key)), some w.file))
erase-Holds {ix} {file} {m} key h =
    elim (locate-lookup key 0 (h.represents.chain (bucket ix key) (bucket-lt h.represents key))) [
      | inl (none_there, absent) ↦
          let gone : m key ≡ none = h.map key ∙ absent in
          (
            record { file = file; holds = Holds-absent h key gone; grown = omega arith },
            rw gone (erase_absent h key none_there),
          )
      | inr (e, at, same, pos, there) ↦
          let found : m key ≡ some e.db_offset = h.map key ∙ there in
          let (w, run) = erase_there h key e at same pos there in (w, rw found run)
    ]
