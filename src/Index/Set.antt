-- ===== src/Index/Set.antt =====
-- `set` on a file that holds a map.
use zidanedb.Base.{
  ℕ, zero, suc, ◌+◌, ◌*◌, ◌^◌, ◌≤◌, ◌<◌, ◌≡◌, ◌≢◌, refl, sym, ap, ◌∙◌, List, [], ◌∷◌, ◌++◌, Option,
  none, some, if◌then◌else◌, arith, length, All, get_or, set as set_elem, inl, inr, ne→==, eq→==,
  length-append, length-set, get_or-set, bytes_eq, bytes_eq_iff, le→ltb, lt→ltb, append_assoc,
  append-nil,
}
use zidanedb.Base.Results.{ok}
use zidanedb.Constants.{max_key_size}
use zidanedb.Stream.{Bytes, write_at}
use zidanedb.Stream.Positions.{write_at-end}
use zidanedb.Utils.{write_uint64}
use zidanedb.Utils.Integers.{length-write_uint64}
use zidanedb.Utils.Strings.{write_string-ok, string_bytes}
use zidanedb.Index.Read.{Index, IndexEntry, header_size}
use zidanedb.Index.Update.{set}
use zidanedb.Index.Layout.{
  entry_at, update_at, entries_bytes, entries_size, entries_size-update, entry_at-lt, entry_bytes,
  entries_bytes-append, entries_size-append, entry_at-last,
}
use zidanedb.Index.Entries.{EntryFits, write_db_offset}
use zidanedb.Index.Chains.{
  Node, node, Chain, end, link, Chain-update, Chain-append, lookup, replace, locate-lookup,
}
use zidanedb.Index.Chains.Changes.{with_db_offset, Chain-replace}
use zidanedb.Index.Chains.Keys.{lookup-replace, Distinct-replace, HashTo-replace}
use zidanedb.Index.Represents.{Represents, Holds, bucket, table_of, entries_base}
use zidanedb.Index.Table.{write_head-table}
use zidanedb.Index.Find.{
  end_of_file, table_end, bucket-lt, location, All-get_or, find_entry_offset-location,
}
use zidanedb.Index.Bucket.{Written, written, Apart-hash, All-EntryFits-update, NewBucket}

pub All-set : (P : ℕ → Type 0) (xs : List ℕ) (i v : ℕ) → All P xs → P v → All P (set_elem xs i v)
All-set P [] i v h p = tt
All-set P (x ∷ xs) zero v (h, hs) p = (p, hs)
All-set P (x ∷ xs) (suc i) v (h, hs) p = (h, All-set P xs i v hs p)

All-append :
    (es : List IndexEntry) (e : IndexEntry)
    → All EntryFits es
    → EntryFits e
    → All EntryFits (es ++ e ∷ [])
All-append [] e h fits = (fits, tt)
All-append (x ∷ es) e (h, hs) fits = (h, All-append es e hs fits)

abbrev pub insert : Bytes → ℕ → (Bytes → Option ℕ) → Bytes → Option ℕ
insert key d m k = if bytes_eq key k then some d else m k

bytes_eq_comm : (xs ys : Bytes) → bytes_eq xs ys ≡ bytes_eq ys xs
bytes_eq_comm xs ys = ground (arith, bytes_eq_iff xs ys, bytes_eq_iff ys xs)

regroup : (t e d n k : Bytes) → (((t ++ e) ++ d) ++ n) ++ k ≡ t ++ (e ++ ((d ++ (n ++ k)) ++ []))
regroup t e d n k = simp (append_assoc, append-nil)

module _ {ix : Index} {file : Bytes} {heads : List ℕ} {es : List IndexEntry}
    {chains : ℕ → List Node} (rep : Represents ix file heads es chains) (key : Bytes) (d : ℕ)
    (d_lt : d < 2 ^ 64) where
  -- The key is there: its entry gets the new offset.
  module _ (e : IndexEntry)
      (at : entry_at (entries_base ix) (location rep key).entry_offset es ≡ some e)
      (same : e.key ≡ key) (pos : (location rep key).entry_offset ≢ 0)
      (there : lookup key (chains (bucket ix key)) ≡ some e.db_offset) where
    replaced : List IndexEntry
    replaced = update_at (entries_base ix) (location rep key).entry_offset (with_db_offset d) es

    replaced-size : entries_size replaced ≡ entries_size es
    unfolding replaced
    replaced-size = entries_size-update _ _ (with_db_offset d) es (λ e. refl)

    NewBucket-replace :
        NewBucket ix heads es chains
          (bucket ix key)
          heads
          replaced
          (replace key d (chains (bucket ix key)))
    unfolding replaced
    NewBucket-replace =
        let b = bucket ix key in
        let lt = bucket-lt rep key in
        let o = (location rep key).entry_offset in
        record {
          heads_length = refl;
          heads_lt = rep.heads_lt;
          heads_same = λ b' ne. refl;
          entries =
              All-EntryFits-update (entries_base ix) o (with_db_offset d) es
                (λ e h. record { db_offset = d_lt; next = h.next; key = h.key }) rep.entries;
          small = omega (arith, replaced-size, end_of_file rep, rep.small);
          chain = Chain-replace key d 0 (rep.chain b lt) pos;
          others = λ b' lt' ne.
              Chain-update o (with_db_offset d) (λ e. refl) (rep.chain b' lt')
                (Apart-hash (bucket ix) o b (rep.chain b' lt') (rep.hashed b' lt') at
                  (ap (λ (k : Bytes). bucket ix k) same) ne);
          hashed = HashTo-replace (bucket ix) b key d (chains b) (rep.hashed b lt);
          distinct = Distinct-replace key d (chains b) (rep.distinct b lt);
        }

    set-replace :
        length key ≤ max_key_size
        → set ix key d (some file) ≡ (ok tt, some (table_of ix heads ++ entries_bytes replaced))
    unfolding set replaced
    set-replace short =
        let o = (location rep key).entry_offset in
        let o_lt : o < 2 ^ 63 =
          omega (arith, entry_at-lt (entries_base ix) o es at, end_of_file rep, rep.small) in
        rw (
          le→ltb max_key_size (length key) short,
          find_entry_offset-location rep key,
          ne→== o 0 pos,
          lt→ltb o (2 ^ 63) o_lt,
          rep.bytes,
          write_db_offset (table_of ix heads) (entries_base ix) (table_end rep) o d es at,
        )

  -- The key is not there: a new entry behind the others, which points at the old head.
  pub new_entry : IndexEntry
  new_entry = record {
    db_offset = d;
    next_entry_offset = get_or heads (bucket ix key) 0;
    key = key;
  }

  new_offset : ℕ
  new_offset = entries_base ix + entries_size es

  new_heads : List ℕ
  unfolding new_offset
  new_heads = set_elem heads (bucket ix key) new_offset

  new_entries-size : entries_size (es ++ new_entry ∷ []) ≤ entries_size es + (20 + length key)
  unfolding new_entry
  new_entries-size = omega (arith, entries_size-append es (new_entry ∷ []))

  bucket-inside : bucket ix key < length heads
  bucket-inside = omega (arith, bucket-lt rep key, rep.heads_length)

  -- The file behind the three writes at its end.
  pub written_entry :
      write_at (length file + 16) (string_bytes key) (
        write_at
          (length file + 8)
          (write_uint64 (get_or heads (bucket ix key) 0))
          (write_at (length file) (write_uint64 d) file))
      ≡ table_of ix heads ++ entries_bytes (es ++ new_entry ∷ [])
  unfolding new_entry entries_bytes entry_bytes
  written_entry =
      let next = write_uint64 (get_or heads (bucket ix key) 0) in
      rw
        (
          write_at-end file (write_uint64 d) (length file) refl,
          write_at-end (file ++ write_uint64 d) next (length file + 8)
              (omega (arith, length-append file (write_uint64 d), length-write_uint64 d)),
          write_at-end ((file ++ write_uint64 d) ++ next) (string_bytes key) (length file + 16) (
              omega (
                arith,
                length-append (file ++ write_uint64 d) next,
                length-append file (write_uint64 d),
                length-write_uint64 d,
                length-write_uint64 (get_or heads (bucket ix key) 0),
              )),
          rep.bytes,
          entries_bytes-append es (new_entry ∷ []),
        )
        (regroup (table_of ix heads) (entries_bytes es) (write_uint64 d) next (string_bytes key))

  module _ (absent : lookup key (chains (bucket ix key)) ≡ none) (short : length key ≤ max_key_size)
      (room : length file + 20 + length key < 2 ^ 63) where
    new_offset-lt : new_offset < 2 ^ 63
    unfolding new_offset
    new_offset-lt = omega (arith, end_of_file rep)

    head-lt : get_or heads (bucket ix key) 0 < 2 ^ 63
    head-lt = All-get_or (λ h. h < 2 ^ 63) heads (bucket ix key) 0 rep.heads_lt bucket-inside

    -- The old head lies before the new entry.
    head-below : get_or heads (bucket ix key) 0 < new_offset
    unfolding new_offset
    head-below = below (rep.chain (bucket ix key) (bucket-lt rep key))
      where
        below : {off : ℕ} {ns : List Node} → Chain (entries_base ix) es off ns → off < new_offset
        below (end z) = omega (arith, rep.header.num_buckets_pos)
        below (link {off} pos e n lt c) = omega (arith, entry_at-lt (entries_base ix) off es e)

    NewBucket-append :
        NewBucket ix heads es chains
          (bucket ix key)
          new_heads
          (es ++ new_entry ∷ [])
          (node new_offset new_entry ∷ chains (bucket ix key))
    unfolding new_heads new_entry
    NewBucket-append =
        let b = bucket ix key in
        let lt = bucket-lt rep key in
        record {
          heads_length = length-set heads b new_offset;
          heads_lt = All-set (λ h. h < 2 ^ 63) heads b new_offset rep.heads_lt new_offset-lt;
          heads_same = λ b' ne.
              get_or-set heads b b' new_offset 0 bucket-inside ∙ rw (ne→== b b' (λ e. ne (sym e)));
          entries =
              All-append es new_entry rep.entries
                (record { db_offset = d_lt; next = omega (arith, head-lt); key = short });
          small = omega (arith, entries_size-append es (new_entry ∷ []), end_of_file rep);
          chain =
              rw (get_or-set heads b b new_offset 0 bucket-inside, eq→== b b refl)
                (link (omega (arith, rep.header.num_buckets_pos))
                  (entry_at-last (entries_base ix) es new_entry) refl head-below
                  (Chain-append new_entry (rep.chain b lt)));
          others = λ b' lt' ne. Chain-append new_entry (rep.chain b' lt');
          hashed = (refl, rep.hashed b lt);
          distinct = (absent, rep.distinct b lt);
        }

    new_lookup :
        (k : Bytes)
        → lookup k (node new_offset new_entry ∷ chains (bucket ix key))
          ≡ (if bytes_eq key k then some d else lookup k (chains (bucket ix key)))
    unfolding lookup new_entry
    new_lookup k = rw (bytes_eq_comm k key)

    set-append :
        (location rep key).entry_offset ≡ 0
        → set ix key d (some file)
          ≡ (ok tt, some (table_of ix new_heads ++ entries_bytes (es ++ new_entry ∷ [])))
    unfolding set new_heads
    set-append none_there =
        let inside : header_size ix + 8 * bucket ix key < 2 ^ 63 =
          omega (arith, bucket-lt rep key, end_of_file rep, rep.small) in
        rw (
          le→ltb max_key_size (length key) short,
          find_entry_offset-location rep key,
          eq→== (location rep key).entry_offset 0 none_there,
          write_string-ok key max_key_size short (omega arith),
          written_entry,
          lt→ltb (header_size ix + 8 * bucket ix key) (2 ^ 63) inside,
          write_head-table ix heads (entries_bytes (es ++ new_entry ∷ [])) (bucket ix key)
              (length file) bucket-inside,
          end_of_file rep,
        )

-- Where a file holds a map, the key is short enough, the offset is a 64-bit number and the new
-- file stays below 2^63 bytes, `set` returns and leaves a file that holds the map with the key at
-- the offset, at most one entry longer.
pub set-Holds :
    {ix : Index} {file : Bytes} {m : Bytes → Option ℕ} (key : Bytes) (d : ℕ)
    → Holds ix file m
    → length key ≤ max_key_size
    → d < 2 ^ 64
    → length file + 20 + length key < 2 ^ 63
    → (w : Written ix (insert key d m) (length file + (20 + length key))) × (set ix key d
          (some file)
        ≡ (ok tt, some w.file))
set-Holds {ix} {file} {m} key d h short d_lt room =
    let rep = h.represents in
    elim (locate-lookup key 0 (rep.chain (bucket ix key) (bucket-lt rep key))) [
      | inl (none_there, absent) ↦ (
        written h key (some d) (20 + length key) (NewBucket-append rep key d d_lt absent short room)
            (new_entries-size rep key d d_lt) (new_lookup rep key d d_lt absent short room),
        set-append rep key d d_lt absent short room none_there,
      )
      | inr (e, at, same, pos, there) ↦ (
        written h key (some d) (20 + length key)
            (NewBucket-replace rep key d d_lt e at same pos there)
            (omega (arith, replaced-size rep key d d_lt e at same pos there))
            (λ k. lookup-replace key k d _ (λ z. cc)),
        set-replace rep key d d_lt e at same pos there short,
      )
    ]
