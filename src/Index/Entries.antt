-- ===== src/Index/Entries.antt =====
-- Reading and writing the entries of a file, as the entries that its bytes stand for.
use zidanedb.Base.{
  ℕ, ◌+◌, ◌^◌, ◌≤◌, ◌<◌, ◌≡◌, ◌≢◌, sym, ◌∙◌, List, ◌∷◌, ◌++◌, some, arith, length, append_assoc,
  length-append, lt→ltb, ne→==,
}
use zidanedb.Base.Results.{ok}
use zidanedb.Constants.{max_key_size}
use zidanedb.Stream.{Bytes, IStream, stream, seekg, write_at}
use zidanedb.Stream.Positions.{drop_at, write_at-middle}
use zidanedb.Utils.{Read, write_uint64, read_uint64}
use zidanedb.Utils.Integers.{length-write_uint64, read_uint64-write}
use zidanedb.Utils.Strings.{string_bytes, read_string-string_bytes}
use zidanedb.Index.Read.{IndexEntry, read_fields, read_entry}
use zidanedb.Index.Layout.{
  entry_bytes, entries_bytes, entries_bytes-append, length-entries_bytes, entry_at, update_at,
  entry_at-split,
}

-- What the fields of an entry hold, so that they are read back as they were written.
pub record EntryFits (e : IndexEntry) : Type 0 where
  pub db_offset : e.db_offset < 2 ^ 64
  pub next : e.next_entry_offset < 2 ^ 64
  pub key : length e.key ≤ max_key_size

pub read_fields-entry_bytes :
    (e : IndexEntry) (rest : Bytes) (pos : ℕ)
    → EntryFits e
    → read_fields (stream (entry_bytes e ++ rest) pos) ≡ ok e
unfolding read_fields entry_bytes
read_fields-entry_bytes e rest pos h = rw (
  append_assoc (write_uint64 e.db_offset) _ rest,
  read_uint64-write e.db_offset _ pos h.db_offset,
  append_assoc (write_uint64 e.next_entry_offset) _ rest,
  read_uint64-write e.next_entry_offset _ (pos + 8) h.next,
  read_string-string_bytes e.key rest max_key_size (pos + 8 + 8) h.key (omega arith),
)

regroup : (b d n k a : Bytes) → b ++ ((d ++ (n ++ k)) ++ a) ≡ (b ++ d) ++ (n ++ (k ++ a))
regroup b d n k a = simp append_assoc

-- A file whose entries stand behind `front`.
module _ (front : Bytes) (base : ℕ) (at_base : base ≡ length front) where
  -- The file split at an entry.
  pub split_file :
      (off : ℕ) (es : List IndexEntry) {e : IndexEntry}
      → entry_at base off es ≡ some e
      → (before after : Bytes) × (off ≡ length before)
        × (front ++ entries_bytes es ≡ before ++ (entry_bytes e ++ after))
        × ((f : IndexEntry → IndexEntry)
            → front ++ entries_bytes (update_at base off f es)
              ≡ before ++ (entry_bytes (f e) ++ after))
  unfolding entries_bytes
  split_file off es {e} h =
      let (xs, ys, whole, at, updated) = entry_at-split base off es h in
      (
        front ++ entries_bytes xs,
        entries_bytes ys,
        omega (arith, length-append front (entries_bytes xs), length-entries_bytes xs),
        rw (whole, entries_bytes-append xs (e ∷ ys)) (sym (append_assoc front _ _)),
        λ f. rw (updated f, entries_bytes-append xs (f e ∷ ys)) (sym (append_assoc front _ _)),
      )

  pub read_entry-entry_at :
      (off : ℕ) (es : List IndexEntry) {e : IndexEntry}
      → entry_at base off es ≡ some e
      → EntryFits e
      → off ≢ 0
      → off < 2 ^ 63
      → read_entry (front ++ entries_bytes es) off ≡ ok e
  unfolding read_entry
  read_entry-entry_at off es {e} h fits pos small =
      let (before, after, at, whole, updated) = split_file off es h in
      rw (
        ne→== off 0 pos,
        lt→ltb off (2 ^ 63) small,
        whole,
        drop_at before (entry_bytes e ++ after) off at,
        read_fields-entry_bytes e after off fits,
      )

  pub write_db_offset :
      (off d : ℕ) (es : List IndexEntry) {e : IndexEntry}
      → entry_at base off es ≡ some e
      → write_at off (write_uint64 d) (front ++ entries_bytes es)
        ≡ front ++ entries_bytes (update_at base off (λ e. record e { db_offset = d }) es)
  unfolding entry_bytes
  write_db_offset off d es {e} h =
      let (before, after, at, whole, updated) = split_file off es h in
      rw (whole, updated (λ e. record e { db_offset = d }))
        (rw (append_assoc (write_uint64 e.db_offset) _ after, append_assoc (write_uint64 d) _ after)
          (write_at-middle before (write_uint64 e.db_offset) _ (write_uint64 d) off at
            (length-write_uint64 d ∙ sym (length-write_uint64 e.db_offset))))

  pub write_next :
      (off n : ℕ) (es : List IndexEntry) {e : IndexEntry}
      → entry_at base off es ≡ some e
      → write_at (off + 8) (write_uint64 n) (front ++ entries_bytes es)
        ≡ front ++ entries_bytes (update_at base off (λ e. record e { next_entry_offset = n }) es)
  unfolding entry_bytes
  write_next off n es {e} h =
      let (before, after, at, whole, updated) = split_file off es h in
      let old = write_uint64 e.db_offset in
      let key = string_bytes e.key in
      rw (whole, updated (λ e. record e { next_entry_offset = n }))
        (rw
          (
            regroup before old (write_uint64 e.next_entry_offset) key after,
            regroup before old (write_uint64 n) key after,
          )
          (write_at-middle (before ++ old) (write_uint64 e.next_entry_offset) (key ++ after)
            (write_uint64 n) (off + 8)
            (omega (arith, length-append before old, length-write_uint64 e.db_offset))
            (length-write_uint64 n ∙ sym (length-write_uint64 e.next_entry_offset))))

  -- The link of an entry, as `erase` reads it.
  pub read_uint64-next :
      (off : ℕ) (es : List IndexEntry) {e : IndexEntry}
      → entry_at base off es ≡ some e
      → e.next_entry_offset < 2 ^ 64
      → (s : IStream) × (read_uint64 (seekg (front ++ entries_bytes es) (off + 8))
          ≡ Read.success e.next_entry_offset s)
  unfolding entry_bytes
  read_uint64-next off es {e} h fits =
      let (before, after, at, whole, updated) = split_file off es h in
      let old = write_uint64 e.db_offset in
      let key = string_bytes e.key in
      (
        stream (key ++ after) (off + 8 + 8),
        rw (
          whole,
          regroup before old (write_uint64 e.next_entry_offset) key after,
          drop_at (before ++ old) (write_uint64 e.next_entry_offset ++ (key ++ after)) (off + 8)
              (omega (arith, length-append before old, length-write_uint64 e.db_offset)),
          read_uint64-write e.next_entry_offset (key ++ after) (off + 8) fits,
        ),
      )

  -- The value of an entry, as `find` reads it.
  pub read_uint64-db_offset :
      (off : ℕ) (es : List IndexEntry) {e : IndexEntry}
      → entry_at base off es ≡ some e
      → e.db_offset < 2 ^ 64
      → (s : IStream) × (read_uint64 (seekg (front ++ entries_bytes es) off)
          ≡ Read.success e.db_offset s)
  unfolding entry_bytes
  read_uint64-db_offset off es {e} h fits =
      let (before, after, at, whole, updated) = split_file off es h in
      let link = write_uint64 e.next_entry_offset ++ string_bytes e.key in
      (
        stream (link ++ after) (off + 8),
        rw (
          whole,
          append_assoc (write_uint64 e.db_offset) link after,
          drop_at before (write_uint64 e.db_offset ++ (link ++ after)) off at,
          read_uint64-write e.db_offset (link ++ after) off fits,
        ),
      )
