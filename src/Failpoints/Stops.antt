-- ===== src/Failpoints/Stops.antt =====
-- `Index::set` with failpoints: where it stops, and the index file that it then leaves.
use zidanedb.Base.{
  ℕ, ◌+◌, ◌^◌, ◌≤◌, ◌<◌, ◌≡◌, ◌≢◌, refl, sym, ◌∙◌, Option, none, some, Bool, true, false,
  if◌then◌else◌, arith, length, inl, inr, ne→==, eq→==, le→ltb, ltb, Bool-cases, ==→eq, ◌==◌, ◌⊎◌,
}
use zidanedb.Base.Results.{Result, ok, stops_at}
use zidanedb.Constants.{codes, max_key_size}
use zidanedb.Stream.{Bytes, write_at}
use zidanedb.Utils.{write_uint64, write_string}
use zidanedb.Utils.Strings.{string_bytes, write_string-ok}
use zidanedb.Index.{
  Index, EntryLocation, find_entry_offset, load, set as plain_set,
  append_entry as plain_append_entry, replace_entry as plain_replace_entry,
}
use zidanedb.Index.Represents.{Holds}
use zidanedb.Index.Bucket.{Written}
use zidanedb.Index.Find.{location, find_entry_offset-location, location-cases}
use zidanedb.Index.Set.{insert, set-Holds, written_entry}
use zidanedb.Index.Header.Load.{load-Holds, load-table}
use zidanedb.Failpoints.{is_requested, failpoint, buffered, append_entry, replace_entry, set}

-- A requested failpoint stopped the process, and left this file.
abbrev pub StopsWith : Option Bytes → Result (Unit {0}) × Option Bytes → Bytes → Type 0
StopsWith requested r file =
    (name : Bytes) × (is_requested requested name ≡ true) × (r ≡ (stops_at name, some file))

-- What a `set` that should leave a map leaves: the map where it returns, and an index file that can
-- still be loaded where it was stopped.
abbrev pub Outcome :
    Option Bytes → Index → (Bytes → Option ℕ) → ℕ → Result (Unit {0}) × Option Bytes → Type 0
Outcome requested ix m limit r =
    ((w : Written ix m limit) × (r ≡ (ok tt, some w.file)))
    ⊎ ((file : Bytes) × StopsWith requested r file × (load file ≡ ok ix))

-- The file with a new entry at its end, to which no bucket points yet.
abbrev with_entry : Bytes → EntryLocation → Bytes → ℕ → Bytes
with_entry file offsets key d = write_at (length file + 16) (string_bytes key) (
    write_at (length file + 8) (write_uint64 offsets.chain_offset)
      (write_at (length file) (write_uint64 d) file))

same_file :
    {file new : Bytes}
    → ◌≡◌ {A = Result (Unit {0}) × Option Bytes} (ok tt, some file) (ok tt, some new)
    → file ≡ new
same_file h = cc

if-some :
    (name : Bytes) (b : Bool) (x y : Bytes)
    → ◌≡◌ {A = Result (Unit {0}) × Option Bytes}
        (stops_at name, if b then some x else some y)
        (stops_at name, some (if b then x else y))
if-some name true x y = refl
if-some name false x y = refl

early_or_late : (b : Bool) (x y : Bytes) → ((if b then x else y) ≡ x) ⊎ ((if b then x else y) ≡ y)
early_or_late true x y = inl refl
early_or_late false x y = inr refl

either_loads :
    {ix : Index} (b : Bool) (x y : Bytes)
    → load x ≡ ok ix
    → load y ≡ ok ix
    → load (if b then x else y) ≡ ok ix
either_loads true x y h k = h
either_loads false x y h k = k

module _ (requested : Option Bytes) (early : Bool) where
  replace_entry-plain :
      (offsets : EntryLocation) (d : ℕ) (file new : Bytes)
      → plain_replace_entry offsets d (some file) ≡ (ok tt, some new)
      → ((replace_entry requested early offsets d (some file) ≡ (ok tt, some new))
          × (is_requested requested (codes "after_modify_existing_entry") ≡ false))
        ⊎ StopsWith requested
            (replace_entry requested early offsets d (some file))
            (if early then new else file)
  unfolding replace_entry plain_replace_entry buffered
  replace_entry-plain offsets d file new h = elim (Bool-cases (ltb offsets.entry_offset (2 ^ 63))) [
    | inr far ↦ cc (rw far at h)
    | inl near ↦
        let e : write_at offsets.entry_offset (write_uint64 d) file ≡ new =
          same_file (rw near at h) in
        elim (Bool-cases (is_requested requested (codes "after_modify_existing_entry"))) [
          | inr other ↦ rw (near, other, e) (inl (refl, refl))
          | inl asked ↦ rw (near, asked, e) (inr (_, asked, if-some _ early new file))
        ]
  ]

  append_entry-plain :
      (offsets : EntryLocation) (key : Bytes) (d : ℕ) (file new : Bytes)
      → length key ≤ max_key_size
      → plain_append_entry file offsets key d (some file) ≡ (ok tt, some new)
      → ((append_entry requested early file offsets key d (some file) ≡ (ok tt, some new))
          × (is_requested requested (codes "before_update_bucket_head") ≡ false)
          × (is_requested requested (codes "after_update_bucket_head") ≡ false))
        ⊎ ((stopped : Bytes) × StopsWith requested
              (append_entry requested early file offsets key d (some file))
              stopped
            × ((stopped ≡ new) ⊎ (stopped ≡ with_entry file offsets key d)))
  unfolding append_entry plain_append_entry buffered failpoint
  append_entry-plain offsets key d file new short h =
      let bytes : write_string key max_key_size ≡ ok (string_bytes key) =
        write_string-ok key max_key_size short (omega arith) in
      let added = with_entry file offsets key d in
      elim (Bool-cases (is_requested requested (codes "before_update_bucket_head"))) [
        | inl asked ↦ rw (bytes, asked) (inr (added, (_, asked, refl), inr refl))
        | inr other ↦ elim (Bool-cases (ltb offsets.bucket_offset (2 ^ 63))) [
          | inr far ↦ cc (rw (bytes, far) at h)
          | inl near ↦
              let e : write_at offsets.bucket_offset (write_uint64 (length file)) added ≡ new =
                same_file (rw (bytes, near) at h) in
              elim (Bool-cases (is_requested requested (codes "after_update_bucket_head"))) [
                | inr other' ↦ rw (bytes, other, near, other', e) (inl (refl, refl, refl))
                | inl asked ↦
                    rw (bytes, other, near, asked, e)
                      (inr (
                        if early then new else added,
                        (_, asked, if-some _ early new added),
                        early_or_late early new added,
                      ))
              ]
        ]
      ]

  -- `set` behind its guards, in both builds.
  set-append_entry :
      (ix : Index) (file key : Bytes) (d : ℕ) {loc : EntryLocation}
      → length key ≤ max_key_size
      → find_entry_offset ix file key ≡ ok loc
      → loc.entry_offset ≡ 0
      → (set requested early ix key d (some file)
          ≡ append_entry requested early file loc key d (some file))
        × (plain_set ix key d (some file) ≡ plain_append_entry file loc key d (some file))
  unfolding set plain_set
  set-append_entry ix file key d {loc} short found e =
      let fits = le→ltb max_key_size (length key) short in
      let zero_offset = eq→== loc.entry_offset 0 e in
      (rw (fits, found, zero_offset) refl, rw (fits, found, zero_offset) refl)

  set-replace_entry :
      (ix : Index) (file key : Bytes) (d : ℕ) {loc : EntryLocation}
      → length key ≤ max_key_size
      → find_entry_offset ix file key ≡ ok loc
      → loc.entry_offset ≢ 0
      → (set requested early ix key d (some file) ≡ replace_entry requested early loc d (some file))
        × (plain_set ix key d (some file) ≡ plain_replace_entry loc d (some file))
  unfolding set plain_set
  set-replace_entry ix file key d {loc} short found ne =
      let fits = le→ltb max_key_size (length key) short in
      let offset = ne→== loc.entry_offset 0 ne in
      (rw (fits, found, offset) refl, rw (fits, found, offset) refl)

  -- The failpoints that `set` reaches, for a key that is there or not.
  abbrev pub SetReaches : Option ℕ → Type 0
  SetReaches none =
      (is_requested requested (codes "before_update_bucket_head") ≡ true)
      ⊎ (is_requested requested (codes "after_update_bucket_head") ≡ true)
  SetReaches (some offset) = is_requested requested (codes "after_modify_existing_entry") ≡ true

  no_stop :
      SetReaches none
      → is_requested requested (codes "before_update_bucket_head") ≡ false
      → is_requested requested (codes "after_update_bucket_head") ≡ false
      → ⊥
  no_stop (inl asked) before after = cc
  no_stop (inr asked) before after = cc

  -- Where a file holds a map, the key is short enough, the offset is a 64-bit number, the new file
  -- stays below 2^63 bytes and `set` reaches the failpoint that is requested, it stops.
  pub set-stops :
      {ix : Index} {file : Bytes} {m : Bytes → Option ℕ} (key : Bytes) (d : ℕ)
      → Holds ix file m
      → length key ≤ max_key_size
      → d < 2 ^ 64
      → length file + 20 + length key < 2 ^ 63
      → SetReaches (m key)
      → (stopped : Bytes) × StopsWith requested (set requested early ix key d (some file)) stopped
  set-stops {ix} {file} key d h short d_lt room reached =
      let rep = h.represents in
      let (w, run) = set-Holds key d h short d_lt room in
      let loc = location rep key in
      let found = find_entry_offset-location rep key in
      elim (location-cases h key) [
        | inl (e, absent) ↦
            let (stepped, plain) = set-append_entry ix file key d short found e in
            elim (append_entry-plain loc key d file w.file short (sym plain ∙ run)) [
              | inl (returned, before, after) ↦ absurd (no_stop (rw absent at reached) before after)
              | inr (stopped, (name, asked, left), which) ↦ (stopped, (name, asked, stepped ∙ left))
            ]
        | inr (ne, (offset, there)) ↦
            let (stepped, plain) = set-replace_entry ix file key d short found ne in
            elim (replace_entry-plain loc d file w.file (sym plain ∙ run)) [
              | inl (returned, other) ↦ cc (rw there at reached)
              | inr (name, asked, left) ↦ (_, (name, asked, stepped ∙ left))
            ]
      ]

  -- Where a file holds a map, the key is short enough, the offset is a 64-bit number and the new
  -- file stays below 2^63 bytes, `set` either returns and leaves the map with the key at the offset,
  -- or stops and leaves a file that loads as the same index.
  pub set-Outcome :
      {ix : Index} {file : Bytes} {m : Bytes → Option ℕ} (key : Bytes) (d : ℕ)
      → Holds ix file m
      → length key ≤ max_key_size
      → d < 2 ^ 64
      → length file + 20 + length key < 2 ^ 63
      → Outcome requested ix
          (insert key d m)
          (length file + (20 + length key))
          (set requested early ix key d (some file))
  set-Outcome {ix} {file} key d h short d_lt room =
      let rep = h.represents in
      let (w, run) = set-Holds key d h short d_lt room in
      let loc = location rep key in
      let found = find_entry_offset-location rep key in
      elim (Bool-cases (loc.entry_offset == 0)) [
        | inl e ↦
            let (stepped, plain) =
              set-append_entry ix file key d short found (==→eq loc.entry_offset 0 e) in
            elim (append_entry-plain loc key d file w.file short (sym plain ∙ run)) [
              | inl (returned, before, after) ↦ inl (w, stepped ∙ returned)
              | inr (stopped, (name, asked, left), which) ↦ inr (
                stopped,
                (name, asked, stepped ∙ left),
                elim which [
                  | inl new ↦ rw new (load-Holds w.holds)
                  | inr added ↦
                      rw (added ∙ written_entry rep key d d_lt)
                        (load-table h.heads _ rep.header rep.heads_length)
                ],
              )
            ]
        | inr e ↦
            let (stepped, plain) =
              set-replace_entry ix file key d short found (λ z. cc (eq→== loc.entry_offset 0 z)) in
            elim (replace_entry-plain loc d file w.file (sym plain ∙ run)) [
              | inl (returned, other) ↦ inl (w, stepped ∙ returned)
              | inr (name, asked, left) ↦ inr (
                if early then w.file else file,
                (name, asked, stepped ∙ left),
                either_loads early w.file file (load-Holds w.holds) (load-Holds h),
              )
            ]
      ]
