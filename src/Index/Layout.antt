-- ===== src/Index/Layout.antt =====
-- The bytes of an index file, as its header, its bucket heads and its entries in order of offset.
use zidanedb.Base.{
  ℕ, ◌+◌, ◌≤◌, ◌≡◌, refl, ap, List, [], ◌∷◌, ◌++◌, Option, none, some, arith, length, ◌==◌,
  if◌then◌else◌, append_assoc, length-append, Bool-cases, inl, inr,
}
use mathlib.Core.Option
use zidanedb.Stream.{Bytes}
use zidanedb.Utils.{write_uint64}
use zidanedb.Utils.Integers.{length-write_uint64}
use zidanedb.Utils.Strings.{string_bytes, length-string_bytes}
use zidanedb.Utils.{string_size}
use zidanedb.Index.Read.{IndexEntry}

unfoldable pub entry_bytes : IndexEntry → Bytes
entry_bytes e = write_uint64 e.db_offset ++ (write_uint64 e.next_entry_offset ++ string_bytes e.key)

abbrev pub entry_size : IndexEntry → ℕ
entry_size e = 20 + length e.key

pub length-entry_bytes : (e : IndexEntry) → length (entry_bytes e) ≡ entry_size e
unfolding entry_bytes string_size
length-entry_bytes e = omega (
  arith,
  length-append (write_uint64 e.db_offset) (write_uint64 e.next_entry_offset ++ string_bytes e.key),
  length-append (write_uint64 e.next_entry_offset) (string_bytes e.key),
  length-string_bytes e.key,
  length-write_uint64 e.db_offset,
  length-write_uint64 e.next_entry_offset,
)

unfoldable pub entries_bytes : List IndexEntry → Bytes
entries_bytes [] = []
entries_bytes (e ∷ es) = entry_bytes e ++ entries_bytes es

abbrev pub entries_size : List IndexEntry → ℕ
entries_size [] = 0
entries_size (e ∷ es) = entry_size e + entries_size es

pub length-entries_bytes : (es : List IndexEntry) → length (entries_bytes es) ≡ entries_size es
unfolding entries_bytes
length-entries_bytes [] = refl
length-entries_bytes (e ∷ es) = omega (
  arith,
  length-append (entry_bytes e) (entries_bytes es),
  length-entry_bytes e,
  length-entries_bytes es,
)

pub entries_bytes-append :
    (xs ys : List IndexEntry) → entries_bytes (xs ++ ys) ≡ entries_bytes xs ++ entries_bytes ys
unfolding entries_bytes
entries_bytes-append [] ys = refl
entries_bytes-append (x ∷ xs) ys = rw (entries_bytes-append xs ys, append_assoc)

pub entries_size-append :
    (xs ys : List IndexEntry) → entries_size (xs ++ ys) ≡ entries_size xs + entries_size ys
entries_size-append [] ys = omega arith
entries_size-append (x ∷ xs) ys = omega (arith, entries_size-append xs ys)

-- The entry that begins at an offset, where the first one begins at `base`.
unfoldable pub entry_at : (base off : ℕ) → List IndexEntry → Option IndexEntry
entry_at base off [] = none
entry_at base off (e ∷ es) = if base == off then some e else entry_at (base + entry_size e) off es

unfoldable pub update_at :
    (base off : ℕ) → (IndexEntry → IndexEntry) → List IndexEntry → List IndexEntry
update_at base off f [] = []
update_at base off f (e ∷ es) =
    if base == off then f e ∷ es else e ∷ update_at (base + entry_size e) off f es

-- The entries around an entry, and what an update makes of them.
pub entry_at-split :
    (base off : ℕ) (es : List IndexEntry) {e : IndexEntry}
    → entry_at base off es ≡ some e
    → (xs ys : List IndexEntry) × (es ≡ xs ++ e ∷ ys)
      × (off ≡ base + entries_size xs)
      × ((f : IndexEntry → IndexEntry) → update_at base off f es ≡ xs ++ f e ∷ ys)
unfolding entry_at update_at
entry_at-split base off [] h = cc
entry_at-split base off (x ∷ es) {e} h = elim (Bool-cases (base == off)) [
  | inl here ↦ ([], es, ground arith, ground arith, λ f. ground arith)
  | inr later ↦
      let rest : entry_at (base + entry_size x) off es ≡ some e = ground arith in
      let (xs, ys, whole, at, updated) = entry_at-split (base + entry_size x) off es rest in
      (x ∷ xs, ys, ap (λ l. x ∷ l) whole, omega arith, λ f. rw (later, updated f))
]

pub entry_at-lt :
    (base off : ℕ) (es : List IndexEntry) {e : IndexEntry}
    → entry_at base off es ≡ some e
    → (base ≤ off) × (off + entry_size e ≤ base + entries_size es)
entry_at-lt base off es {e} h =
    let (xs, ys, whole, at, updated) = entry_at-split base off es h in
    rw whole (omega (arith, entries_size-append xs (e ∷ ys)))

-- Updates that keep the key keep the size.
abbrev pub KeepsKey : (IndexEntry → IndexEntry) → Type 0
KeepsKey f = (e : IndexEntry) → (f e).key ≡ e.key

pub entries_size-update :
    (base off : ℕ) (f : IndexEntry → IndexEntry) (es : List IndexEntry)
    → KeepsKey f
    → entries_size (update_at base off f es) ≡ entries_size es
unfolding update_at
entries_size-update base off f [] h = refl
entries_size-update base off f (e ∷ es) h = ground (
  arith,
  ap (λ (k : Bytes). length k) (h e),
  entries_size-update (base + entry_size e) off f es h,
)

pub entry_at-update :
    (base off at : ℕ) (f : IndexEntry → IndexEntry) (es : List IndexEntry)
    → KeepsKey f
    → entry_at base off (update_at base at f es)
      ≡ (if off == at then Option.map f (entry_at base off es) else entry_at base off es)
unfolding entry_at update_at
entry_at-update base off at f [] h = ground arith
entry_at-update base off at f (e ∷ es) h =
    ground (
      arith,
      ap (λ (k : Bytes). length k) (h e),
      entry_at-update (base + entry_size e) off at f es h,
    )

-- A new entry stands behind all others.
pub entry_at-append :
    (base off : ℕ) (es : List IndexEntry) (new e : IndexEntry)
    → entry_at base off es ≡ some e
    → entry_at base off (es ++ new ∷ []) ≡ some e
unfolding entry_at
entry_at-append base off [] new e h = cc
entry_at-append base off (x ∷ es) new e h =
    ground (arith, entry_at-append (base + entry_size x) off es new e)

pub entry_at-last :
    (base : ℕ) (es : List IndexEntry) (new : IndexEntry)
    → entry_at base (base + entries_size es) (es ++ new ∷ []) ≡ some new
unfolding entry_at
entry_at-last base [] new = ground arith
entry_at-last base (x ∷ es) new = ground (arith, entry_at-last (base + entry_size x) es new)
