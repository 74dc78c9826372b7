-- ===== src/Index/Chains.antt =====
-- The chain of a bucket as the nodes that it runs through, and what the walk of `find_entry_offset`
-- finds on it.
pub mod Changes
pub mod Keys
use zidanedb.Base.{
  ℕ, zero, suc, ◌+◌, ◌≤◌, ◌<◌, ◌≡◌, ◌≢◌, refl, sym, ap, ◌∙◌, List, [], ◌∷◌, ◌++◌, Option, none,
  some, Bool, true, false, arith, length, ◌⊎◌, ◌==◌, if◌then◌else◌, All, Bool-cases, inl, inr,
  bytes_eq, bytes_eq→eq, bytes_eq_self, ne→==,
}
use mathlib.Core.Option
use zidanedb.Stream.{Bytes}
use zidanedb.Index.Read.{IndexEntry}
use zidanedb.Index.Layout.{entry_at, update_at, entry_at-update, entry_at-append, KeepsKey}

-- An entry of a chain: its offset in the index file, its offset in the log, and its key.
pub record Node : Type 0 where
  pub offset : ℕ
  pub db_offset : ℕ
  pub key : Bytes

abbrev pub node : ℕ → IndexEntry → Node
node off e = record { offset = off; db_offset = e.db_offset; key = e.key }

-- From `off` the links lead through the nodes to zero. Each link goes to a lower offset.
pub data Chain (base : ℕ) (es : List IndexEntry) : ℕ → List Node → Type 0 where
  end : {off : ℕ} → off ≡ 0 → Chain base es off []
  link :
      {off next : ℕ} {e : IndexEntry} {ns : List Node}
      → off ≢ 0
      → entry_at base off es ≡ some e
      → e.next_entry_offset ≡ next
      → next < off
      → Chain base es next ns
      → Chain base es off (node off e ∷ ns)

-- The offsets of the first node with a key and of its predecessor, as the walk finds them.
unfoldable pub locate : Bytes → ℕ → List Node → ℕ × ℕ
locate key prev [] = (0, prev)
locate key prev (n ∷ ns) = if bytes_eq key n.key then (n.offset, prev) else locate key n.offset ns

-- What the nodes map a key to.
unfoldable pub lookup : Bytes → List Node → Option ℕ
lookup key [] = none
lookup key (n ∷ ns) = if bytes_eq key n.key then some n.db_offset else lookup key ns

-- The nodes after `set` of a key that is there, and after `erase`.
unfoldable pub replace : Bytes → ℕ → List Node → List Node
replace key d [] = []
replace key d (n ∷ ns) =
    if bytes_eq key n.key then record n { db_offset = d } ∷ ns else n ∷ replace key d ns

unfoldable pub remove : Bytes → List Node → List Node
remove key [] = []
remove key (n ∷ ns) = if bytes_eq key n.key then ns else n ∷ remove key ns

abbrev pub Apart : ℕ → List Node → Type 0
Apart off ns = All (λ n. n.offset ≢ off) ns

module _ {base : ℕ} {es : List IndexEntry} where
  pub Chain-below :
      {off : ℕ} {ns : List Node} (at : ℕ) → Chain base es off ns → off < at → Apart at ns
  Chain-below at (end z) h = tt
  Chain-below at (link pos e n lt c) h =
      (λ same. absurd (omega arith), Chain-below at c (omega arith))

  -- A chain survives an update of an entry that it does not run through.
  pub Chain-update :
      {off : ℕ} {ns : List Node} (at : ℕ) (f : IndexEntry → IndexEntry)
      → KeepsKey f
      → Chain base es off ns
      → Apart at ns
      → Chain base (update_at base at f es) off ns
  Chain-update at f keeps (end z) apart = end z
  Chain-update at f keeps (link {off} pos e n lt c) (ne, apart) =
      link pos (rw (entry_at-update base off at f es keeps, ne→== off at ne) e) n lt
        (Chain-update at f keeps c apart)

  -- A new entry behind the others changes no chain.
  pub Chain-append :
      {off : ℕ} {ns : List Node} (new : IndexEntry)
      → Chain base es off ns
      → Chain base (es ++ new ∷ []) off ns
  Chain-append new (end z) = end z
  Chain-append new (link {off} {e} pos h n lt c) =
      link pos (entry_at-append base off es new e h) n lt (Chain-append new c)

  pub locate-le :
      {off : ℕ} {ns : List Node} (key : Bytes) (prev : ℕ)
      → Chain base es off ns
      → off ≤ prev
      → ((locate key prev ns).0 ≤ off) × ((locate key prev ns).1 ≤ prev)
  unfolding locate
  locate-le key prev (end z) h = (omega arith, omega arith)
  locate-le key prev (link {off} {e} pos x n lt c) h = elim (Bool-cases (bytes_eq key e.key)) [
    | inl hit ↦ rw hit (omega arith, omega arith)
    | inr miss ↦ rw miss (omega (arith, locate-le key off c (omega arith)))
  ]

  -- The walk stops at an entry with the key, and at zero only where no node has it.
  pub locate-lookup :
      {off : ℕ} {ns : List Node} (key : Bytes) (prev : ℕ)
      → Chain base es off ns
      → (((locate key prev ns).0 ≡ 0) × (lookup key ns ≡ none))
        ⊎ ((e : IndexEntry) × (entry_at base (locate key prev ns).0 es ≡ some e)
            × (e.key ≡ key)
            × ((locate key prev ns).0 ≢ 0)
            × (lookup key ns ≡ some e.db_offset))
  unfolding locate lookup
  locate-lookup key prev (end z) = inl (refl, refl)
  locate-lookup key prev (link {off} {e} pos x n lt c) = elim (Bool-cases (bytes_eq key e.key)) [
    | inl hit ↦ rw hit (inr (e, x, sym (bytes_eq→eq key e.key hit), pos, refl))
    | inr miss ↦ rw miss (locate-lookup key off c)
  ]
