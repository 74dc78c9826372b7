-- ===== src/Index/Counts.antt =====
-- `empty`, and what `stats` counts, on a file that holds a map. Index/Counts/Stats has the counts,
-- Index/Counts/Bounds their bounds.
pub mod Stats
pub mod Bounds
use zidanedb.Base.{
  ℕ, zero, suc, ◌+◌, ◌*◌, ◌^◌, ◌≤◌, ◌<◌, ◌≡◌, ◌≢◌, ◌↔◌, refl, sym, ap, ◌∙◌, List, [], ◌∷◌, ◌++◌,
  Option, none, some, Bool, true, false, if◌then◌else◌, arith, length, All, get_or, ◌==◌, lt→ltb,
  ne→==, eq→==, append_assoc, ◌⊎◌, inl, inr, Bool-cases, ==→eq, bytes_eq_self,
}
use zidanedb.Base.Results.{ok}
use zidanedb.Stream.{Bytes, stream}
use zidanedb.Stream.Positions.{drop_at}
use zidanedb.Utils.{write_uint64}
use zidanedb.Utils.Integers.{read_uint64-write}
use zidanedb.Index.Read.{Index, IndexEntry, header_size, empty_loop, empty}
use zidanedb.Index.Layout.{entries_bytes}
use zidanedb.Index.Chains.{Node, Chain, end, link, lookup}
use zidanedb.Index.Chains.Keys.{HashTo}
use zidanedb.Index.Represents.{Represents, Holds, heads_bytes, header_of, bucket, entries_base}
use zidanedb.Index.Table.{header_size-41, length-header_of}
use zidanedb.Index.Find.{bucket-lt}

abbrev all_zero : List ℕ → Bool
all_zero [] = true
all_zero (h ∷ hs) = if h == 0 then all_zero hs else false

empty_loop-heads :
    (hs : List ℕ) (rest : Bytes) (pos : ℕ)
    → All (λ h. h < 2 ^ 63) hs
    → empty_loop (length hs) (stream (heads_bytes hs ++ rest) pos) ≡ ok (all_zero hs)
unfolding empty_loop heads_bytes
empty_loop-heads [] rest pos fits = refl
empty_loop-heads (h ∷ hs) rest pos (lt, fits) =
    rw
      (
        append_assoc (write_uint64 h) (heads_bytes hs) rest,
        read_uint64-write h (heads_bytes hs ++ rest) pos (omega arith),
        empty_loop-heads hs rest (pos + 8) fits,
      )
      (ground arith)

all_zero-get_or : (hs : List ℕ) (i : ℕ) → all_zero hs ≡ true → get_or hs i 0 ≡ 0
all_zero-get_or [] i h = refl
all_zero-get_or (x ∷ hs) zero h = ground arith
all_zero-get_or (x ∷ hs) (suc i) h = all_zero-get_or hs i (ground arith)

-- A head that is not zero, where there is one.
some_head : (hs : List ℕ) → all_zero hs ≡ false → (i : ℕ) × (i < length hs) × (get_or hs i 0 ≢ 0)
some_head [] h = cc
some_head (x ∷ hs) h = elim (Bool-cases (x == 0)) [
  | inl zero_head ↦ let (i, lt, ne) = some_head hs (rw zero_head at h) in (suc i, omega arith, ne)
  | inr nonzero ↦ (zero, omega arith, λ e. cc (eq→== x 0 e))
]

Chain-zero :
    {base : ℕ} {es : List IndexEntry} {off : ℕ} {ns : List Node} (key : Bytes)
    → Chain base es off ns
    → off ≡ 0
    → lookup key ns ≡ none
unfolding lookup
Chain-zero key (end z) e = refl
Chain-zero key (link pos h n lt c) e = absurd (pos e)

-- The key of the first node of a chain that is there.
Chain-key :
    {base : ℕ} {es : List IndexEntry} {off : ℕ} {ns : List Node} (hash : Bytes → ℕ) (b : ℕ)
    → Chain base es off ns
    → off ≢ 0
    → HashTo hash b ns
    → (key : Bytes) × (hash key ≡ b) × (lookup key ns ≢ none)
unfolding lookup
Chain-key hash b (end z) ne hashed = absurd (ne z)
Chain-key hash b (link {e} pos h n lt c) ne (here, hashed) =
    (e.key, here, rw (bytes_eq_self e.key) (λ e. cc e))

module _ {ix : Index} {file : Bytes} {heads : List ℕ} {es : List IndexEntry}
    {chains : ℕ → List Node} (rep : Represents ix file heads es chains) where
  empty-Represents : empty ix (some file) ≡ ok (all_zero heads)
  unfolding empty
  empty-Represents =
      let body =
        rw rep.heads_length at
          (empty_loop-heads heads (entries_bytes es) (header_size ix) rep.heads_lt) in
      rw
        (
          lt→ltb (header_size ix) (2 ^ 63) (omega (arith, header_size-41 rep.header)),
          rep.bytes,
          append_assoc (header_of ix) (heads_bytes heads) (entries_bytes es),
          drop_at (header_of ix) (heads_bytes heads ++ entries_bytes es) (header_size ix)
              (sym (length-header_of ix)),
        )
        body

-- Where a file holds a map, `empty` returns, and returns true exactly when the map has no key.
pub empty-Holds :
    {ix : Index} {file : Bytes} {m : Bytes → Option ℕ}
    → Holds ix file m
    → (b : Bool) × (empty ix (some file) ≡ ok b) × ((b ≡ true) ↔ ((key : Bytes) → m key ≡ none))
empty-Holds {ix} {file} {m} h =
    let rep = h.represents in (all_zero h.heads, empty-Represents rep, (no_key, no_head))
  where
    no_key : all_zero h.heads ≡ true → (key : Bytes) → m key ≡ none
    no_key z key =
        let b = bucket ix key in
        h.map key
        ∙ Chain-zero key (h.represents.chain b (bucket-lt h.represents key))
            (all_zero-get_or h.heads b z)

    no_head : ((key : Bytes) → m key ≡ none) → all_zero h.heads ≡ true
    no_head absent = elim (Bool-cases (all_zero h.heads)) [
      | inl z ↦ z
      | inr s ↦
          let (i, lt, ne) = some_head h.heads s in
          let inside : i < ix.num_buckets = omega (arith, h.represents.heads_length) in
          let (key, here, there) =
            Chain-key (bucket ix) i (h.represents.chain i inside) ne
              (h.represents.hashed i inside) in
          absurd
            (there (ap (λ c. lookup key (h.chains c)) (sym here) ∙ sym (h.map key) ∙ absent key))
    ]
