-- ===== src/Index/Chains/Keys.antt =====
-- Chains as maps: what each change does to the keys and to what they are mapped to.
use zidanedb.Base.{
  ℕ, ◌≡◌, ◌≢◌, refl, List, [], ◌∷◌, none, some, arith, if◌then◌else◌, All, Bool-cases, inl, inr,
  bytes_eq, bytes_eq_iff,
}
use zidanedb.Stream.{Bytes}
use zidanedb.Index.Chains.{Node, lookup, replace, remove}

-- No two nodes have the same key.
abbrev pub Distinct : List Node → Type 0
Distinct [] = Unit
Distinct (n ∷ ns) = (lookup n.key ns ≡ none) × Distinct ns

-- Every key of a bucket's chain hashes to the bucket.
abbrev pub HashTo : (Bytes → ℕ) → ℕ → List Node → Type 0
HashTo hash b ns = All (λ n. hash n.key ≡ b) ns

pub lookup-replace :
    (key k : Bytes) (d : ℕ) (ns : List Node)
    → lookup key ns ≢ none
    → lookup k (replace key d ns) ≡ (if bytes_eq key k then some d else lookup k ns)
unfolding lookup replace
lookup-replace key k d [] h = absurd (h refl)
lookup-replace key k d (n ∷ ns) h = ground (
  arith,
  bytes_eq_iff key n.key,
  bytes_eq_iff k n.key,
  bytes_eq_iff key k,
  lookup-replace key k d ns,
)

pub lookup-replace_none :
    (key k : Bytes) (d : ℕ) (ns : List Node)
    → lookup k ns ≡ none
    → lookup k (replace key d ns) ≡ none
unfolding lookup replace
lookup-replace_none key k d [] h = refl
lookup-replace_none key k d (n ∷ ns) h = ground (arith, lookup-replace_none key k d ns)

pub lookup-remove :
    (key k : Bytes) (ns : List Node)
    → Distinct ns
    → lookup k (remove key ns) ≡ (if bytes_eq key k then none else lookup k ns)
unfolding lookup remove
lookup-remove key k [] h = ground arith
lookup-remove key k (n ∷ ns) (first, rest) = ground (
  arith,
  bytes_eq_iff key n.key,
  bytes_eq_iff k n.key,
  bytes_eq_iff key k,
  lookup-remove key k ns rest,
)

pub Distinct-replace :
    (key : Bytes) (d : ℕ) (ns : List Node) → Distinct ns → Distinct (replace key d ns)
unfolding replace
Distinct-replace key d [] h = tt
Distinct-replace key d (n ∷ ns) (first, rest) = elim (Bool-cases (bytes_eq key n.key)) [
  | inl hit ↦ rw hit (first, rest)
  | inr miss ↦ rw miss (lookup-replace_none key n.key d ns first, Distinct-replace key d ns rest)
]

pub Distinct-remove : (key : Bytes) (ns : List Node) → Distinct ns → Distinct (remove key ns)
unfolding remove
Distinct-remove key [] h = tt
Distinct-remove key (n ∷ ns) (first, rest) = elim (Bool-cases (bytes_eq key n.key)) [
  | inl hit ↦ rw hit rest
  | inr miss ↦
      let gone : lookup n.key (remove key ns) ≡ none =
        ground (arith, lookup-remove key n.key ns rest) in
      rw miss (gone, Distinct-remove key ns rest)
]

module _ (hash : Bytes → ℕ) (b : ℕ) where
  pub HashTo-replace :
      (key : Bytes) (d : ℕ) (ns : List Node) → HashTo hash b ns → HashTo hash b (replace key d ns)
  unfolding replace
  HashTo-replace key d [] h = tt
  HashTo-replace key d (n ∷ ns) (first, rest) = elim (Bool-cases (bytes_eq key n.key)) [
    | inl hit ↦ rw hit (first, rest)
    | inr miss ↦ rw miss (first, HashTo-replace key d ns rest)
  ]

  pub HashTo-remove :
      (key : Bytes) (ns : List Node) → HashTo hash b ns → HashTo hash b (remove key ns)
  unfolding remove
  HashTo-remove key [] h = tt
  HashTo-remove key (n ∷ ns) (first, rest) = elim (Bool-cases (bytes_eq key n.key)) [
    | inl hit ↦ rw hit rest
    | inr miss ↦ rw miss (first, HashTo-remove key ns rest)
  ]
