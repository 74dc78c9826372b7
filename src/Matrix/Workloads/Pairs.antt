-- ===== src/Matrix/Workloads/Pairs.antt =====
-- The pairs of a test: no two have the same key, whatever the order of the map, and what a log of
-- their records stands for.
use zidanedb.Base.{
  ℕ, zero, suc, ◌+◌, ◌≡◌, ◌≢◌, refl, sym, ◌∙◌, Option, some, List, [], ◌∷◌, All, bytes_eq,
  bytes_eq_self, bytes_eq-cases, inl, inr, Bool-cases,
}
use zidanedb.Stream.{Bytes}
use zidanedb.Record.{Record, put}
use zidanedb.Database.Contents.{put_of, stored, values}
use zidanedb.Matrix.Workloads.{Pairs, emplace, expected_loop}

-- The records that putting the pairs appends to a log.
abbrev pub puts : Pairs → List Record
puts [] = []
puts ((k, v) ∷ pairs) = put_of k v ∷ puts pairs

abbrev pub Absent : Bytes → Pairs → Type 0
Absent key pairs = All (λ p. p.0 ≢ key) pairs

abbrev pub Distinct : Pairs → Type 0
Distinct [] = Unit
Distinct ((k, v) ∷ pairs) = Absent k pairs × Distinct pairs

-- The same pairs in another order.
pub data Rearranged : Pairs → Pairs → Type 0 where
  nothing : Rearranged [] []
  keep : {xs ys : Pairs} (p : Bytes × Bytes) → Rearranged xs ys → Rearranged (p ∷ xs) (p ∷ ys)
  swap : {xs : Pairs} (p q : Bytes × Bytes) → Rearranged (p ∷ q ∷ xs) (q ∷ p ∷ xs)
  both : {xs ys zs : Pairs} → Rearranged xs ys → Rearranged ys zs → Rearranged xs zs

pub Rearranged-refl : (pairs : Pairs) → Rearranged pairs pairs
Rearranged-refl [] = nothing
Rearranged-refl (p ∷ pairs) = keep p (Rearranged-refl pairs)

pub All-Rearranged :
    {xs ys : Pairs} (P : Bytes × Bytes → Type 0) → Rearranged xs ys → All P xs → All P ys
All-Rearranged P nothing h = h
All-Rearranged P (keep p r) (h, hs) = (h, All-Rearranged P r hs)
All-Rearranged P (swap p q) (h, (k, hs)) = (k, (h, hs))
All-Rearranged P (both r r') h = All-Rearranged P r' (All-Rearranged P r h)

pub Distinct-Rearranged : {xs ys : Pairs} → Rearranged xs ys → Distinct xs → Distinct ys
Distinct-Rearranged nothing d = d
Distinct-Rearranged (keep (k, v) r) (absent, d) =
    (All-Rearranged (λ p. p.0 ≢ k) r absent, Distinct-Rearranged r d)
Distinct-Rearranged (swap (k, v) (j, w)) ((ne, absent), (absent', d)) =
    (((λ e. ne (sym e)), absent'), (absent, d))
Distinct-Rearranged (both r r') d = Distinct-Rearranged r' (Distinct-Rearranged r d)

Absent-emplace :
    (key value k : Bytes) (pairs : Pairs)
    → key ≢ k
    → Absent k pairs
    → Absent k (emplace key value pairs)
unfolding emplace
Absent-emplace key value k [] ne h = (ne, tt)
Absent-emplace key value k ((j, v) ∷ pairs) ne (here, h) = elim (Bool-cases (bytes_eq j key)) [
  | inl same ↦ rw same (here, h)
  | inr other ↦ rw other (here, Absent-emplace key value k pairs ne h)
]

Distinct-emplace :
    (key value : Bytes) (pairs : Pairs) → Distinct pairs → Distinct (emplace key value pairs)
unfolding emplace
Distinct-emplace key value [] d = (tt, tt)
Distinct-emplace key value ((k, v) ∷ pairs) (absent, d) = elim (bytes_eq-cases k key) [
  | inl same ↦ rw (same, bytes_eq_self key) (rw same at absent, d)
  | inr (differ, ne) ↦ rw differ (
    Absent-emplace key value k pairs (λ e. ne (sym e)) absent,
    Distinct-emplace key value pairs d,
  )
]

pub expected_loop-Distinct :
    (rounds index : ℕ) (pairs : Pairs)
    → Distinct pairs
    → Distinct (expected_loop rounds index pairs)
unfolding expected_loop
expected_loop-Distinct zero index pairs d = d
expected_loop-Distinct (suc rounds) index pairs d =
    expected_loop-Distinct rounds (index + 1) _ (Distinct-emplace _ _ pairs d)

values-Absent :
    (pairs : Pairs) (m : Bytes → Option Bytes) (key : Bytes)
    → Absent key pairs
    → values m (puts pairs) key ≡ m key
unfolding values stored
values-Absent [] m key h = refl
values-Absent ((k, v) ∷ pairs) m key (ne, h) = elim (bytes_eq-cases k key) [
  | inl same ↦ absurd (ne same)
  | inr (differ, _) ↦ values-Absent pairs _ key h ∙ rw differ refl
]

-- The records of pairs with distinct keys stand for these pairs.
pub values-puts :
    (pairs : Pairs) (m : Bytes → Option Bytes)
    → Distinct pairs
    → All (λ p. values m (puts pairs) p.0 ≡ some p.1) pairs
unfolding values stored
values-puts [] m d = tt
values-puts ((k, v) ∷ pairs) m (absent, d) = (
  values-Absent pairs _ k absent ∙ rw (bytes_eq_self k) refl,
  values-puts pairs (stored put k v m) d,
)
