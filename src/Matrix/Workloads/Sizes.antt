-- ===== src/Matrix/Workloads/Sizes.antt =====
-- The sizes of the pairs that the tests make, and of the log and the index that hold them.
use zidanedb.Base.{
  ℕ, zero, suc, ◌+◌, ◌*◌, ◌≤◌, ◌≡◌, refl, [], ◌∷◌, ◌++◌, arith, length, All, bytes_eq, inl, inr,
  Bool-cases,
}
use zidanedb.Constants.{codes, max_key_size, max_value_size}
use zidanedb.Stream.{Bytes}
use zidanedb.Utils.{string_size}
use zidanedb.Record.RoundTrip.{Fits, record_size}
use zidanedb.Record.Sequence.{records_size}
use zidanedb.Database.Replay.{growth}
use zidanedb.Matrix.Utils.{to_string}
use zidanedb.Matrix.Utils.Keys.{pow10, length-to_string}
use zidanedb.Matrix.Workloads.{Pairs, emplace, expected_loop}
use zidanedb.Matrix.Workloads.Pairs.{puts, Rearranged, nothing, keep, swap, both}

-- Bounds for the sizes of a key and of a value.
abbrev pub Within : ℕ → ℕ → Pairs → Type 0
Within k v pairs = All (λ p. (length p.0 ≤ k) × (length p.1 ≤ v)) pairs

pub puts-Fits :
    (k v : ℕ) (pairs : Pairs)
    → k ≤ max_key_size
    → v ≤ max_value_size
    → Within k v pairs
    → All Fits (puts pairs)
puts-Fits k v [] k_le v_le h = tt
puts-Fits k v ((key, value) ∷ pairs) k_le v_le ((a, b), h) =
    (record { key = omega arith; value = omega arith }, puts-Fits k v pairs k_le v_le h)

pub records_size-puts :
    (k v : ℕ) (pairs : Pairs)
    → Within k v pairs
    → records_size (puts pairs) ≤ (13 + k + v) * length pairs
unfolding record_size string_size
records_size-puts k v [] h = omega arith
records_size-puts k v ((key, value) ∷ pairs) ((a, b), h) =
    let rest = records_size-puts k v pairs h in grind arith

pub growth-puts :
    (k v : ℕ) (pairs : Pairs) → Within k v pairs → growth (puts pairs) ≤ (20 + k) * length pairs
growth-puts k v [] h = omega arith
growth-puts k v ((key, value) ∷ pairs) ((a, b), h) =
    let rest = growth-puts k v pairs h in grind arith

pub length-Rearranged : {xs ys : Pairs} → Rearranged xs ys → length xs ≡ length ys
length-Rearranged nothing = refl
length-Rearranged (keep p r) = omega (arith, length-Rearranged r)
length-Rearranged (swap p q) = refl
length-Rearranged (both r r') = omega (arith, length-Rearranged r, length-Rearranged r')

emplace-Within :
    (k v : ℕ) (key value : Bytes) (pairs : Pairs)
    → length key ≤ k
    → length value ≤ v
    → Within k v pairs
    → Within k v (emplace key value pairs) × (length (emplace key value pairs) ≤ suc (length pairs))
unfolding emplace
emplace-Within k v key value [] a b h = (((a, b), tt), omega arith)
emplace-Within k v key value ((j, w) ∷ pairs) a b (here, h) =
    let (rest, size) = emplace-Within k v key value pairs a b h in
    elim (Bool-cases (bytes_eq j key)) [
      | inl same ↦ rw same ((here, h), omega arith)
      | inr other ↦ rw other ((here, rest), omega arith)
    ]

-- Up to ten thousand million pairs, keys have 14 bytes at most and values 16.
pub expected_loop-Within :
    (rounds index : ℕ) (pairs : Pairs)
    → index + rounds ≤ pow10 10
    → Within 14 16 pairs
    → Within 14 16 (expected_loop rounds index pairs)
      × (length (expected_loop rounds index pairs) ≤ length pairs + rounds)
unfolding expected_loop
expected_loop-Within zero index pairs lt h = (h, omega arith)
expected_loop-Within (suc rounds) index pairs lt h =
    let digits = length-to_string 9 index (omega arith) in
    let (added, size) =
      emplace-Within 14 16 (codes "key-" ++ to_string index) (codes "value-" ++ to_string index)
        pairs (omega arith) (omega arith) h in
    let (rest, size') = expected_loop-Within rounds (index + 1) _ (omega arith) added in
    (rest, omega arith)
