-- ===== src/Matrix/Utils/Keys.antt =====
-- The names that the tests make: two numbers have two texts, and the random strings.
use zidanedb.Base.{
  ℕ, zero, suc, ◌+◌, ◌-◌, ◌*◌, ◌/◌, ◌%◌, ◌≤◌, ◌<◌, ◌≡◌, refl, sym, ap, ◌∙◌, [], ◌∷◌, Bool, true,
  false, ◌==◌, ==→eq, if◌then◌else◌, ltb, leb, ◌&&◌, ◌||◌, lt→ltb, ◌≢◌, arith, length, All, get_or,
  inl, inr, Bool-cases,
}
use zidanedb.Base.Results.{
  Result, ok, throws, no_unique_temporary_directory, temporary_directory_error,
}
use zidanedb.Stream.{Bytes}
use zidanedb.Database.{CreateDirectory, made, taken, failed}
use zidanedb.Matrix.Utils.{
  Picks, Picks, characters, pick, random_loop, random_string, on_candidate,
  temporary_directory_loop, temporary_directory, digits, to_string,
}

-- The number that digits stand for, behind those of `v`.
abbrev value_from : ℕ → Bytes → ℕ
value_from v [] = v
value_from v (b ∷ bs) = value_from (v * 10 + (b - 48)) bs

value_from-digits :
    (fuel n : ℕ) (acc : Bytes) → n < fuel → value_from 0 (digits fuel n acc) ≡ value_from n acc
unfolding digits
value_from-digits zero n acc h = absurd (omega arith)
value_from-digits (suc fuel) n acc h = elim (Bool-cases (ltb n 10)) [
  | inl small ↦ rw small (ap (λ (v : ℕ). value_from v acc) (ground arith))
  | inr large ↦
      let ten : 10 ≤ n = ground arith in
      rw large (
        value_from-digits fuel (n / 10) ((48 + n % 10) ∷ acc) (omega arith)
        ∙ ap (λ (v : ℕ). value_from v acc) (omega arith))
]

pub to_string-injective : (i j : ℕ) → to_string i ≡ to_string j → i ≡ j
unfolding to_string
to_string-injective i j e =
    sym (value_from-digits (suc i) i [] (omega arith))
    ∙ ap (value_from 0) e
    ∙ value_from-digits (suc j) j [] (omega arith)

-- The powers of ten, and that a number below one of them has no more digits.
abbrev pub pow10 : ℕ → ℕ
pow10 zero = 1
pow10 (suc k) = 10 * pow10 k

length-digits :
    (fuel k n : ℕ) (acc : Bytes)
    → n < fuel
    → n < pow10 (suc k)
    → length (digits fuel n acc) ≤ suc k + length acc
unfolding digits
length-digits zero k n acc h lt = absurd (omega arith)
length-digits (suc fuel) zero n acc h lt =
    let one : ltb n 10 ≡ true = lt→ltb n 10 (omega arith) in rw one (omega arith)
length-digits (suc fuel) (suc k) n acc h lt = elim (Bool-cases (ltb n 10)) [
  | inl small ↦ rw small (omega arith)
  | inr large ↦
      let ten : 10 ≤ n = ground arith in
      rw large (
        omega
          (arith, length-digits fuel k (n / 10) ((48 + n % 10) ∷ acc) (omega arith) (omega arith)))
]

pub length-to_string : (k n : ℕ) → n < pow10 (suc k) → length (to_string n) ≤ suc k
unfolding to_string
length-to_string k n lt = omega (arith, length-digits (suc n) k n [] (omega arith) lt)

-- A letter or a digit.
abbrev pub is_alphanumeric : ℕ → Bool
is_alphanumeric b = (leb 48 b && leb b 57) || (leb 65 b && leb b 90) || (leb 97 b && leb b 122)

all_below : ℕ → (ℕ → Bool) → Bool
all_below zero p = true
all_below (suc n) p = p n && all_below n p

all_below-at : (n : ℕ) (p : ℕ → Bool) (x : ℕ) → all_below n p ≡ true → x < n → p x ≡ true
unfolding all_below
all_below-at zero p x h lt = absurd (omega arith)
all_below-at (suc n) p x h lt = ground (arith, all_below-at n p x)

plus_zero : (n : ℕ) → n + 0 ≡ n
plus_zero n = omega arith

shift : (n i : ℕ) → n + suc i ≡ n + 1 + i
shift n i = omega arith

-- The letter or digit that a number below 62 stands for: the small letters first, then the large
-- ones, then the digits.
abbrev pub letter : ℕ → ℕ
letter k = if ltb k 26 then 97 + k else if ltb k 52 then 39 + k else k - 4

characters_table :
    all_below 62 (λ k. is_alphanumeric (get_or characters k 0) && get_or characters k 0 == letter k)
    ≡ true
unfolding all_below characters
characters_table = refl

both : {a b : Bool} → a && b ≡ true → (a ≡ true) × (b ≡ true)
both {a = true} {b = true} h = (refl, refl)
both {a = true} {b = false} h = cc
both {a = false} h = cc

characters-letter :
    (k : ℕ)
    → k < 62
    → (is_alphanumeric (get_or characters k 0) ≡ true) × (get_or characters k 0 ≡ letter k)
characters-letter k lt =
    let (alphanumeric, same) = both (
      all_below-at 62
        (λ k. is_alphanumeric (get_or characters k 0) && get_or characters k 0 == letter k) k
        characters_table lt) in
    (alphanumeric, ==→eq (get_or characters k 0) (letter k) same)

-- The law of `std::uniform_int_distribution`: what it gives stands between its two bounds.
abbrev pub IsUniform : Picks → Type 0
IsUniform picks =
    (low high n : ℕ) → low ≤ high → (low ≤ picks low high n) × (picks low high n ≤ high)

-- Where the distribution gives numbers between its bounds, `random_string` behind n picks has the
-- length that was asked for and consists of letters and digits; it has taken one pick for each of them,
-- and its i-th character is the one of the 62 that the pick behind n + i others, out of 0 to 61, stands
-- for.
pub random_string_lem :
    (picks : Picks) (n len : ℕ)
    → IsUniform picks
    → (length (random_string picks n len).0 ≡ len)
      × All (λ b. is_alphanumeric b ≡ true) (random_string picks n len).0
      × ((random_string picks n len).1 ≡ n + len)
      × ((i : ℕ) → i < len → get_or (random_string picks n len).0 i 0 ≡ letter (picks 0 61 (n + i)))
unfolding random_string random_loop pick
random_string_lem picks n zero h = (refl, tt, omega arith, λ i lt. absurd (omega arith))
random_string_lem picks n (suc len) h =
    let (same, all, next, each) = random_string_lem picks (n + 1) len h in
    let bound : picks 0 61 n < 62 = omega (arith, (h 0 61 n (omega arith)).1) in
    let (alphanumeric, first) = characters-letter (picks 0 61 n) bound in
    (
      ap suc same,
      (alphanumeric, all),
      omega (arith, next),
      λ i lt. at_index picks n _ _ len first each i lt,
    )
  where
    at_index :
        (picks : Picks) (n c : ℕ) (s : Bytes) (len : ℕ)
        → c ≡ letter (picks 0 61 n)
        → ((i : ℕ) → i < len → get_or s i 0 ≡ letter (picks 0 61 (n + 1 + i)))
        → (i : ℕ) → i < suc len
        → get_or (c ∷ s) i 0 ≡ letter (picks 0 61 (n + i))
    at_index picks n c s len first each zero lt = rw (plus_zero n) first
    at_index picks n c s len first each (suc i) lt = rw (shift n i) (each i (omega arith))

-- What the first candidate that is not taken decides.
abbrev pub decided : ℕ → CreateDirectory → Result ℕ
decided k made = ok k
decided k taken = throws no_unique_temporary_directory
decided k failed = throws temporary_directory_error

zero_plus : (n : ℕ) → 0 + n ≡ n
zero_plus n = omega arith

loop-decided :
    (create : ℕ → CreateDirectory) (k left : ℕ) (attempt : ℕ)
    → ((i : ℕ) → i < k → create (attempt + i) ≡ taken)
    → create (attempt + k) ≢ taken
    → k < left
    → temporary_directory_loop left create attempt ≡ decided (attempt + k) (create (attempt + k))
unfolding temporary_directory_loop
loop-decided create k zero attempt before first lt = absurd (omega arith)
loop-decided create zero (suc left) attempt before first lt =
    let e : attempt + 0 ≡ attempt = omega arith in rw e (at_once (create attempt) (rw e at first))
  where
    at_once :
        (c : CreateDirectory)
        → c ≢ taken
        → on_candidate c attempt (temporary_directory_loop left create (attempt + 1))
          ≡ decided attempt c
    at_once made ne = refl
    at_once taken ne = absurd (ne refl)
    at_once failed ne = refl
loop-decided create (suc k) (suc left) attempt before first lt =
    let e : attempt + suc k ≡ attempt + 1 + k = omega arith in
    let zero_taken : create attempt ≡ taken = rw (plus_zero attempt) at (before 0 (omega arith)) in
    rw (zero_taken, e)
      (loop-decided create k left (attempt + 1)
        (λ i h. rw (shift attempt i) at (before (suc i) (omega arith))) (rw e at first)
        (omega arith))

-- Where one of the first hundred candidates is not taken, but those before it are, the
-- constructor of `TemporaryDirectory` takes that candidate, or throws where it cannot be made.
pub temporary_directory_lem :
    (create : ℕ → CreateDirectory) (k : ℕ)
    → ((i : ℕ) → i < k → create i ≡ taken)
    → create k ≢ taken
    → k < 100
    → temporary_directory create ≡ decided k (create k)
unfolding temporary_directory
temporary_directory_lem create k before first lt =
    rw (zero_plus k) at (
      loop-decided create k 100 0 (λ i h. rw (zero_plus i) (before i h)) (rw (zero_plus k) first)
        lt)
