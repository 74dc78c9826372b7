-- ===== src/Matrix/Utils.antt =====
-- apps/matrix/utils.cpp: random strings and the directory of the crash test; and `std::to_string`,
-- which the tests name their keys with. The random engine with the
-- distribution on it is a function of the two bounds of the distribution and of the number of picks
-- that were taken from the engine before.
pub mod Keys
use zidanedb.Base.{ℕ, zero, suc, ◌+◌, ◌-◌, ◌/◌, ◌%◌, [], ◌∷◌, ltb, if◌then◌else◌, get_or, length}
use zidanedb.Base.Results.{
  Result, ok, throws, temporary_directory_error, no_unique_temporary_directory,
}
use zidanedb.Constants.{codes}
use zidanedb.Stream.{Bytes}
use zidanedb.Database.{CreateDirectory, made, taken, failed}

unfoldable pub characters : Bytes
characters = codes "abcdefghijklmnopqrstuvwxyzABCDEFGHIJKLMNOPQRSTUVWXYZ0123456789"

-- What `std::uniform_int_distribution{low, high}` gives at the next call with the engine.
abbrev pub Picks : Type 0
Picks = (low high taken_picks : ℕ) → ℕ

-- `pick(random_engine)`, and the number of picks taken then.
unfoldable pub pick : Picks → (taken_picks : ℕ) → ℕ × ℕ
unfolding characters
pick picks n = (picks 0 (length characters - 1) n, n + 1)

-- The loop of `random_string`, with the number of characters that are left to pick: the characters
-- that it appends, and the number of picks taken behind it.
unfoldable pub random_loop : Picks → (taken_picks rounds : ℕ) → Bytes × ℕ
unfolding pick characters
random_loop picks n zero = ([], n)
random_loop picks n (suc rounds) =
    let (index, n') = pick picks n in
    let (behind, n'') = random_loop picks n' rounds in (get_or characters index 0 ∷ behind, n'')

unfoldable pub random_string : Picks → (taken_picks length : ℕ) → Bytes × ℕ
unfolding random_loop
random_string picks n length = random_loop picks n length

-- An existing name is only a collision, so the loop tries another candidate.
abbrev pub on_candidate : CreateDirectory → (attempt : ℕ) → (retry : Result ℕ) → Result ℕ
on_candidate made attempt retry = ok attempt
on_candidate taken attempt retry = retry
on_candidate failed attempt retry = throws temporary_directory_error

-- The constructor of `TemporaryDirectory`, with the attempts that are left: the attempt whose
-- candidate was made.
unfoldable pub temporary_directory_loop : ℕ → (ℕ → CreateDirectory) → (attempt : ℕ) → Result ℕ
temporary_directory_loop zero create attempt = throws no_unique_temporary_directory
temporary_directory_loop (suc left) create attempt =
    on_candidate (create attempt) attempt (temporary_directory_loop left create (attempt + 1))

unfoldable pub temporary_directory : (ℕ → CreateDirectory) → Result ℕ
unfolding temporary_directory_loop
temporary_directory create = temporary_directory_loop 100 create 0

-- The decimal digits of a number before others; a number has no more digits than itself and one.
unfoldable pub digits : (fuel n : ℕ) → Bytes → Bytes
digits zero n acc = acc
digits (suc fuel) n acc =
    let rest = digits fuel (n / 10) ((48 + n % 10) ∷ acc) in
    if ltb n 10 then (48 + n % 10) ∷ acc else rest

unfoldable pub to_string : ℕ → Bytes
unfolding digits
to_string n = digits (suc n) n []
