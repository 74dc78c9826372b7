-- ===== src/Matrix/Workloads/Basic.antt =====
-- run_basic.
use zidanedb.Base.{
  ℕ, zero, suc, ◌+◌, ◌-◌, ◌*◌, ◌/◌, ◌%◌, ◌≤◌, ◌<◌, ◌≡◌, ◌≢◌, refl, sym, ap, ◌∙◌, none, [], ◌∷◌,
  ◌++◌, arith, length, length-append, ne→==, All, ltb, ◌==◌, if◌then◌else◌, bytes_eq, inl, inr,
  Bool-cases,
}
use zidanedb.Base.Results.{Result, ok, throws, diverges, stops_at}
use zidanedb.Base.Exec.{pure, continue, ◌>>◌}
use zidanedb.Constants.{codes}
use zidanedb.Stream.{Bytes}
use zidanedb.Record.{Crc32c}
use zidanedb.Database.{Database, DbExec, CreateDirectory, put, extension}
use zidanedb.Database.Opening.Created.{open_database-sized}
use zidanedb.Database.Opening.Reopened.{open_database-destroy}
use zidanedb.Matrix.Utils.{Picks, to_string, digits, random_string}
use zidanedb.Matrix.Utils.Keys.{pow10, length-to_string}
use zidanedb.Matrix.Workloads.{
  Pairs, Files, passed, no_files, emplace, missing_or_incorrect, put_all, basic_loop, run_basic,
  remove_files, in_database, passed_or_fail,
}
use zidanedb.Matrix.Workloads.Pairs.{Absent, Distinct, Rearranged, All-Rearranged, values-puts}
use zidanedb.Matrix.Workloads.Sizes.{Within, puts-Fits, records_size-puts, growth-puts}
use zidanedb.Matrix.Workloads.Passes.{put_all-Stores, verify_loop-Stores}
use zidanedb.Matrix.Workloads.Timed.{filename_loop-append, new_log}
use zidanedb.Matrix.Workloads.Large.{length-random_string, content}

-- The number in front of the first dash.
abbrev value_until : ℕ → Bytes → ℕ
value_until v [] = v
value_until v (b ∷ bs) = if b == 45 then v else value_until (v * 10 + (b - 48)) bs

value_until-digits :
    (fuel n : ℕ) (acc rest : Bytes)
    → n < fuel
    → value_until 0 (digits fuel n acc ++ rest) ≡ value_until n (acc ++ rest)
unfolding digits
value_until-digits zero n acc rest h = absurd (omega arith)
value_until-digits (suc fuel) n acc rest h = elim (Bool-cases (ltb n 10)) [
  | inl small ↦ rw small (digit (48 + n % 10) 0 n (acc ++ rest) (omega arith) (ground arith))
  | inr large ↦
      let ten : 10 ≤ n = ground arith in
      rw large (
        value_until-digits fuel (n / 10) ((48 + n % 10) ∷ acc) rest (omega arith)
        ∙ digit (48 + n % 10) (n / 10) n (acc ++ rest) (omega arith) (omega arith))
]
  where
    digit :
        (b v n : ℕ) (bs : Bytes)
        → 48 ≤ b
        → v * 10 + (b - 48) ≡ n
        → value_until v (b ∷ bs) ≡ value_until n bs
    digit b v n bs le e = rw (ne→== b 45 (omega arith), e) refl

abbrev basic_key : ℕ → Bytes → Bytes
basic_key i suffix = codes "key-" ++ (to_string i ++ (codes "-" ++ suffix))

basic_key-ne : (i j : ℕ) (s s' : Bytes) → i < j → basic_key j s' ≢ basic_key i s
unfolding to_string
basic_key-ne i j s s' lt e =
    let same : to_string j ++ (codes "-" ++ s') ≡ to_string i ++ (codes "-" ++ s) = cc in
    let equal =
      sym (value_until-digits (suc j) j [] (codes "-" ++ s') (omega arith))
      ∙ ap (value_until 0) same
      ∙ value_until-digits (suc i) i [] (codes "-" ++ s) (omega arith) in
    absurd (omega (arith, equal))

module _ (picks : Picks) where
  -- The two random strings of a round that starts behind `n` picks.
  abbrev suffix : ℕ → Bytes × ℕ
  suffix n = random_string picks n 12

  abbrev behind : ℕ → Bytes × ℕ
  behind n = random_string picks (suffix n).1 32

  -- The pairs that the loop puts, in their order.
  unfoldable basic_pairs : (rounds index n : ℕ) → Pairs
  basic_pairs zero index n = []
  basic_pairs (suc rounds) index n =
      (basic_key index (suffix n).0, (behind n).0) ∷ basic_pairs rounds (index + 1) (behind n).1

  basic_pairs-Absent :
      (i : ℕ) (s : Bytes) (rounds index n : ℕ)
      → i < index
      → Absent (basic_key i s) (basic_pairs rounds index n)
  unfolding basic_pairs
  basic_pairs-Absent i s zero index n lt = tt
  basic_pairs-Absent i s (suc rounds) index n lt = (
    basic_key-ne i index s (suffix n).0 lt,
    basic_pairs-Absent i s rounds (index + 1) (behind n).1 (omega arith),
  )

  basic_pairs-Distinct : (rounds index n : ℕ) → Distinct (basic_pairs rounds index n)
  unfolding basic_pairs
  basic_pairs-Distinct zero index n = tt
  basic_pairs-Distinct (suc rounds) index n = (
    basic_pairs-Absent index (suffix n).0 rounds (index + 1) (behind n).1 (omega arith),
    basic_pairs-Distinct rounds (index + 1) (behind n).1,
  )

  basic_pairs-Within :
      (rounds index n : ℕ)
      → index + rounds ≤ pow10 4
      → Within 21 32 (basic_pairs rounds index n) × (length (basic_pairs rounds index n) ≡ rounds)
  unfolding basic_pairs
  basic_pairs-Within zero index n lt = (tt, refl)
  basic_pairs-Within (suc rounds) index n lt =
      let (rest, size) = basic_pairs-Within rounds (index + 1) (behind n).1 (omega arith) in
      let digits = length-to_string 3 index (omega arith) in
      (
        (
          (
            omega (
              arith,
              digits,
              length-append (to_string index) (codes "-" ++ (suffix n).0),
              length-random_string picks n 12,
            ),
            omega (arith, length-random_string picks (suffix n).1 32),
          ),
          rest,
        ),
        omega (arith, size),
      )

-- The map behind the loop.
abbrev emplace_all : Pairs → Pairs → Pairs
emplace_all [] acc = acc
emplace_all ((k, v) ∷ pairs) acc = emplace_all pairs (emplace k v acc)

All-emplace :
    (P : Bytes × Bytes → Type 0) (k v : Bytes) (acc : Pairs)
    → P (k, v)
    → All P acc
    → All P (emplace k v acc)
unfolding emplace
All-emplace P k v [] here h = (here, tt)
All-emplace P k v ((j, w) ∷ acc) here (first, h) = elim (Bool-cases (bytes_eq j k)) [
  | inl same ↦ rw same (first, h)
  | inr other ↦ rw other (first, All-emplace P k v acc here h)
]

All-emplace_all :
    (P : Bytes × Bytes → Type 0) (pairs acc : Pairs)
    → All P pairs
    → All P acc
    → All P (emplace_all pairs acc)
All-emplace_all P [] acc h h' = h'
All-emplace_all P ((k, v) ∷ pairs) acc (here, h) h' =
    All-emplace_all P pairs (emplace k v acc) h (All-emplace P k v acc here h')

assoc :
    {A B C : Type 0} (r : Result A × Database) (f : DbExec B) (g : DbExec C)
    → continue r.0 (λ _. f >> g) r.1
      ≡ continue (continue r.0 (λ _. f) r.1).0 (λ _. g) (continue r.0 (λ _. f) r.1).1
assoc (ok a, d) f g = refl
assoc (throws e, d) f g = refl
assoc (diverges, d) f g = refl
assoc (stops_at name, d) f g = refl

module _ (crc : Crc32c) (create reopen_create : ℕ → CreateDirectory) (temporary : Bytes)
    (picks : Picks) where
  basic_loop-put_all :
      (rounds index n : ℕ) (acc : Pairs) (d : Database)
      → basic_loop crc create reopen_create temporary picks rounds index n acc d
        ≡ (put_all crc (basic_pairs picks rounds index n)
              >> pure (emplace_all (basic_pairs picks rounds index n) acc))
            d
  unfolding basic_loop put_all basic_pairs
  basic_loop-put_all zero index n acc d = refl
  basic_loop-put_all (suc rounds) index n acc d =
      let key = basic_key index (suffix picks n).0 in
      let value = (behind picks n).0 in
      let first = put crc key value d in
      let rest = basic_pairs picks rounds (index + 1) (behind picks n).1 in
      (λ i.
        continue first.0
          (λ _ d'.
            basic_loop-put_all rounds (index + 1) (behind picks n).1 (emplace key value acc) d' i)
          first.1)
      ∙ assoc first (put_all crc rest) (pure (emplace_all rest (emplace key value acc)))

  -- Where the iteration over a map only rearranges its pairs, `run_basic` returns 0 with nothing on
  -- the error stream, and leaves no files.
  pub run_basic-passes :
      (order : Pairs → Pairs) (f : Files)
      → ((pairs : Pairs) → Rearranged pairs (order pairs))
      → run_basic crc create reopen_create temporary picks order f ≡ (ok passed, no_files)
  unfolding run_basic in_database remove_files passed_or_fail extension
  run_basic-passes order f rearranges =
      let path = temporary ++ codes "/zidanedb-matrix-test.zdb" in
      let named : extension path ≡ codes ".zdb" =
        rw (filename_loop-append temporary [] (codes "zidanedb-matrix-test.zdb")) refl in
      let pairs = basic_pairs picks 10_000 0 0 in
      let (within, size) = basic_pairs-Within picks 10_000 0 0 (omega arith) in
      let entries = rw size at (growth-puts 21 32 pairs within) in
      let bytes = rw size at (records_size-puts 21 32 pairs within) in
      let (d0, s0, opened, report, buckets, length_le) =
        open_database-sized crc create 1_000_000 path named (omega arith) (omega arith) in
      let (d1, run, (s1, grown)) =
        put_all-Stores pairs (41 + 8 * 1_000_000) {d = d0} {rs = []} (s0, omega (arith, length_le))
          (puts-Fits 21 32 pairs (omega arith) (omega arith) within) (omega arith)
          (omega (arith, new_log crc)) in
      let (d2, reopened, s2, report') =
        open_database-destroy reopen_create 1_000_000 path s1 named (omega arith) in
      let all = values-puts pairs (λ key. none) (basic_pairs-Distinct picks 10_000 0 0) in
      let agree =
        All-Rearranged _ (rearranges (emplace_all pairs [])) (All-emplace_all _ pairs [] all tt) in
      rw
        (
          opened,
          basic_loop-put_all 10_000 0 0 [] d0,
          run,
          reopened,
          verify_loop-Stores missing_or_incorrect (order (emplace_all pairs [])) content s2 agree,
        )
        refl
