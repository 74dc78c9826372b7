-- ===== src/Matrix/Processes/Reaping.antt =====
-- When the child process is reaped, and that the waits end.
use zidanedb.Base.{
  ℕ, ◌+◌, ◌≤◌, ◌<◌, ◌≡◌, ◌↔◌, refl, List, [], ◌∷◌, Option, none, some, Bool, true, false, leb,
  arith, inl, inr, ◌⊎◌, Bool-cases, if◌then◌else◌,
}
use zidanedb.Base.Results.{ok}
use zidanedb.Matrix.Processes.Statuses.{Ended, has_ended-Ended, by_sigkill-signaled}
use zidanedb.Matrix.Processes.{
  ChildProcess, Status, Answer, changed, unchanged, interrupted, failed, WaitOutcome, state_changed,
  timed_out, error, by_sigkill, wait_loop, reap, kill_and_reap, cleanup, poll_loop, wait_for_state,
  has_ended, signaled,
}

-- Once the child is reaped, its id may belong to another process: the methods send no signal and
-- wait for nothing, `kill_and_reap` returns true and `wait_for_state` an error.
pub reaped_lem :
    (sent : Bool) (now timeout : ℕ) (c : ChildProcess)
    → c.reaped ≡ true
    → (kill_and_reap sent c ≡ (ok true, c))
      × (cleanup sent c ≡ (ok tt, c))
      × (wait_for_state now timeout c ≡ (ok (error, none), c))
unfolding kill_and_reap cleanup wait_for_state
reaped_lem sent now timeout c e = (rw e refl, rw e refl, rw e refl)

-- Answers that were all cut off by a signal, at these times.
abbrev pub interruptions : List ℕ → List (Answer × ℕ) → List (Answer × ℕ)
interruptions [] answers = answers
interruptions (t ∷ times) answers = (interrupted, t) ∷ interruptions times answers

wait_loop-interruptions :
    (times : List ℕ) (answers : List (Answer × ℕ))
    → wait_loop (interruptions times answers) ≡ wait_loop answers
unfolding wait_loop
wait_loop-interruptions [] answers = refl
wait_loop-interruptions (t ∷ times) answers = wait_loop-interruptions times answers

-- Where the child is not reaped yet, SIGKILL can be sent, and `waitpid` is cut off by signals any
-- number of times before it reports a status, `kill_and_reap` returns true exactly where the
-- status is that of a child killed by signal 9; the signal was sent once, and the child is reaped.
pub kill_and_reap-interruptions :
    (times : List ℕ) (status : Status) (now : ℕ) (rest : List (Answer × ℕ)) (c : ChildProcess)
    → c.reaped ≡ false
    → c.answers ≡ interruptions times ((changed status, now) ∷ rest)
    → (killed : Bool) × (kill_and_reap true c
        ≡ (ok killed, record c { kills = c.kills + 1; reaped = true; answers = rest }))
      × ((killed ≡ true) ↔ (status ≡ signaled 9))
unfolding kill_and_reap wait_loop reap
kill_and_reap-interruptions times status now rest c e answers = (
  by_sigkill status,
  rw (e, answers, wait_loop-interruptions times ((changed status, now) ∷ rest)) refl,
  by_sigkill-signaled status,
)

-- Some answer of the system comes when the deadline has passed.
abbrev pub Passes : ℕ → List (Answer × ℕ) → Type 0
Passes deadline [] = ⊥
Passes deadline ((answer, now) ∷ rest) = (deadline ≤ now) ⊎ Passes deadline rest

some_status : {s s' : Status} → some s ≡ some s' → s ≡ s'
some_status h = cc

-- An end without a status reaps nothing.
never :
    (◌≡◌ {A = Bool} false true) ↔ ((s : Status) × (◌≡◌ {A = Option Status} none (some s)) × Ended s)
never = (λ e. cc, λ (s, e, h). cc)

later : {deadline now : ℕ} {P : Type 0} → leb deadline now ≡ false → (deadline ≤ now) ⊎ P → P
later early (inl h) = absurd (ground arith)
later early (inr p) = p

-- An answer that tells nothing about the child.
pub data Quiet : Answer → Type 0 where
  no_change : Quiet unchanged
  cut_off : Quiet interrupted

-- What a wait up to a deadline comes to, with the answers that are left: the first answer that tells
-- something decides where it comes before the first one at the deadline, which ends the wait.
pub data Waits (deadline : ℕ)
    : List (Answer × ℕ) → WaitOutcome → Option Status → List (Answer × ℕ) → Type 0 where
  reports :
      (s : Status) (now : ℕ) (rest : List (Answer × ℕ))
      → Waits deadline ((changed s, now) ∷ rest) state_changed (some s) rest
  fails :
      (now : ℕ) (rest : List (Answer × ℕ)) → Waits deadline ((failed, now) ∷ rest) error none rest
  gives_up :
      {a : Answer} {now : ℕ} (rest : List (Answer × ℕ))
      → Quiet a
      → deadline ≤ now
      → Waits deadline ((a, now) ∷ rest) timed_out none rest
  goes_on :
      {a : Answer} {now : ℕ} {answers left : List (Answer × ℕ)} {outcome : WaitOutcome}
      {status : Option Status}
      → Quiet a
      → now < deadline
      → Waits deadline answers outcome status left
      → Waits deadline ((a, now) ∷ answers) outcome status left

leb-le : (m n : ℕ) → leb m n ≡ true → m ≤ n
leb-le m n h = ground arith

leb-lt : (m n : ℕ) → leb m n ≡ false → n < m
leb-lt m n h = ground arith

-- What the loop of a wait comes to.
abbrev Polls : ℕ → List (Answer × ℕ) → Type 0
Polls deadline answers =
    (outcome : WaitOutcome) × (status : Option Status) × (ended : Bool) × (rest : List (Answer × ℕ))
    × (poll_loop deadline answers ≡ ok ((outcome, status, ended), rest))
    × Waits deadline answers outcome status rest
    × ((ended ≡ true) ↔ ((s : Status) × (status ≡ some s) × Ended s))

poll_loop-Quiet :
    {a : Answer} (deadline now : ℕ) (rest : List (Answer × ℕ))
    → Quiet a
    → poll_loop deadline ((a, now) ∷ rest)
      ≡ (if leb deadline now then ok ((timed_out, none, false), rest) else poll_loop deadline rest)
unfolding poll_loop
poll_loop-Quiet deadline now rest no_change = refl
poll_loop-Quiet deadline now rest cut_off = refl

Quiet-Polls :
    {a : Answer} (deadline now : ℕ) (rest : List (Answer × ℕ))
    → Quiet a
    → (deadline ≤ now) ⊎ Passes deadline rest
    → (Passes deadline rest → Polls deadline rest)
    → Polls deadline ((a, now) ∷ rest)
Quiet-Polls deadline now rest quiet h polls =
    let step = poll_loop-Quiet deadline now rest quiet in
    elim (Bool-cases (leb deadline now)) [
      | inl late ↦ (
        timed_out,
        none,
        false,
        rest,
        rw (step, late) refl,
        gives_up rest quiet (leb-le deadline now late),
        never,
      )
      | inr early ↦
          let (outcome, status, ended, left, run, waits, exactly) = polls (later early h) in
          (
            outcome,
            status,
            ended,
            left,
            rw (step, early) run,
            goes_on quiet (leb-lt deadline now early) waits,
            exactly,
          )
    ]

poll_loop-Passes :
    (deadline : ℕ) (answers : List (Answer × ℕ)) → Passes deadline answers → Polls deadline answers
unfolding poll_loop
poll_loop-Passes deadline [] h = absurd h
poll_loop-Passes deadline ((changed s, now) ∷ rest) h = (
  state_changed,
  some s,
  has_ended s,
  rest,
  refl,
  reports s now rest,
  (
    λ e. (s, refl, (has_ended-Ended s).0 e),
    λ (s', same, e). (has_ended-Ended s).1 (rw (some_status same) e),
  ),
)
poll_loop-Passes deadline ((failed, now) ∷ rest) h =
    (error, none, false, rest, refl, fails now rest, never)
poll_loop-Passes deadline ((interrupted, now) ∷ rest) h =
    Quiet-Polls deadline now rest cut_off h (poll_loop-Passes deadline rest)
poll_loop-Passes deadline ((unchanged, now) ∷ rest) h =
    Quiet-Polls deadline now rest no_change h (poll_loop-Passes deadline rest)

-- Where the child is not reaped yet and some answer of `waitpid` comes when the deadline has passed,
-- `wait_for_state` returns, having sent no signal. What it returns is decided by the answers: a change
-- is reported with its status and a failure as an error, a wait without news ends with the first answer
-- that comes when the deadline has passed, and the answers behind the one that decides are left. The
-- child is reaped exactly where the reported status says that it exited or that a signal killed it, so
-- not where it was stopped or nothing was reported.
pub wait_for_state-returns :
    (now timeout : ℕ) (c : ChildProcess)
    → c.reaped ≡ false
    → Passes (now + timeout) c.answers
    → (outcome : WaitOutcome) × (status : Option Status) × (c' : ChildProcess) × (wait_for_state now
          timeout c
        ≡ (ok (outcome, status), c'))
      × Waits (now + timeout) c.answers outcome status c'.answers
      × (c'.kills ≡ c.kills)
      × ((c'.reaped ≡ true) ↔ ((s : Status) × (status ≡ some s) × Ended s))
unfolding wait_for_state
wait_for_state-returns now timeout c e passes =
    let (outcome, status, ended, rest, run, waits, exactly) =
      poll_loop-Passes (now + timeout) c.answers passes in
    (
      outcome,
      status,
      record c { reaped = ended; answers = rest },
      rw (e, run) refl,
      waits,
      refl,
      exactly,
    )
