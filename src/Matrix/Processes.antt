-- ===== src/Matrix/Processes.antt =====
-- `ChildProcess` of apps/matrix/utils.h and utils.cpp. What the system answers to the calls of
-- `waitpid` that are still to come, with the clock behind each, is a list; where it ends, the system
-- does not answer any more. The milliseconds of the sleep between two calls are the clock's.
pub mod Reaping
pub mod Statuses
use zidanedb.Base.{
  ℕ, zero, suc, ◌+◌, Option, none, some, List, [], ◌∷◌, Bool, true, false, ◌==◌, ◌||◌, leb,
  if◌then◌else◌,
}
use zidanedb.Base.Results.{Result, ok, diverges}

-- A `pid_t` is a signed number; `negsuc n` is -(n + 1).
pub data ℤ : Type 0 where
  pos : ℕ → ℤ
  negsuc : ℕ → ℤ

-- `pid_ <= 0`
unfoldable pub not_positive : ℤ → Bool
not_positive (pos n) = n == 0
not_positive (negsuc n) = true

-- What `waitpid` stores in `status`.
pub data Status : Type 0 where
  exited : (code : ℕ) → Status
  signaled : (signal : ℕ) → Status
  stopped : (signal : ℕ) → Status

-- What `waitpid` returns: the child's id, zero, or -1 with `errno` EINTR or another.
pub data Answer : Type 0 where
  changed : Status → Answer
  unchanged interrupted failed : Answer

pub data WaitOutcome : Type 0 where
  state_changed timed_out error : WaitOutcome

-- The object, the number of SIGKILLs that it sent, and the system's answers to come.
pub record ChildProcess : Type 0 where
  pub pid : ℤ
  pub reaped : Bool
  pub kills : ℕ
  pub answers : List (Answer × ℕ)

-- The constructor; `none` is `std::invalid_argument`.
unfoldable pub child_process : ℤ → List (Answer × ℕ) → Option ChildProcess
unfolding not_positive
child_process pid answers =
    if not_positive pid
    then none
    else some (record { pid = pid; reaped = false; kills = 0; answers = answers })

abbrev pub sigkill : ℕ
sigkill = 9

-- `do { result = waitpid(...); } while (result == -1 && errno == EINTR)`: the answer that ends the
-- loop, and those behind it
unfoldable pub wait_loop : List (Answer × ℕ) → Result (Answer × List (Answer × ℕ))
wait_loop [] = diverges
wait_loop ((interrupted, now) ∷ rest) = wait_loop rest
wait_loop ((changed status, now) ∷ rest) = ok (changed status, rest)
wait_loop ((unchanged, now) ∷ rest) = ok (unchanged, rest)
wait_loop ((failed, now) ∷ rest) = ok (failed, rest)

-- `WIFSIGNALED(status) && WTERMSIG(status) == SIGKILL`
unfoldable pub by_sigkill : Status → Bool
by_sigkill (exited code) = false
by_sigkill (signaled signal) = signal == sigkill
by_sigkill (stopped signal) = false

-- `kill_and_reap` behind its loop.
unfoldable pub reap :
    ChildProcess → Result (Answer × List (Answer × ℕ)) → Result Bool × ChildProcess
unfolding by_sigkill
reap c (ok (changed status, rest)) =
    (ok (by_sigkill status), record c { reaped = true; answers = rest })
reap c (ok (unchanged, rest)) = (ok false, record c { answers = rest })
reap c (ok (interrupted, rest)) = (ok false, record c { answers = rest })
reap c (ok (failed, rest)) = (ok false, record c { answers = rest })
reap c _ = (diverges, c)

-- `kill_and_reap`, where `sent` says whether `kill` succeeds
unfoldable pub kill_and_reap : Bool → ChildProcess → Result Bool × ChildProcess
unfolding reap wait_loop
kill_and_reap sent c =
    if c.reaped
    then (ok true, c)
    else if sent
    then reap (record c { kills = c.kills + 1 }) (wait_loop c.answers)
    else (ok false, c)

abbrev cleaned :
    ChildProcess → Result (Answer × List (Answer × ℕ)) → Result (Unit {0}) × ChildProcess
cleaned c (ok (answer, rest)) = (ok tt, record c { reaped = true; answers = rest })
cleaned c _ = (diverges, c)

-- `cleanup`, which the destructor calls
unfoldable pub cleanup : Bool → ChildProcess → Result (Unit {0}) × ChildProcess
unfolding not_positive wait_loop
cleanup sent c =
    if c.reaped || not_positive c.pid
    then (ok tt, c)
    else cleaned (record c { kills = if sent then c.kills + 1 else c.kills }) (wait_loop c.answers)

-- `WIFEXITED(status) || WIFSIGNALED(status)`
unfoldable pub has_ended : Status → Bool
has_ended (exited code) = true
has_ended (signaled signal) = true
has_ended (stopped signal) = false

-- What `wait_for_state` returns, with the status that it stores and whether the child was reaped.
abbrev pub Waited : Type 0
Waited = WaitOutcome × Option Status × Bool

-- The loop of `wait_for_state`.
unfoldable pub poll_loop : (deadline : ℕ) → List (Answer × ℕ) → Result (Waited × List (Answer × ℕ))
unfolding has_ended
poll_loop deadline [] = diverges
poll_loop deadline ((changed status, now) ∷ rest) =
    ok ((state_changed, some status, has_ended status), rest)
poll_loop deadline ((failed, now) ∷ rest) = ok ((error, none, false), rest)
poll_loop deadline ((interrupted, now) ∷ rest) =
    if leb deadline now then ok ((timed_out, none, false), rest) else poll_loop deadline rest
poll_loop deadline ((unchanged, now) ∷ rest) =
    if leb deadline now then ok ((timed_out, none, false), rest) else poll_loop deadline rest

abbrev polled :
    ChildProcess
    → Result (Waited × List (Answer × ℕ))
    → Result (WaitOutcome × Option Status) × ChildProcess
polled c (ok ((outcome, status, reaped), rest)) =
    (ok (outcome, status), record c { reaped = reaped; answers = rest })
polled c _ = (diverges, c)

-- `wait_for_state`, where the clock shows `now` at its beginning
unfoldable pub wait_for_state :
    (now timeout : ℕ) → ChildProcess → Result (WaitOutcome × Option Status) × ChildProcess
unfolding poll_loop
wait_for_state now timeout c =
    if c.reaped then (ok (error, none), c) else polled c (poll_loop (now + timeout) c.answers)
