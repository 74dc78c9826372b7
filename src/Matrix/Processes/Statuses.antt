-- ===== src/Matrix/Processes/Statuses.antt =====
-- The two tests of apps/matrix/utils.cpp on the status of a child.
use zidanedb.Base.{ℕ, ◌≡◌, ◌↔◌, refl, ap, true, ==→eq, eq→==}
use zidanedb.Matrix.Processes.{Status, exited, signaled, stopped, has_ended, by_sigkill}

-- A status with which a process is gone: it exited, or a signal killed it.
pub data Ended : Status → Type 0 where
  exits : (code : ℕ) → Ended (exited code)
  dies : (signal : ℕ) → Ended (signaled signal)

stopped-Ended : {s : Status} {n : ℕ} → Ended s → s ≡ stopped n → ⊥
stopped-Ended (exits code) e = cc
stopped-Ended (dies signal) e = cc

pub has_ended-Ended : (s : Status) → (has_ended s ≡ true) ↔ Ended s
unfolding has_ended
has_ended-Ended (exited code) = (λ e. exits code, λ e. refl)
has_ended-Ended (signaled signal) = (λ e. dies signal, λ e. refl)
has_ended-Ended (stopped signal) = (λ e. cc, λ e. absurd (stopped-Ended e refl))

signal-same : {n : ℕ} {s : Status} → s ≡ signaled n → (m : ℕ) → s ≡ signaled m → n ≡ m
signal-same e m f = cc

pub by_sigkill-signaled : (s : Status) → (by_sigkill s ≡ true) ↔ (s ≡ signaled 9)
unfolding by_sigkill
by_sigkill-signaled (exited code) = (λ e. cc, λ e. cc)
by_sigkill-signaled (signaled n) =
    (λ e. ap signaled (==→eq n 9 e), λ e. eq→== n 9 (signal-same refl 9 e))
by_sigkill-signaled (stopped n) = (λ e. cc, λ e. cc)
