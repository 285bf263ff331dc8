-- ===== src/Runtime/Sockets/Waiting.antt =====
-- Waiting for a socket ends.
use ghost_media.Base.{ℕ, ◌+◌, ◌<◌, ◌≤◌, ◌≡◌, Bool, Option, none, some}
use ghost_media.Runtime.Process.{clock_now, select_on, Kernel, Process, M, ◌>>=◌}
use ghost_media.Runtime.Sockets.{Platform, or_zero, Waited, timeout, now, wait_from}

-- The time that the clock would show, and the state after it was asked.
abbrev time_of : {S : Type 0} → Kernel S → S → ℕ
time_of kernel s = or_zero (kernel s clock_now).0.result

abbrev asked : {S : Type 0} → Kernel S → S → S
asked kernel s = (kernel s clock_now).1

-- How the clock and `select` behave, for at most `signals` signals from a state on and a delay of
-- `late` microseconds at most: the clock does not go back; `select` gives 0 only after its whole
-- timeout, and returns by the end of it; and an interrupted wait has used up a signal.
pub record IsTimely {S : Type 0} (kernel : Kernel S) (platform : Platform) (signals : S → ℕ)
    (late : ℕ) : Type 0 where
  pub clock_on : (s : S) → time_of kernel s ≤ time_of kernel (asked kernel s)
  pub clock_soon : (s : S) → time_of kernel (asked kernel s) ≤ time_of kernel s + late
  pub clock_quiet : (s : S) → signals (asked kernel s) ≤ signals s
  pub expires :
      (s : S) (d timeout_us : ℕ) (writable : Bool)
      → (kernel s (select_on d writable timeout_us)).0.result ≡ some 0
      → time_of kernel s + timeout_us
        ≤ time_of kernel (kernel s (select_on d writable timeout_us)).1
  pub returns :
      (s : S) (d timeout_us : ℕ) (writable : Bool)
      → time_of kernel (kernel s (select_on d writable timeout_us)).1
        ≤ time_of kernel s + timeout_us + late
  pub interrupted :
      (s : S) (d timeout_us : ℕ) (writable : Bool)
      → (kernel s (select_on d writable timeout_us)).0.result ≡ none
      → (kernel s (select_on d writable timeout_us)).0.errno ≡ platform.eintr
      → signals (kernel s (select_on d writable timeout_us)).1 < signals s

-- The wait ended, not later than `bound`, and with a timeout only once the deadline has passed.
pub record Ended {S : Type 0} (kernel : Kernel S) (deadline bound : ℕ)
    (o : Option (Waited × Process S)) : Type 0 where
  pub waited : Waited
  pub process : Process S
  pub ended : o ≡ some (waited, process)
  pub passed : waited.result ≡ timeout → deadline ≤ time_of kernel process.os
  pub soon : time_of kernel process.os ≤ bound

module _ {S : Type 0} (kernel : Kernel S) (platform : Platform) (signals : S → ℕ) (late : ℕ)
    (timely : IsTimely kernel platform signals late) where
  abbrev wait_now : (fuel d : ℕ) → Bool → (deadline code : ℕ) → M S Waited
  wait_now fuel d writable deadline code =
      now kernel >>= λ time. wait_from kernel platform fuel d writable deadline code time
