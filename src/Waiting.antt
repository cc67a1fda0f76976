-- ===== src/Waiting.antt =====
-- ulocks/src/waiting_policy.h: how a thread waits until an int becomes UNLOCKED, and how it is woken.
use shfllock.Base.{
  ℕ, suc, ◌≡◌, ◌≢◌, Bool, true, Option, none, some, arith, ◌==◌, ltb, if◌then◌else◌,
}
use shfllock.Atomic.{locked, unlocked, cas}

-- The build picks one of them.
pub data Policy : Type 0 where
  spinlock spinlock_atomic spin_then_park park : Policy

-- What FUTEX_WAIT answers: 0, EINTR or EAGAIN, or nothing yet.
pub data Futex : Type 0 where
  woken interrupted again asleep : Futex

abbrev pub spinning_threshold : ℕ
spinning_threshold = 2700

-- Where a thread stands in `waiting_policy_sleep`.
pub data Pc : Type 0 where
  spin : Pc  -- `while (*var == LOCKED)`
  swap : Pc  -- the compare-and-swap of WAITING_SPINLOCK_ATOMIC
  count : (i : ℕ) → Pc  -- the spin with a threshold
  test : Pc  -- `if (*var == UNLOCKED) return`
  futex : Pc
  settle : Pc  -- `while (*var != UNLOCKED)`

abbrev pub entry : Policy → Pc
entry spinlock = spin
entry spinlock_atomic = swap
entry spin_then_park = count 0
entry park = futex

abbrev answered : Futex → Pc
answered woken = settle
answered interrupted = futex
answered again = settle
answered asleep = futex

-- One step on `*var`: what it leaves there, and where the thread stands; `none` when it returns.
unfoldable pub sleep_step : Futex → ℕ → Pc → ℕ × Option Pc
sleep_step y var spin = (var, if var == locked then some spin else none)
sleep_step y var swap = (cas var unlocked locked, if var == locked then some swap else none)
sleep_step y var (count i) = (
  var,
  if ltb i spinning_threshold
      then (if var == unlocked then some test else some (count (suc i)))
      else some test,
)
sleep_step y var test = (var, if var == unlocked then none else some futex)
sleep_step y var futex = (var, some (answered y))
sleep_step y var settle = (var, if var == unlocked then none else some settle)

-- `waiting_policy_wake` on `*var`: what it leaves there, and whether its assert holds.
unfoldable pub wake_step : Policy → ℕ → ℕ × Bool
wake_step spinlock var = (unlocked, true)
wake_step spinlock_atomic var = (cas var locked unlocked, var == 0)
wake_step spin_then_park var = (unlocked, true)
wake_step park var = (unlocked, true)

-- A wait ends only where the variable was not LOCKED, and writes to it only then.
pub sleep_step-wait :
    (y : Futex) (var : ℕ) (p q : Pc)
    → (sleep_step y var p).1 ≡ some q
    → (sleep_step y var p).0 ≡ var
unfolding sleep_step
sleep_step-wait y var p q e = ground arith

pub sleep_step-return :
    (y : Futex) (var : ℕ) (p : Pc) → (sleep_step y var p).1 ≡ none → var ≢ locked
unfolding sleep_step
sleep_step-return y var p e = ground arith

pub wake_step-locked :
    (w : Policy) → ((wake_step w locked).0 ≡ unlocked) × ((wake_step w locked).1 ≡ true)
unfolding wake_step
wake_step-locked w = ground arith
