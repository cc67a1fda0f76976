-- ===== src/Clh/Mutex.antt =====
-- `clh_mutex_lock`, `clh_mutex_trylock` and `clh_mutex_unlock` of clh.c, one shared access at a time.
use shfllock.Base.{ℕ, Option, none, some, List, if◌then◌else◌, true}
use shfllock.Atomic.{locked}
use shfllock.Waiting.{Policy, Futex, entry, sleep_step, wake_step}
use shfllock.Waiting
use shfllock.Clh.Memory.{Ptr, ClhMutex, set_head, set_tail, set_spin, set_current, create}
use shfllock.Protocol.Code.{Code, Next, go, acquired, released, aborted}
use shfllock.Protocol.Wrapper
use shfllock.Protocol.Wrapper.{Posix}

pub data Pc : Type 0 where
  lock_spin : Pc  -- `p->spin = LOCKED`
  swap_tail : Pc
  sleep : (pred : Ptr) → Waiting.Pc → Pc
  store_head : (pred : Ptr) → Pc
  take_node : (pred : Ptr) → Pc  -- `me->current = pred`
  try_assert : Pc  -- `trylock`: `assert(0)`
  read_head : Pc  -- `unlock`
  wake : (head : Ptr) → Pc

abbrev pub slept : Ptr → Option Waiting.Pc → Next Pc
slept pred none = go (store_head pred)
slept pred (some p) = go (sleep pred p)

module _ (w : Policy) where
  unfoldable pub step : ℕ → Futex → ClhMutex → Pc → ClhMutex × Next Pc
  unfolding sleep_step wake_step
  step i y m lock_spin = (set_spin m (m.current i) locked, go swap_tail)
  step i y m swap_tail = (set_tail m (m.current i), go (sleep m.tail (entry w)))
  step i y m (sleep pred p) =
      let r = sleep_step y (m.spin pred) p in (set_spin m pred r.0, slept pred r.1)
  step i y m (store_head pred) = (set_head m (m.current i), go (take_node pred))
  step i y m (take_node pred) = (set_current m i pred, acquired)
  step i y m try_assert = (m, aborted)
  step i y m read_head = (m, go (wake m.head))
  step i y m (wake head) =
      let r = wake_step w (m.spin head) in (set_spin m head r.0, if r.1 then released else aborted)

  unfoldable pub clh : Code ClhMutex Pc Futex
  unfolding step
  clh = record {
    lock_entry = lock_spin;
    trylock_entry = try_assert;
    unlock_entry = read_head;
    release_entry = read_head;
    step = step;
    trylock_asserts = true;
    on_locked = λ i y m. m;
  }

-- A schedule of `n` threads that use one such mutex and its condition variables.
unfoldable pub mutex :
    {X : Type 0} → Policy → Posix X → ℕ → List (Wrapper.Event Futex) → Wrapper.State ClhMutex Pc X
unfolding clh create Wrapper.run
mutex w px n es = Wrapper.run (clh w) px n es (Wrapper.start create px)
