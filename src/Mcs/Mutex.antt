-- ===== src/Mcs/Mutex.antt =====
-- `mcs_mutex_lock`, `mcs_mutex_trylock` and `mcs_mutex_unlock` of mcs.c, one shared access at a time.
use shfllock.Base.{ℕ, Option, none, some, List, ◌==◌, if◌then◌else◌, true}
use shfllock.Atomic.{locked, cas}
use shfllock.Waiting.{Policy, Futex, entry, sleep_step, wake_step}
use shfllock.Waiting
use shfllock.Mcs.Memory.{Ptr, null, node_of, McsMutex, set_tail, set_next, set_spin, create}
use shfllock.Protocol.Code.{Code, Next, go, acquired, busy, released, aborted}
use shfllock.Protocol.Wrapper
use shfllock.Protocol.Wrapper.{Posix}

pub data Pc : Type 0 where
  prepare : Pc  -- the stores to `me`, which no other thread can see yet
  swap_tail : Pc
  link : (tail : Ptr) → Pc
  sleep : Waiting.Pc → Pc
  try_prepare : Pc
  try_swap : Pc
  has_next : Pc  -- `unlock`
  clear_tail : Pc
  wait_next : Pc
  read_next : Pc
  wake : (next : Ptr) → Pc

abbrev pub slept : Option Waiting.Pc → Next Pc
slept none = acquired
slept (some p) = go (sleep p)

module _ (w : Policy) where
  unfoldable pub step : ℕ → Futex → McsMutex → Pc → McsMutex × Next Pc
  unfolding sleep_step wake_step
  step i y m prepare = (set_spin (set_next m (node_of i) locked) (node_of i) 0, go swap_tail)
  step i y m swap_tail =
      (set_tail m (node_of i), if m.tail == null then acquired else go (link m.tail))
  step i y m (link tail) = (set_next m tail (node_of i), go (sleep (entry w)))
  step i y m (sleep p) =
      let r = sleep_step y (m.spin (node_of i)) p in (set_spin m (node_of i) r.0, slept r.1)
  step i y m try_prepare = (set_spin (set_next m (node_of i) 0) (node_of i) locked, go try_swap)
  step i y m try_swap =
      (set_tail m (cas m.tail null (node_of i)), if m.tail == null then acquired else busy)
  step i y m has_next = (m, if m.next (node_of i) == null then go clear_tail else go read_next)
  step i y m clear_tail = (
    set_tail m (cas m.tail (node_of i) null),
    if m.tail == node_of i then released else go wait_next,
  )
  step i y m wait_next = (m, if m.next (node_of i) == null then go wait_next else go read_next)
  step i y m read_next = (m, go (wake (m.next (node_of i))))
  step i y m (wake next) =
      let r = wake_step w (m.spin next) in (set_spin m next r.0, if r.1 then released else aborted)

  unfoldable pub mcs : Code McsMutex Pc Futex
  unfolding step
  mcs = record {
    lock_entry = prepare;
    trylock_entry = try_prepare;
    unlock_entry = has_next;
    release_entry = has_next;
    step = step;
    trylock_asserts = true;
    on_locked = λ i y m. m;
  }

-- A schedule of `n` threads that use one such mutex and its condition variables.
unfoldable pub mutex :
    {X : Type 0} → Policy → Posix X → ℕ → List (Wrapper.Event Futex) → Wrapper.State McsMutex Pc X
unfolding mcs create Wrapper.run
mutex w px n es = Wrapper.run (mcs w) px n es (Wrapper.start create px)
