-- ===== src/Clh/MutexEpfl.antt =====
-- `clhepfl_mutex_lock`, `clhepfl_mutex_trylock` and `clhepfl_mutex_unlock` of clhepfl.c. The wait is a
-- plain spin, and the tail is compared with NULL before it.
use shfllock.Base.{ℕ, List, ◌==◌, if◌then◌else◌, true}
use shfllock.Atomic.{locked, unlocked}
use shfllock.Clh.Memory.{Ptr, null, ClhMutex, set_head, set_tail, set_spin, set_current, create}
use shfllock.Protocol.Code.{Code, Next, go, acquired, released, aborted}
use shfllock.Protocol.Wrapper
use shfllock.Protocol.Wrapper.{Posix}

pub data Pc : Type 0 where
  lock_spin : Pc  -- `p->spin = LOCKED`
  swap_tail : Pc
  spin : (pred : Ptr) → Pc
  store_head : (pred : Ptr) → Pc
  take_node : (pred : Ptr) → Pc  -- `me->current = pred`
  try_assert : Pc  -- `trylock`: `assert(0)`
  read_head : Pc  -- `unlock`
  wake : (head : Ptr) → Pc

unfoldable pub step : ℕ → Unit {0} → ClhMutex → Pc → ClhMutex × Next Pc
step i y m lock_spin = (set_spin m (m.current i) locked, go swap_tail)
step i y m swap_tail =
    (set_tail m (m.current i), if m.tail == null then acquired else go (spin m.tail))
step i y m (spin pred) = (m, if m.spin pred == locked then go (spin pred) else go (store_head pred))
step i y m (store_head pred) = (set_head m (m.current i), go (take_node pred))
step i y m (take_node pred) = (set_current m i pred, acquired)
step i y m try_assert = (m, aborted)
step i y m read_head = (m, go (wake m.head))
step i y m (wake head) = (set_spin m head unlocked, released)

unfoldable pub clhepfl : Code ClhMutex Pc (Unit {0})
unfolding step
clhepfl = record {
  lock_entry = lock_spin;
  trylock_entry = try_assert;
  unlock_entry = read_head;
  release_entry = read_head;
  step = step;
  trylock_asserts = true;
  on_locked = λ i y m. m;
}

-- A schedule of `n` threads that use one such mutex and its condition variables.
unfoldable pub mutex :
    {X : Type 0} → Posix X → ℕ → List (Wrapper.Event (Unit {0})) → Wrapper.State ClhMutex Pc X
unfolding clhepfl create Wrapper.run
mutex px n es = Wrapper.run clhepfl px n es (Wrapper.start create px)
