-- ===== src/Mcs/MutexEpfl.antt =====
-- `mcsepfl_mutex_lock`, `mcsepfl_mutex_trylock` and `mcsepfl_mutex_unlock` of mcsepfl.c. The word to
-- wait on is set behind the swap of the tail, and the wait is a plain spin.
use shfllock.Base.{ℕ, List, ◌==◌, if◌then◌else◌, true}
use shfllock.Atomic.{locked, unlocked, cas}
use shfllock.Mcs.Memory.{Ptr, null, node_of, McsMutex, set_tail, set_next, set_spin, create}
use shfllock.Protocol.Code.{Code, Next, go, acquired, busy, released}
use shfllock.Protocol.Wrapper
use shfllock.Protocol.Wrapper.{Posix}

pub data Pc : Type 0 where
  prepare : Pc  -- `me->next = 0`
  swap_tail : Pc
  lock_spin : (tail : Ptr) → Pc  -- `me->spin = LOCKED`
  link : (tail : Ptr) → Pc
  spin : Pc
  try_prepare : Pc
  try_swap : Pc
  has_next : Pc  -- `unlock`
  clear_tail : Pc
  wait_next : Pc
  wake : (succ : Ptr) → Pc

unfoldable pub step : ℕ → Unit {0} → McsMutex → Pc → McsMutex × Next Pc
step i y m prepare = (set_next m (node_of i) null, go swap_tail)
step i y m swap_tail =
    (set_tail m (node_of i), if m.tail == null then acquired else go (lock_spin m.tail))
step i y m (lock_spin tail) = (set_spin m (node_of i) locked, go (link tail))
step i y m (link tail) = (set_next m tail (node_of i), go spin)
step i y m spin = (m, if m.spin (node_of i) == unlocked then acquired else go spin)
step i y m try_prepare = (set_next m (node_of i) null, go try_swap)
step i y m try_swap =
    (set_tail m (cas m.tail null (node_of i)), if m.tail == null then acquired else busy)
step i y m has_next =
    let succ = m.next (node_of i) in (m, if succ == null then go clear_tail else go (wake succ))
step i y m clear_tail = (
  set_tail m (cas m.tail (node_of i) null),
  if m.tail == node_of i then released else go wait_next,
)
step i y m wait_next =
    let succ = m.next (node_of i) in (m, if succ == null then go wait_next else go (wake succ))
step i y m (wake succ) = (set_spin m succ unlocked, released)

unfoldable pub mcsepfl : Code McsMutex Pc (Unit {0})
unfolding step
mcsepfl = record {
  lock_entry = prepare;
  trylock_entry = try_prepare;
  unlock_entry = has_next;
  release_entry = has_next;
  step = step;
  trylock_asserts = true;
  on_locked = λ i y m. m;
}

-- A schedule of `n` threads that use one such mutex and its condition variables.
unfoldable pub mutex :
    {X : Type 0} → Posix X → ℕ → List (Wrapper.Event (Unit {0})) → Wrapper.State McsMutex Pc X
unfolding mcsepfl create Wrapper.run
mutex px n es = Wrapper.run mcsepfl px n es (Wrapper.start create px)
