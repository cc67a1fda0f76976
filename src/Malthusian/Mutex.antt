-- ===== src/Malthusian/Mutex.antt =====
-- `malthusian_mutex_lock`, `malthusian_mutex_trylock` and `malthusian_mutex_unlock` of malthusian.c,
-- one shared access at a time. `me->next` is read together with what it points to: who unlocks waits
-- until it is there, and nobody else writes it then.
use shfllock.Base.{ℕ, Option, none, some, List, ◌==◌, if◌then◌else◌, assign, true}
use shfllock.Atomic.{locked, cas}
use shfllock.Aqs.Memory.{xor_random}
use shfllock.Waiting.{Policy, Futex, entry, sleep_step, wake_step}
use shfllock.Waiting
use shfllock.Malthusian.Memory.{
  Ptr, null, node_of, MalthusianMutex, set_tail, set_next, set_spin, passive_set_pop_back,
  passive_set_pop_front, passive_set_push_front, create,
}
use shfllock.Protocol.Code.{Code, Next, go, acquired, busy, released, aborted}
use shfllock.Protocol.Wrapper
use shfllock.Protocol.Wrapper.{Posix}

pub data Pc : Type 0 where
  prepare : Pc  -- the stores to `me`, which no other thread can see yet
  swap_tail : Pc
  link : (tail : Ptr) → Pc
  sleep : Waiting.Pc → Pc
  try_prepare : Pc
  try_swap : Pc
  random : Pc  -- `unlock`
  pop_back : Pc
  insert_tail : (elem : Ptr) → Pc  -- `__malthusian_insert_at_head`: the compare-and-swap
  insert_last : (elem : Ptr) → Pc
  insert_wait : (elem : Ptr) → Pc
  insert_next : (elem : Ptr) → Pc
  has_next : Pc
  pop_front : Pc
  clear_tail : Pc
  wait_next : Pc
  surplus : Pc  -- `if (me->next != impl->tail)`
  wait_second : Pc
  push_front : Pc
  relink : (new_next : Ptr) → Pc
  read_next : Pc
  wake : (next : Ptr) → Pc

abbrev pub slept : Option Waiting.Pc → Next Pc
slept none = acquired
slept (some p) = go (sleep p)

module _ (w : Policy) where
  unfoldable pub step : ℕ → Futex → MalthusianMutex → Pc → MalthusianMutex × Next Pc
  unfolding sleep_step wake_step xor_random passive_set_pop_back passive_set_pop_front
      passive_set_push_front
  step i y m prepare = (set_spin (set_next m (node_of i) null) (node_of i) locked, go swap_tail)
  step i y m swap_tail =
      (set_tail m (node_of i), if m.tail == null then acquired else go (link m.tail))
  step i y m (link tail) = (set_next m tail (node_of i), go (sleep (entry w)))
  step i y m (sleep p) =
      let r = sleep_step y (m.spin (node_of i)) p in (set_spin m (node_of i) r.0, slept r.1)
  step i y m try_prepare = (set_spin (set_next m (node_of i) null) (node_of i) locked, go try_swap)
  step i y m try_swap =
      (set_tail m (cas m.tail null (node_of i)), if m.tail == null then acquired else busy)
  step i y m random =
      let r = xor_random i (m.rv i) in
      (record m { rv = assign m.rv i r.0 }, if r.1 == 0 then go pop_back else go has_next)
  step i y m pop_back =
      let r = passive_set_pop_back m in
      (r.0, if r.1 == null then go has_next else go (insert_tail r.1))
  step i y m (insert_tail elem) = (
    set_tail m (cas m.tail (node_of i) elem),
    if m.tail == node_of i then go (insert_last elem) else go (insert_wait elem),
  )
  step i y m (insert_last elem) = (set_next m (node_of i) elem, go read_next)
  step i y m (insert_wait elem) =
      if m.next (node_of i) == null
      then (m, go (insert_wait elem))
      else (set_next m elem (m.next (node_of i)), go (insert_next elem))
  step i y m (insert_next elem) = (set_next m (node_of i) elem, go read_next)
  step i y m has_next = (m, if m.next (node_of i) == null then go pop_front else go surplus)
  step i y m pop_front =
      let r = passive_set_pop_front m in
      (r.0, if r.1 == null then go clear_tail else go (insert_tail r.1))
  step i y m clear_tail = (
    set_tail m (cas m.tail (node_of i) null),
    if m.tail == node_of i then released else go wait_next,
  )
  step i y m wait_next = (m, if m.next (node_of i) == null then go wait_next else go read_next)
  step i y m surplus = (m, if m.next (node_of i) == m.tail then go read_next else go wait_second)
  step i y m wait_second =
      (m, if m.next (m.next (node_of i)) == null then go wait_second else go push_front)
  step i y m push_front =
      let elem = m.next (node_of i) in
      let new_next = m.next elem in (passive_set_push_front m elem, go (relink new_next))
  step i y m (relink new_next) = (set_next m (node_of i) new_next, go read_next)
  step i y m read_next = (m, go (wake (m.next (node_of i))))
  step i y m (wake next) =
      let r = wake_step w (m.spin next) in (set_spin m next r.0, if r.1 then released else aborted)

  unfoldable pub malthusian : Code MalthusianMutex Pc Futex
  unfolding step
  malthusian = record {
    lock_entry = prepare;
    trylock_entry = try_prepare;
    unlock_entry = random;
    release_entry = random;
    step = step;
    trylock_asserts = true;
    on_locked = λ i y m. m;
  }

-- A schedule of `n` threads that use one such mutex and its condition variables.
unfoldable pub mutex :
    {X : Type 0}
    → Policy
    → Posix X
    → ℕ
    → List (Wrapper.Event Futex)
    → Wrapper.State MalthusianMutex Pc X
unfolding malthusian create Wrapper.run
mutex w px n es = Wrapper.run (malthusian w) px n es (Wrapper.start create px)
