-- ===== src/Alock/Mutex.antt =====
-- `alockepfl_mutex_lock`, `alockepfl_mutex_trylock` and `alockepfl_mutex_unlock` of alockepfl.c, one
-- shared access at a time.
use shfllock.Base.{ℕ, ◌+◌, ◌%◌, ◌^◌, List, ◌==◌, if◌then◌else◌, assign, false}
use shfllock.Atomic.{locked, unlocked}
use shfllock.Protocol.Code.{Code, Next, go, acquired, busy, released}
use shfllock.Protocol.Wrapper
use shfllock.Protocol.Wrapper.{Posix}

-- MAX_THREADS_SUPPORTED.
abbrev pub slots : ℕ
slots = 512

abbrev pub u32 : ℕ → ℕ
u32 v = v % 2 ^ 32

-- struct alockepfl_mutex, with `my_index` of the context of each thread.
pub record AlockMutex : Type 0 where
  pub tail : ℕ
  pub flags : ℕ → ℕ
  pub my_index : ℕ → ℕ

pub data Pc : Type 0 where
  fetch : Pc  -- and the store of `my_index`, which no other thread reads
  spin : (slot : ℕ) → Pc
  try_read : Pc
  try_look : (tail : ℕ) → Pc
  try_swap : (tail : ℕ) → Pc
  shut : Pc  -- `unlock`
  open_next : (slot : ℕ) → Pc

unfoldable pub step : ℕ → Unit {0} → AlockMutex → Pc → AlockMutex × Next Pc
step i y m fetch =
    let slot = m.tail % slots in
    (record m { tail = u32 (m.tail + 1); my_index = assign m.my_index i slot }, go (spin slot))
step i y m (spin slot) = (m, if m.flags slot == locked then go (spin slot) else acquired)
step i y m try_read = (m, go (try_look m.tail))
step i y m (try_look tail) =
    (m, if m.flags (tail % slots) == unlocked then go (try_swap tail) else busy)
step i y m (try_swap tail) =
    if m.tail == tail
    then (
      record m { tail = u32 (tail + 1); my_index = assign m.my_index i (tail % slots) },
      acquired,
    )
    else (m, busy)
step i y m shut =
    let slot = m.my_index i in
    (record m { flags = assign m.flags slot locked }, go (open_next slot))
step i y m (open_next slot) =
    (record m { flags = assign m.flags ((slot + 1) % slots) unlocked }, released)

unfoldable pub alockepfl : Code AlockMutex Pc (Unit {0})
unfolding step
alockepfl = record {
  lock_entry = fetch;
  trylock_entry = try_read;
  unlock_entry = shut;
  release_entry = shut;
  step = step;
  trylock_asserts = false;
  on_locked = λ i y m. m;
}

-- A new lock. `alockepfl_mutex_create` stores the first flag; `stale` is what the allocated memory
-- holds, and what the others are.
unfoldable pub create : (stale : ℕ → ℕ) → AlockMutex
create stale = record { tail = 0; flags = assign stale 0 unlocked; my_index = λ i. 0 }

-- A schedule of `n` threads that use one such mutex and its condition variables.
unfoldable pub mutex :
    {X : Type 0}
    → (ℕ → ℕ)
    → Posix X
    → ℕ
    → List (Wrapper.Event (Unit {0}))
    → Wrapper.State AlockMutex Pc X
unfolding alockepfl create Wrapper.run
mutex stale px n es = Wrapper.run alockepfl px n es (Wrapper.start (create stale) px)
