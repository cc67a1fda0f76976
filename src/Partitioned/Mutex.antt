-- ===== src/Partitioned/Mutex.antt =====
-- `partitioned_mutex_lock`, `partitioned_mutex_trylock` and `__partitioned_mutex_unlock` of
-- partitioned.c, one shared access at a time.
use shfllock.Base.{ℕ, ◌+◌, ◌-◌, ◌%◌, ◌^◌, List, ◌==◌, ltb, if◌then◌else◌, assign, true}
use shfllock.Protocol.Code.{Code, Next, go, acquired, busy, released}
use shfllock.Protocol.Wrapper
use shfllock.Protocol.Wrapper.{Posix}

-- struct partitioned_ticket_lock.
pub record PartitionedMutex : Type 0 where
  pub request : ℕ
  pub owner_ticket : ℕ
  pub grants : ℕ → ℕ

pub data Pc : Type 0 where
  fetch : Pc
  spin : (t : ℕ) → Pc
  own : (t : ℕ) → Pc
  try_index : Pc
  try_grant : (request : ℕ) → Pc
  try_compare : (grant : ℕ) → Pc
  read_owner : Pc  -- `unlock`
  store : (new_owner_ticket : ℕ) → Pc

-- A lock with `slots` slots (PTL_SLOTS, the number of NUMA nodes of the machine of the build).
-- `stray k v m` is what `m` is behind a store of `v` that misses the array by `k` slots.
module _ (slots : ℕ) (stray : ℕ → ℕ → PartitionedMutex → PartitionedMutex) where
  -- `grants[new_owner_ticket % PTL_SLOTS].grant = new_owner_ticket`, where `new_owner_ticket` is an
  -- int, and its remainder has its sign.
  unfoldable pub grant_next : ℕ → PartitionedMutex → PartitionedMutex
  grant_next v m =
      let below = (2 ^ 32 - v) % slots in
      if ltb v (2 ^ 31)
      then record m { grants = assign m.grants (v % slots) v }
      else if below == 0
      then record m { grants = assign m.grants 0 v }
      else stray below v m

  unfoldable pub step : ℕ → Unit {0} → PartitionedMutex → Pc → PartitionedMutex × Next Pc
  unfolding grant_next
  step i y m fetch = (record m { request = (m.request + 1) % 2 ^ 32 }, go (spin m.request))
  step i y m (spin t) = (m, if m.grants (t % slots) == t then go (own t) else go (spin t))
  step i y m (own t) = (record m { owner_ticket = t }, acquired)
  step i y m try_index = (m, go (try_grant m.request))
  step i y m (try_grant request) = (m, go (try_compare (m.grants (request % slots))))
  step i y m (try_compare grant) = (m, if grant == m.request then go fetch else busy)
  step i y m read_owner = (m, go (store ((m.owner_ticket + 1) % 2 ^ 32)))
  step i y m (store new_owner_ticket) = (grant_next new_owner_ticket m, released)

  unfoldable pub partitioned : Code PartitionedMutex Pc (Unit {0})
  unfolding step
  partitioned = record {
    lock_entry = fetch;
    trylock_entry = try_index;
    unlock_entry = read_owner;
    release_entry = read_owner;
    step = step;
    trylock_asserts = true;
    on_locked = λ i y m. m;
  }

-- A new lock: `partitioned_mutex_create` zeroes it.
unfoldable pub create : PartitionedMutex
create = record { request = 0; owner_ticket = 0; grants = λ r. 0 }

-- A schedule of `n` threads that use one such mutex and its condition variables.
unfoldable pub mutex :
    {X : Type 0}
    → (slots : ℕ) → (ℕ → ℕ → PartitionedMutex → PartitionedMutex)
    → Posix X
    → ℕ
    → List (Wrapper.Event (Unit {0}))
    → Wrapper.State PartitionedMutex Pc X
unfolding partitioned create Wrapper.run
mutex slots stray px n es = Wrapper.run (partitioned slots stray) px n es (Wrapper.start create px)
