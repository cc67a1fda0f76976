-- ===== src/Tests/Grants.antt =====
-- The lock of partitioned.c, with two slots.
use shfllock.Base.{ℕ, length, ◌<◌, ◌^◌, ◌%◌, ◌≡◌, ◌⊎◌, refl, List, [], arith}
use shfllock.Protocol.Code.{inside, at}
use shfllock.Protocol.Wrapper.{Event, State, lock, unlock}
use shfllock.Protocol.Refinement.{view_of}
use shfllock.Partitioned.Mutex.{PartitionedMutex, Pc, spin, mutex}
use shfllock.Partitioned.Exclusion.{Before, partitioned_exclusive, partitioned_waits_for}
use shfllock.Tests.Machine.{small_posix, times, waiter}

-- Memory in front of the array that nothing reads.
abbrev no_stray : ℕ → ℕ → PartitionedMutex → PartitionedMutex
no_stray k v m = m

-- Thread 0 holds the lock, thread 1 waits with ticket 1.
abbrev granted : List (Event Unit)
granted = times 6 0 lock tt (times 4 1 lock tt [])

-- Thread 0 unlocks, and thread 1 takes the lock.
abbrev handed : List (Event Unit)
handed = times 6 0 lock tt (times 4 1 lock tt (times 4 0 unlock tt (times 4 1 lock tt [])))

abbrev waits : State PartitionedMutex Pc ℕ
waits = mutex 2 no_stray small_posix 2 granted

granted_scene : view_of (waits.thread waiter) ≡ at (spin 1)
unfolding mutex
granted_scene = refl

handed_scene : view_of ((mutex 2 no_stray small_posix 2 handed).thread waiter) ≡ inside
unfolding mutex
handed_scene = refl

few_granted : length granted < 2 ^ 31
unfolding length
few_granted = omega arith

few_handed : length handed < 2 ^ 31
unfolding length
few_handed = omega arith

partitioned_exclusive_example : waiter ≡ waiter
partitioned_exclusive_example =
    partitioned_exclusive 2 (omega arith) no_stray small_posix 2 handed few_handed waiter waiter
      (omega arith) (omega arith) handed_scene handed_scene

partitioned_waits_for_example :
    (waits.mem.grants (1 % 2) ≡ 1) ⊎ ((j : ℕ) × (j < 2) × Before 1 (view_of (waits.thread j)))
partitioned_waits_for_example =
    partitioned_waits_for 2 (omega arith) no_stray small_posix 2 granted few_granted waiter 1
      (omega arith) granted_scene
