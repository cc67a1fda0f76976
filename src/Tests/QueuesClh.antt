-- ===== src/Tests/QueuesClh.antt =====
-- The CLH locks, with a thread that waits in the queue and is served.
use shfllock.Base.{◌≡◌, refl, List, [], arith}
use shfllock.Waiting.{park, woken}
use shfllock.Protocol.Code.{inside}
use shfllock.Protocol.Wrapper.{Event, lock, unlock}
use shfllock.Protocol.Refinement.{view_of}
use shfllock.Clh.Mutex
use shfllock.Clh.MutexEpfl
use shfllock.Clh.Exclusion.{clh_exclusive, clhepfl_exclusive}
use shfllock.Tests.Machine.{small_posix, times, waiter}

-- Thread 0 takes the lock, thread 1 queues, thread 0 unlocks, thread 1 takes the lock.
abbrev scene : {I : Type 0} → I → List (Event I)
scene y = times 10 0 lock y (times 6 1 lock y (times 5 0 unlock y (times 12 1 lock y [])))

clh_scene : view_of ((Mutex.mutex park small_posix 2 (scene woken)).thread 1) ≡ inside
unfolding Mutex.mutex
clh_scene = refl

clh_exclusive_example : waiter ≡ waiter
clh_exclusive_example =
    clh_exclusive park small_posix 2 (scene woken) 1 1 (omega arith) (omega arith) clh_scene
      clh_scene

-- Thread 1 has taken over the node that thread 0 began with.
clh_nodes : (Mutex.mutex park small_posix 2 (scene woken)).mem.current 1 ≡ 2
unfolding Mutex.mutex
clh_nodes = refl

clhepfl_scene : view_of ((MutexEpfl.mutex small_posix 2 (scene tt)).thread 1) ≡ inside
unfolding MutexEpfl.mutex
clhepfl_scene = refl

clhepfl_exclusive_example : waiter ≡ waiter
clhepfl_exclusive_example =
    clhepfl_exclusive small_posix 2 (scene tt) 1 1 (omega arith) (omega arith) clhepfl_scene
      clhepfl_scene
