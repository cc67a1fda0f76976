-- ===== src/Tests/Queues.antt =====
-- The queue locks, with a thread that waits in the queue and is served.
use shfllock.Base.{ℕ, ◌<◌, ◌≡◌, ◌≢◌, true, refl, List, [], arith}
use shfllock.Waiting.{spin_then_park, spinlock_atomic, woken}
use shfllock.Protocol.Code.{inside}
use shfllock.Protocol.Wrapper.{Event, crashed, lock, unlock}
use shfllock.Protocol.Refinement.{view_of}
use shfllock.Mcs.Memory.{node_of}
use shfllock.Mcs.Facts.{served}
use shfllock.Mcs.Steps.{stage_of}
use shfllock.Mcs.StepsEpfl.{epfl_stage_of}
use shfllock.Mcs.Mutex
use shfllock.Mcs.MutexEpfl
use shfllock.Mcs.Exclusion.{
  mcs_exclusive, mcs_assert_holds, mcs_never_lost, mcsepfl_exclusive, mcsepfl_never_lost,
}
use shfllock.Tests.Machine.{small_posix, times, waiter}

-- Thread 0 takes the lock, thread 1 queues, thread 0 unlocks.
abbrev queue_up : {I : Type 0} → I → List (Event I) → List (Event I)
queue_up y es = times 6 0 lock y (times 6 1 lock y (times 5 0 unlock y es))

-- Thread 1 takes the lock after that.
abbrev served_scene : {I : Type 0} → I → List (Event I)
served_scene y = queue_up y (times 8 1 lock y [])

mcs_scene :
    view_of ((Mutex.mutex spin_then_park small_posix 2 (served_scene woken)).thread 1) ≡ inside
unfolding Mutex.mutex
mcs_scene = refl

mcs_exclusive_example : waiter ≡ waiter
mcs_exclusive_example =
    mcs_exclusive spin_then_park small_posix 2 (served_scene woken) 1 1 (omega arith) (omega arith)
      mcs_scene mcs_scene

mcs_assert_holds_example :
    (Mutex.mutex spinlock_atomic small_posix 2 (served_scene woken)).thread 0 ≢ crashed
mcs_assert_holds_example = mcs_assert_holds spinlock_atomic small_posix 2 (served_scene woken) 0

-- Thread 0 has unlocked, and thread 1 has not run since.
mcs_waits : (Mutex.mutex spin_then_park small_posix 2 (queue_up woken [])).mem.tail ≡ 2
unfolding Mutex.mutex
mcs_waits = refl

mcs_never_lost_example :
    (k : ℕ) × (k < 2)
    × (served
          ((Mutex.mutex spin_then_park small_posix 2 (queue_up woken [])).mem.spin (node_of k))
          (stage_of
            (view_of ((Mutex.mutex spin_then_park small_posix 2 (queue_up woken [])).thread k)))
        ≡ true)
mcs_never_lost_example =
    mcs_never_lost spin_then_park small_posix 2 (queue_up woken [])
      (let waits = mcs_waits in λ e. cc)

mcsepfl_scene : view_of ((MutexEpfl.mutex small_posix 2 (served_scene tt)).thread 1) ≡ inside
unfolding MutexEpfl.mutex
mcsepfl_scene = refl

mcsepfl_exclusive_example : waiter ≡ waiter
mcsepfl_exclusive_example =
    mcsepfl_exclusive small_posix 2 (served_scene tt) 1 1 (omega arith) (omega arith) mcsepfl_scene
      mcsepfl_scene

mcsepfl_waits : (MutexEpfl.mutex small_posix 2 (queue_up tt [])).mem.tail ≡ 2
unfolding MutexEpfl.mutex
mcsepfl_waits = refl

mcsepfl_never_lost_example :
    (k : ℕ) × (k < 2)
    × (served
          ((MutexEpfl.mutex small_posix 2 (queue_up tt [])).mem.spin (node_of k))
          (epfl_stage_of (view_of ((MutexEpfl.mutex small_posix 2 (queue_up tt [])).thread k)))
        ≡ true)
mcsepfl_never_lost_example =
    mcsepfl_never_lost small_posix 2 (queue_up tt []) (let waits = mcsepfl_waits in λ e. cc)
