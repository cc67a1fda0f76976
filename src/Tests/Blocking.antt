-- ===== src/Tests/Blocking.antt =====
-- The blocking ShflLock, with a waiter that is handed the lock.
use shfllock.Base.{
  ℕ, ◌<◌, ◌≢◌, true, false, ◌≡◌, refl, List, [], arith, suc, ◌==◌, if◌then◌else◌, ◌⊎◌,
}
use shfllock.Protocol.Code.{inside, at, busy, go}
use shfllock.Protocol.Wrapper.{Event, lock, unlock}
use shfllock.Protocol.Refinement.{view_of}
use shfllock.Aqs.Memory.{Ptr, null}
use shfllock.Waiting.{woken, asleep}
use shfllock.Aqm.Memory
use shfllock.Aqm.Memory.{AqmMutex, parked, unpwait}
use shfllock.Aqm.Mutex
use shfllock.Aqm.Wonode
use shfllock.Aqm.Exclusion.{aqm_exclusive}
use shfllock.Aqm.Cares.{wakes, sleeps}
use shfllock.Aqm.Wakeup.{aqm_wakeup_not_lost}
use shfllock.Aqm.Stealing.{aqm_refuses_free_lock, drained}
use shfllock.Tests.Machine.{small_posix, times, waiter}

abbrev calm : Mutex.Input
calm = record { reg = 5; futex = woken }

-- Thread 0 takes the lock, thread 1 queues and has the lock word in sight, thread 0 unlocks, thread
-- 1 takes the lock.
abbrev hand_over : List (Event Mutex.Input)
hand_over =
    times 6 0 lock calm (times 6 1 lock calm (times 3 0 unlock calm (times 18 1 lock calm [])))

aqm_scene : view_of ((Mutex.mutex 8 2 small_posix 2 hand_over).thread 1) ≡ inside
unfolding Mutex.mutex
aqm_scene = refl

aqm_exclusive_example : waiter ≡ waiter
aqm_exclusive_example =
    aqm_exclusive 8 2 small_posix 2 hand_over 1 1 (omega arith) (omega arith) aqm_scene aqm_scene

-- Three waiters of one NUMA node, the third of them parked.
abbrev row : Ptr → Memory.Node
row p = record {
  next = if p == 4 then 0 else suc p;
  lstatus = if p == 3 then parked else 1;
  sleader = 0;
  wcount = 0;
  pstate = 0;
  nid = 0;
  cid = 0;
  last_visited = 0;
}

abbrev row_memory : AqmMutex
row_memory = record { tail = 4; locked = 1; no_stealing = 0; curr_nid = 0; node = row; rv = λ i. 0 }

-- Thread 3 is the last of that queue, and holds the lock.
aqm_refuses_free_lock_example :
    ((drained 8 2 3 calm row_memory).locked ≡ 0)
    × ((drained 8 2 3 calm row_memory).tail ≡ null)
    × ((Mutex.step 8 2 1 calm (drained 8 2 3 calm row_memory) Mutex.attempt).1 ≡ busy)
    × ((Mutex.step 8 2 1 calm (drained 8 2 3 calm row_memory) Mutex.fast_path).1 ≡ go Mutex.prepare)
aqm_refuses_free_lock_example = aqm_refuses_free_lock 8 2 3 1 calm calm row_memory refl

-- Thread 0 holds the lock, thread 2 heads the queue, thread 1 behind it has spun 2700 times and
-- parked itself. Thread 0 unlocks, and thread 2 has handed the lock on to thread 1.
abbrev drowsy : Mutex.Input
drowsy = record { reg = 5; futex = asleep }

abbrev parked_waiter : List (Event Mutex.Input)
parked_waiter = times 6 0 lock drowsy (
    times 5 2 lock drowsy
      (times 2708 1 lock drowsy (times 3 0 unlock drowsy (times 4 2 lock drowsy []))))

parked_scene :
    view_of ((Mutex.mutex 8 2 small_posix 3 parked_waiter).thread 1) ≡ at (Mutex.sleep false)
unfolding Mutex.mutex
parked_scene = refl

wake_scene : view_of ((Mutex.mutex 8 2 small_posix 3 parked_waiter).thread 2) ≡ at (Mutex.wake 2)
unfolding Mutex.mutex
wake_scene = refl

sleeps_scene : sleeps (view_of ((Mutex.mutex 8 2 small_posix 3 parked_waiter).thread 1)) ≡ true
unfolding Mutex.mutex
sleeps_scene = refl

handed_scene : ((Mutex.mutex 8 2 small_posix 3 parked_waiter).mem.node 2).lstatus ≡ 2
unfolding Mutex.mutex
handed_scene = refl

unparked_scene : ((Mutex.mutex 8 2 small_posix 3 parked_waiter).mem.node 2).lstatus ≢ parked
unparked_scene = omega (arith, handed_scene)

aqm_wakeup_not_lost_example :
    (((Mutex.mutex 8 2 small_posix 3 parked_waiter).mem.node 2).pstate ≡ 1)
    ⊎ ((k : ℕ) × (k < 3)
        × (wakes 2 (view_of ((Mutex.mutex 8 2 small_posix 3 parked_waiter).thread k)) ≡ true))
aqm_wakeup_not_lost_example =
    aqm_wakeup_not_lost 8 2 small_posix 3 parked_waiter 1 (omega arith) sleeps_scene unparked_scene

-- The same with nodes on the stack, where each frame holds a stale node.
abbrev stale : Memory.Node
stale = record {
  next = 7;
  lstatus = 2;
  sleader = 1;
  wcount = 9;
  pstate = 1;
  nid = 3;
  cid = 4;
  last_visited = 7;
}

abbrev stale_input : Wonode.Input
stale_input = record { lock_input = calm; left = stale }

abbrev stale_hand_over : List (Event Wonode.Input)
stale_hand_over =
    times 6 0 lock stale_input
      (times 6 1 lock stale_input (times 3 0 unlock stale_input (times 18 1 lock stale_input [])))

aqmwonode_scene :
    view_of ((Wonode.mutex 8 2 (λ p. stale) small_posix 2 stale_hand_over).thread 1) ≡ inside
unfolding Wonode.mutex
aqmwonode_scene = refl

aqmwonode_exclusive_example : waiter ≡ waiter
aqmwonode_exclusive_example =
    Wonode.aqmwonode_exclusive 8 2 (λ p. stale) small_posix 2 stale_hand_over 1 1 (omega arith)
      (omega arith) aqmwonode_scene aqmwonode_scene
