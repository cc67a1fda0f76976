-- ===== src/Tests/Numa.antt =====
-- The lock of cna.c, with a waiter of another NUMA node that is set aside.
use shfllock.Base.{ℕ, ◌≡◌, refl, List, [], arith}
use shfllock.Protocol.Code.{inside, at}
use shfllock.Protocol.Local.{OnView}
use shfllock.Protocol.Wrapper.{Event, lock, unlock}
use shfllock.Protocol.Refinement.{view_of}
use shfllock.Cna.Mutex
use shfllock.Cna.Exclusion.{Real, cna_exclusive, cna_pointers-Real}
use shfllock.Tests.Machine.{small_posix, times}

-- On two processors in two nodes: thread 0 takes the lock on node 0, thread 1 queues on node 1,
-- thread 2 queues on node 0, thread 0 unlocks and passes the lock to thread 2, which takes it.
abbrev across : List (Event ℕ)
across =
    times 6 0 lock 0
      (times 6 1 lock 1 (times 6 2 lock 0 (times 18 0 unlock 0 (times 4 2 lock 0 []))))

cna_scene : view_of ((Mutex.mutex 2 2 small_posix 3 across).thread 2) ≡ inside
unfolding Mutex.mutex
cna_scene = refl

-- Thread 1 is the second queue now.
cna_second : (Mutex.mutex 2 2 small_posix 3 across).mem.spin 192 ≡ 128
unfolding Mutex.mutex
cna_second = refl

abbrev third : ℕ
third = 2

cna_exclusive_example : third ≡ third
cna_exclusive_example =
    cna_exclusive 2 2 small_posix 3 across 2 2 (omega arith) (omega arith) cna_scene cna_scene

-- The same up to the point where thread 0 cuts thread 1 off the queue, with the node 128.
abbrev cutting : List (Event ℕ)
cutting = times 6 0 lock 0 (times 6 1 lock 1 (times 6 2 lock 0 (times 10 0 unlock 0 [])))

cna_cuts : view_of ((Mutex.mutex 2 2 small_posix 3 cutting).thread 0) ≡ at (Mutex.cut 128 192)
unfolding Mutex.mutex
cna_cuts = refl

cna_pointers-Real_example : OnView Real (view_of ((Mutex.mutex 2 2 small_posix 3 cutting).thread 0))
cna_pointers-Real_example = cna_pointers-Real 2 2 small_posix 3 cutting 0 (omega arith)
