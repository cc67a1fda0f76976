-- ===== src/Tests/Shfl.antt =====
-- The ShflLocks, with waiters in the queue.
use shfllock.Base.{
  ℕ, Option, none, Bool, true, false, ◌≡◌, refl, List, [], ◌∷◌, arith, some, suc, ◌==◌,
  if◌then◌else◌,
}
use shfllock.Protocol.Code.{inside, at}
use shfllock.Protocol.Wrapper.{Event, lock, unlock}
use shfllock.Protocol.Refinement.{view_of}
use shfllock.Protocol.Local.{OnView}
use shfllock.Aqs.Memory
use shfllock.Aqs.Memory.{Ptr, null, node_of, AqsMutex}
use shfllock.Aqs.Shuffle
use shfllock.Aqs.Shuffle.Solo.{solo, links}
use shfllock.Aqs.Shuffle.Correct.{Queue, shuffle_reorders, nid_in}
use shfllock.Aqs.Queue.{Linked}
use shfllock.Aqs.Queue.Reorder.{Reordered}
use shfllock.Aqs.Mutex
use shfllock.Aqs.Wonode
use shfllock.Aqs.Exclusion.{aqs_exclusive, shuffle_spares}
use shfllock.Aqs.Pointers.{aqs_pointers-Real, IsWord, Real}
use shfllock.Tests.Machine.{small_posix, times, waiter}

-- Thread 0 takes the lock, thread 1 queues, thread 0 unlocks, thread 1 takes the lock.
abbrev hand_over : {I : Type 0} → I → List (Event I)
hand_over y = times 6 0 lock y (times 6 1 lock y (times 3 0 unlock y (times 18 1 lock y [])))

aqs_scene : view_of ((Mutex.mutex 8 2 small_posix 2 (hand_over 0)).thread 1) ≡ inside
unfolding Mutex.mutex
aqs_scene = refl

aqs_exclusive_example : waiter ≡ waiter
aqs_exclusive_example =
    aqs_exclusive 8 2 small_posix 2 (hand_over 0) 1 1 (omega arith) (omega arith) aqs_scene
      aqs_scene

-- On a machine of 8 processors in 2 nodes, thread 2 is the head of the queue behind thread 0, which
-- has the lock, and shuffles; thread 1 waits behind it.
abbrev queued : List (Event ℕ)
queued =
    times 6 0 lock 0 (times 3 1 lock 0 (times 4 2 lock 5 (times 6 1 lock 0 (times 5 2 lock 5 []))))

aqs_shuffles :
    view_of ((Mutex.mutex 8 2 small_posix 3 queued).thread 2)
    ≡ at (
        Mutex.shuffling (
          Shuffle.count (record {
            node = 3;
            is_next_waiter = true;
            nid = 1;
            curr_locked_count = 0;
            one_shuffle = false;
            prev = 3;
            last = 3;
          })))
unfolding Mutex.mutex
aqs_shuffles = refl

aqs_pointers-Real_example :
    IsWord (Mutex.mutex 8 2 small_posix 3 queued).mem
    × ((i : ℕ) → OnView (Real) (view_of ((Mutex.mutex 8 2 small_posix 3 queued).thread i)))
aqs_pointers-Real_example = aqs_pointers-Real 8 2 small_posix 3 queued

-- Nodes 1, 2, 3, 4 in a row, node 1 and 3 in NUMA node 0 and the others in NUMA node 1.
abbrev row : Ptr → Memory.Node
row p = record {
  next = if p == 4 then 0 else suc p;
  lstatus = 0;
  sleader = 0;
  wcount = 0;
  nid = if p == 2 then 1 else if p == 4 then 1 else 0;
  cid = 0;
  last_visited = 0;
}

abbrev row_memory : AqsMutex
row_memory = record { tail = 4; locked = 1; no_stealing = 1; node = row; rv = λ i. 0 }

row_Queue : Queue row_memory 1 [] (2 ∷ 3 ∷ 4 ∷ [])
row_Queue = record {
  chain = (refl, (refl, (refl, (refl, refl))));
  distinct = λ p. ground arith;
  real = refl;
  visited = refl;
}

abbrev front : Ptr
front = 1

shuffle_reorders_example :
    (k : ℕ) × (m' : AqsMutex) × (b : Bool) × (solo k 0 row_memory (Shuffle.begin front true)
      ≡ some (m', b))
    × (new : List Ptr) × Linked (links m') front new null
    × Reordered (nid_in row_memory) (nid_in row_memory front) front (1 ∷ 2 ∷ 3 ∷ 4 ∷ []) new
shuffle_reorders_example = shuffle_reorders 0 row_memory 1 true [] (2 ∷ 3 ∷ 4 ∷ []) row_Queue

-- The splice of node 3 behind node 1.
abbrev splicing : Shuffle.Pc
splicing =
    Shuffle.insert
      (record {
        node = 1;
        is_next_waiter = true;
        nid = 0;
        curr_locked_count = 1;
        one_shuffle = false;
        prev = 2;
        last = 1;
      })
      3

shuffle_spares_example :
    ((Shuffle.step 0 row_memory splicing).0.locked ≡ row_memory.locked)
    × ((Shuffle.step 0 row_memory splicing).0.no_stealing ≡ row_memory.no_stealing)
    × ((Shuffle.step 0 row_memory splicing).0.tail ≡ row_memory.tail)
    × (((Shuffle.step 0 row_memory splicing).0.node front).lstatus
        ≡ (row_memory.node front).lstatus)
    × (((Shuffle.step 0 row_memory splicing).0.node front).nid ≡ (row_memory.node front).nid)
    × (((Shuffle.step 0 row_memory splicing).0.node front).cid ≡ (row_memory.node front).cid)
shuffle_spares_example = shuffle_spares 0 row_memory splicing front

-- Node 3 moves in front of node 2.
abbrev order_after : Option (AqsMutex × Bool) → List Ptr
order_after none = []
order_after (some r) = (links r.0 1) ∷ (links r.0 3) ∷ (links r.0 2) ∷ []

shuffle_row : order_after (solo 40 0 row_memory (Shuffle.begin 1 true)) ≡ 3 ∷ 2 ∷ 4 ∷ []
unfolding solo Shuffle.step
shuffle_row = refl

-- The same with nodes on the stack, where each frame holds a stale node.
abbrev stale : Memory.Node
stale = record {
  next = 7;
  lstatus = 1;
  sleader = 1;
  wcount = 9;
  nid = 3;
  cid = 4;
  last_visited = 7;
}

abbrev stale_input : Wonode.Input
stale_input = record { reg = 0; left = stale }

aqswonode_scene :
    view_of ((Wonode.mutex 8 2 (λ p. stale) small_posix 2 (hand_over stale_input)).thread 1)
    ≡ inside
unfolding Wonode.mutex
aqswonode_scene = refl

aqswonode_exclusive_example : waiter ≡ waiter
aqswonode_exclusive_example =
    Wonode.aqswonode_exclusive 8 2 (λ p. stale) small_posix 2 (hand_over stale_input) 1 1
      (omega arith) (omega arith) aqswonode_scene aqswonode_scene
