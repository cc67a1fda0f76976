-- ===== src/Tests/Sockets.antt =====
-- Unlocks of cna.c in a memory with two queues.
use shfllock.Aqs.Memory.{current_numa_node}
use shfllock.Base.{◌≡◌, refl, [], ◌∷◌, arith, ◌==◌, if◌then◌else◌}
use shfllock.Cna.Memory.{null, no_socket, CnaMutex}
use shfllock.Cna.Mutex.{find}
use shfllock.Cna.Successor.{Queues, Handed, home, Ends}
use shfllock.Cna.Handover.{find_successor-Queues}
use shfllock.Cna.Flush.{Flushed, find-Flushed}

-- Thread 0 holds the lock with the node 64, the nodes 128 and 192 wait, and 256 is set aside. The
-- nodes 64 and 192 are of NUMA node 1.
abbrev two_queues : CnaMutex
two_queues = record {
  tail = 192;
  next = λ p. if p == 64 then 128 else (if p == 128 then 192 else null);
  sec_tail = λ p. 256;
  spin = λ p. if p == 64 then 256 else 0;
  socket = λ p. if p == 64 then 1 else (if p == 192 then 1 else 0);
  rv = λ i. 0;
}

two_queues-Queues : Queues two_queues 64 (128 ∷ 192 ∷ []) (256 ∷ [])
two_queues-Queues = record { row = (refl, (refl, refl)); aside = (omega arith, (refl, refl), refl) }

find_successor-Queues_example :
    Ends 2 2 0 1 (λ m'. Handed m' 192 [] (256 ∷ 128 ∷ [])) two_queues find
find_successor-Queues_example =
    find_successor-Queues 2 2 0 1 two_queues 1 (128 ∷ []) 192 [] (256 ∷ []) refl
      (omega arith, omega arith, tt) (omega arith) refl (ground arith) two_queues-Queues

-- The same where 192 is of NUMA node 0, and thread 0 took the lock without a look at its own, which
-- is 1.
abbrev strangers : CnaMutex
strangers = record two_queues { socket = λ p. if p == 64 then no_socket else 0 }

strangers-Queues : Queues strangers 64 (128 ∷ 192 ∷ []) (256 ∷ [])
strangers-Queues = record { row = (refl, (refl, refl)); aside = (omega arith, (refl, refl), refl) }

home-strangers : home 2 2 1 strangers 64 ≡ 1
unfolding current_numa_node
home-strangers = refl

find-Flushed_example : Ends 2 2 0 1 (Flushed (256 ∷ 128 ∷ 192 ∷ [])) strangers find
find-Flushed_example =
    find-Flushed 2 2 0 1 strangers 1 128 (192 ∷ []) (256 ∷ []) home-strangers
      (omega arith, omega arith, (omega arith, omega arith, tt)) (ground arith) strangers-Queues
