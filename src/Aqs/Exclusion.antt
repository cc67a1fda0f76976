-- ===== src/Aqs/Exclusion.antt =====
-- Only the holder of the ShflLock is in the critical section, whatever the queue looks like.
use shfllock.Base.{ℕ, ◌≤◌, true, false, ◌≡◌, ◌<◌, refl, List, arith}
use shfllock.Atomic.{level}
use shfllock.Protocol.Code.{inside}
use shfllock.Protocol.Word.{WordLaws, Sound, word_laws}
use shfllock.Protocol.Wrapper
use shfllock.Protocol.Wrapper.{Posix}
use shfllock.Protocol.Refinement.{view_of, wrapped-exclusive}
use shfllock.Aqs.Memory.{Ptr, null, AqsMutex, enable_stealing, disable_stealing}
use shfllock.Aqs.Shuffle
use shfllock.Aqs.Mutex.{
  Pc, has_next, clear_tail, enable, wait_next, read_next, notify, give_back, shuffling, step, aqs,
  create, mutex, resume,
}

abbrev pub taken : AqsMutex → ℕ
taken m = level 0 1 m.locked

abbrev pub has : Pc → ℕ
has has_next = 1
has clear_tail = 1
has enable = 1
has wait_next = 1
has read_next = 1
has (notify succ) = 1
has give_back = 1
has _ = 0

-- No step of a shuffler writes the lock word or the tail, and none writes the status, the NUMA node
-- or the processor of any waiter.
pub shuffle_spares :
    (i : ℕ) (m : AqsMutex) (p : Shuffle.Pc) (q : Ptr)
    → ((Shuffle.step i m p).0.locked ≡ m.locked)
      × ((Shuffle.step i m p).0.no_stealing ≡ m.no_stealing)
      × ((Shuffle.step i m p).0.tail ≡ m.tail)
      × (((Shuffle.step i m p).0.node q).lstatus ≡ (m.node q).lstatus)
      × (((Shuffle.step i m p).0.node q).nid ≡ (m.node q).nid)
      × (((Shuffle.step i m p).0.node q).cid ≡ (m.node q).cid)
unfolding Shuffle.step
shuffle_spares i m (Shuffle.begin a b) q = (refl, refl, refl, refl, refl, refl)
shuffle_spares i m p q = ground arith

resume-Sound :
    (m m' : AqsMutex) (p : Shuffle.Pc) (x : Shuffle.Next)
    → m'.locked ≡ m.locked
    → taken m ≤ 1
    → Sound taken has m (shuffling p) (m', resume x)
resume-Sound m m' p (Shuffle.go q) e b = ground arith
resume-Sound m m' p (Shuffle.return true) e b = ground arith
resume-Sound m m' p (Shuffle.return false) e b = ground arith

module _ (cpus nodes : ℕ) where
  pub step-Sound :
      (i x : ℕ) (m : AqsMutex) (p : Pc)
      → has p ≤ taken m
      → taken m ≤ 1
      → Sound taken has m p (step cpus nodes i x m p)
  unfolding step enable_stealing disable_stealing
  step-Sound i x m (shuffling p) h b =
      resume-Sound m (Shuffle.step i m p).0 p (Shuffle.step i m p).1 (shuffle_spares i m p null).0 b
  step-Sound i x m p h b = ground arith

  pub laws : WordLaws (aqs cpus nodes) taken has
  unfolding aqs
  laws = word_laws refl refl refl refl (λ i x m. refl) step-Sound

  -- Whatever the schedule, the machine and the POSIX library do, two threads never hold a
  -- non-blocking ShflLock together, by the fast path, by stealing, by `trylock` or from the queue.
  pub aqs_exclusive :
      {X : Type 0} (px : Posix X) (n : ℕ) (es : List (Wrapper.Event ℕ)) (i j : ℕ)
      → i < n
      → j < n
      → view_of ((mutex cpus nodes px n es).thread i) ≡ inside
      → view_of ((mutex cpus nodes px n es).thread j) ≡ inside
      → i ≡ j
  unfolding mutex create
  aqs_exclusive px n es = wrapped-exclusive laws px n create refl es
