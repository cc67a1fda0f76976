-- ===== src/Aqm/Exclusion.antt =====
-- Only the holder of the blocking ShflLock is in the critical section.
use shfllock.Base.{ℕ, ◌≤◌, true, false, ◌≡◌, ◌<◌, refl, inl, ◌⊎◌, List, arith}
use shfllock.Atomic.{level}
use shfllock.Protocol.Code.{inside}
use shfllock.Protocol.Word.{WordLaws, Sound, word_laws}
use shfllock.Protocol.Wrapper
use shfllock.Protocol.Wrapper.{Posix}
use shfllock.Protocol.Refinement.{view_of, wrapped-exclusive}
use shfllock.Aqs.Memory.{Ptr, null}
use shfllock.Aqm.Memory.{
  AqmMutex, enable_stealing, disable_stealing, is_stealing_disabled, parked, unpwait,
}
use shfllock.Aqm.Shuffle
use shfllock.Aqm.Mutex.{
  Pc, has_next, clear_tail, enable, wait_next, notify, wake, give_back, shuffling, Input, step, aqm,
  create, mutex, resume,
}

abbrev pub taken : AqmMutex → ℕ
taken m = level 0 1 m.locked

abbrev pub has : Pc → ℕ
has has_next = 1
has clear_tail = 1
has enable = 1
has wait_next = 1
has (notify succ) = 1
has (wake succ) = 1
has give_back = 1
has _ = 0

-- No step of a shuffler writes the lock word, the flag or the tail, or any waiter's NUMA node. The
-- status of a waiter it changes from PARKED to UNPWAIT alone, so that a hand-over is never undone.
pub aqm_shuffle_spares :
    (i : ℕ) (m : AqmMutex) (p : Shuffle.Pc) (q : Ptr)
    → ((Shuffle.step i m p).0.locked ≡ m.locked)
      × ((Shuffle.step i m p).0.no_stealing ≡ m.no_stealing)
      × ((Shuffle.step i m p).0.tail ≡ m.tail)
      × (((Shuffle.step i m p).0.node q).nid ≡ (m.node q).nid)
      × ((((Shuffle.step i m p).0.node q).lstatus ≡ (m.node q).lstatus)
          ⊎ (((m.node q).lstatus ≡ parked) × (((Shuffle.step i m p).0.node q).lstatus ≡ unpwait)))
unfolding Shuffle.step
aqm_shuffle_spares i m (Shuffle.begin a b) q = (refl, refl, refl, refl, inl refl)
aqm_shuffle_spares i m p q = ground arith

resume-Sound :
    (m m' : AqmMutex) (p : Shuffle.Pc) (k : ℕ) (x : Shuffle.Next)
    → m'.locked ≡ m.locked
    → taken m ≤ 1
    → Sound taken has m (shuffling p k) (m', resume k x)
resume-Sound m m' p k (Shuffle.go q) e b = ground arith
resume-Sound m m' p k (Shuffle.return true) e b = ground arith
resume-Sound m m' p k (Shuffle.return false) e b = ground arith

module _ (cpus nodes : ℕ) where
  pub step-Sound :
      (i : ℕ) (x : Input) (m : AqmMutex) (p : Pc)
      → has p ≤ taken m
      → taken m ≤ 1
      → Sound taken has m p (step cpus nodes i x m p)
  unfolding step enable_stealing disable_stealing is_stealing_disabled
  step-Sound i x m (shuffling p k) h b =
      resume-Sound m (Shuffle.step i m p).0 p k (Shuffle.step i m p).1
        (aqm_shuffle_spares i m p null).0 b
  step-Sound i x m p h b = ground arith

  pub laws : WordLaws (aqm cpus nodes) taken has
  unfolding aqm
  laws = word_laws refl refl refl refl (λ i x m. refl) step-Sound

  -- Whatever the schedule, the kernel and the POSIX library do, two threads never hold a blocking
  -- ShflLock together, however they were parked, woken and shuffled.
  pub aqm_exclusive :
      {X : Type 0} (px : Posix X) (n : ℕ) (es : List (Wrapper.Event Input)) (i j : ℕ)
      → i < n
      → j < n
      → view_of ((mutex cpus nodes px n es).thread i) ≡ inside
      → view_of ((mutex cpus nodes px n es).thread j) ≡ inside
      → i ≡ j
  unfolding mutex create
  aqm_exclusive px n es = wrapped-exclusive laws px n create refl es
