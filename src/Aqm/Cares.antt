-- ===== src/Aqm/Cares.antt =====
-- What one step of a thread leaves to a waiter that sleeps in `park_waiter`.
use shfllock.Base.{ℕ, ◌≡◌, ◌≢◌, refl, inl, ◌⊎◌, Bool, true, false, arith, ◌==◌}
use shfllock.Protocol.Code.{View, at, outside, Op, after, move}
use shfllock.Aqs.Memory.{Ptr, node_of}
use shfllock.Aqm.Memory.{AqmMutex, parked, enable_stealing, disable_stealing, is_stealing_disabled}
use shfllock.Aqm.Shuffle
use shfllock.Aqm.Mutex.{
  Pc, Input, sleep_test, sleep, sleep_spin, wake, shuffling, step, aqm, resume,
}

-- Whether a thread is about to wake the waiter of node `q`.
abbrev pub wakes : Ptr → View Pc → Bool
wakes q (at (wake succ)) = succ == q
wakes q (at (shuffling (Shuffle.wake l curr) k)) = curr == q
wakes q (at (shuffling (Shuffle.wake_moved l curr next) k)) = curr == q
wakes q v = false

-- Whether a thread has parked itself.
abbrev pub sleeps : View Pc → Bool
sleeps (at (sleep_test v)) = true
sleeps (at (sleep v)) = true
sleeps (at (sleep_spin v)) = true
sleeps v = false

-- What a step of another thread leaves to the waiter of node `q`.
pub record Cares (q : Ptr) (m : AqmMutex) (v : View Pc) (m' : AqmMutex) (v' : View Pc)
    : Type 0 where
  pub marked : (m.node q).lstatus ≡ parked → ((m'.node q).lstatus ≡ parked) ⊎ (wakes q v' ≡ true)
  pub stays : (m.node q).pstate ≡ 1 → (m'.node q).pstate ≡ 1
  pub done : wakes q v ≡ true → (m'.node q).pstate ≡ 1

shuffle-Cares :
    (i k : ℕ) (m : AqmMutex) (p : Shuffle.Pc) (q : Ptr)
    → Cares q m
        (at (shuffling p k))
        (Shuffle.step i m p).0
        (after (resume k (Shuffle.step i m p).1))
unfolding Shuffle.step
shuffle-Cares i k m (Shuffle.begin a b) q = record {
  marked = λ e. inl e;
  stays = λ e. e;
  done = λ e. cc;
}
shuffle-Cares i k m p q = record {
  marked = λ e. ground arith;
  stays = λ e. ground arith;
  done = λ e. ground arith;
}

resume-awake : (k : ℕ) (x : Shuffle.Next) → sleeps (after (resume k x)) ≡ false
resume-awake k (Shuffle.go p) = refl
resume-awake k (Shuffle.return true) = refl
resume-awake k (Shuffle.return false) = refl

pub asleep-idle : (q : Ptr) (v : View Pc) → sleeps v ≡ true → wakes q v ≡ false
asleep-idle q (at p) e = ground arith
asleep-idle q v e = refl

module _ (cpus nodes : ℕ) where
  step-Cares :
      (i : ℕ) (x : Input) (m : AqmMutex) (p : Pc) (q : Ptr)
      → q ≢ node_of i
      → Cares q m (at p) (step cpus nodes i x m p).0 (after (step cpus nodes i x m p).1)
  unfolding step enable_stealing disable_stealing is_stealing_disabled
  step-Cares i x m (shuffling p k) q ne = shuffle-Cares i k m p q
  step-Cares i x m p q ne = record {
    marked = λ e. ground arith;
    stays = λ e. ground arith;
    done = λ e. ground arith;
  }

  -- A thread that parks itself was not parked before, or sleeps on with its node as it was.
  step-own :
      (i : ℕ) (x : Input) (m : AqmMutex) (p : Pc)
      → sleeps (after (step cpus nodes i x m p).1) ≡ true
      → (((step cpus nodes i x m p).0.node (node_of i)).lstatus ≡ parked)
        ⊎ ((sleeps (at p) ≡ true)
            × (((step cpus nodes i x m p).0.node (node_of i)).pstate ≡ (m.node (node_of i)).pstate)
            × (((step cpus nodes i x m p).0.node (node_of i)).lstatus
                ≡ (m.node (node_of i)).lstatus))
  unfolding step enable_stealing disable_stealing is_stealing_disabled
  step-own i x m (shuffling p k) e = absurd (cc (e, resume-awake k (Shuffle.step i m p).1))
  step-own i x m p e = ground arith

  pub move-Cares :
      (i : ℕ) (x : Input) (o : Op) (m : AqmMutex) (v : View Pc) (q : Ptr)
      → q ≢ node_of i
      → Cares q m v (move (aqm cpus nodes) i x o m v).0 (move (aqm cpus nodes) i x o m v).1
  unfolding move aqm
  move-Cares i x o m (at p) q ne = step-Cares i x m p q ne
  move-Cares i x Op.lock m outside q ne = record { marked = inl; stays = λ e. e; done = λ e. cc }
  move-Cares i x o m v q ne = record {
    marked = λ e. ground arith;
    stays = λ e. ground arith;
    done = λ e. ground arith;
  }

  pub move-own :
      (i : ℕ) (x : Input) (o : Op) (m : AqmMutex) (v : View Pc)
      → sleeps (move (aqm cpus nodes) i x o m v).1 ≡ true
      → (((move (aqm cpus nodes) i x o m v).0.node (node_of i)).lstatus ≡ parked)
        ⊎ ((sleeps v ≡ true)
            × (((move (aqm cpus nodes) i x o m v).0.node (node_of i)).pstate
                ≡ (m.node (node_of i)).pstate)
            × (((move (aqm cpus nodes) i x o m v).0.node (node_of i)).lstatus
                ≡ (m.node (node_of i)).lstatus))
  unfolding move aqm
  move-own i x o m (at p) e = step-own i x m p e
  move-own i x Op.lock m outside e = absurd (cc e)
  move-own i x o m v e = ground arith
