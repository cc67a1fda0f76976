-- ===== src/Aqm/Wonode.antt =====
-- ulocks/src/aqmwonode.c: the lock of aqm.c with the node in the frame of `aqm_mutex_lock`, and not in
-- a context of the thread. The code between is the same, word for word.
use shfllock.Base.{ℕ, ◌<◌, ◌≡◌, refl, List, true}
use shfllock.Protocol.Code.{Code, Next, inside}
use shfllock.Protocol.Word.{WordLaws, word_laws}
use shfllock.Protocol.Wrapper
use shfllock.Protocol.Wrapper.{Posix}
use shfllock.Protocol.Refinement.{view_of, wrapped-exclusive}
use shfllock.Aqs.Memory.{Ptr, null, node_of}
use shfllock.Aqm.Memory.{Node, AqmMutex, put}
use shfllock.Aqm.Shuffle
use shfllock.Aqm.Mutex
use shfllock.Aqm.Mutex.{Pc, fast_path, attempt, give_back, shuffling, resume}
use shfllock.Aqm.Exclusion.{taken, has, step-Sound}

-- What a step reads from outside: that of aqm.c, and what later calls of the thread leave in the
-- frame of `aqm_mutex_lock` when it has returned.
pub record Input : Type 0 where
  pub lock_input : Mutex.Input
  pub left : Node

unfoldable pub shuffle_waiters : ℕ → AqmMutex → Shuffle.Pc → AqmMutex × Shuffle.Next
unfolding Shuffle.step
shuffle_waiters = Shuffle.step

module _ (cpus nodes : ℕ) where
  unfoldable pub step : ℕ → Input → AqmMutex → Pc → AqmMutex × Next Pc
  unfolding Mutex.step shuffle_waiters
  step i x m (shuffling p k) = let r = shuffle_waiters i m p in (r.0, resume k r.1)
  step i x m p = Mutex.step cpus nodes i x.lock_input m p

  -- Where `aqm_mutex_lock` has returned, its frame is free for anything.
  unfoldable pub aqmwonode : Code AqmMutex Pc Input
  unfolding step
  aqmwonode = record {
    lock_entry = fast_path;
    trylock_entry = attempt;
    unlock_entry = give_back;
    release_entry = give_back;
    step = step;
    trylock_asserts = true;
    on_locked = λ i x m. put m (node_of i) x.left;
  }

-- A new lock; `frames` is what stands on the stacks of the threads.
unfoldable pub create : (Ptr → Node) → AqmMutex
create frames = record {
  tail = null;
  locked = 0;
  no_stealing = 0;
  curr_nid = 0;
  node = frames;
  rv = λ i. 0;
}

-- A schedule of `n` threads that use one such mutex and its condition variables.
unfoldable pub mutex :
    {X : Type 0} (cpus nodes : ℕ)
    → (Ptr → Node)
    → Posix X
    → ℕ
    → List (Wrapper.Event Input)
    → Wrapper.State AqmMutex Pc X
unfolding aqmwonode create Wrapper.run
mutex cpus nodes frames px n es =
    Wrapper.run (aqmwonode cpus nodes) px n es (Wrapper.start (create frames) px)

module _ (cpus nodes : ℕ) where
  -- The steps are those of aqm.c.
  step-same :
      (i : ℕ) (x : Input) (m : AqmMutex) (p : Pc)
      → step cpus nodes i x m p ≡ Mutex.step cpus nodes i x.lock_input m p
  unfolding step Mutex.step shuffle_waiters
  step-same i x m (shuffling p k) = refl
  step-same i x m p = refl

  laws : WordLaws (aqmwonode cpus nodes) taken has
  unfolding aqmwonode
  laws =
      word_laws refl refl refl refl (λ i x m. refl)
        (λ i x m p h b. rw (step-same i x m p) (step-Sound cpus nodes i x.lock_input m p h b))

  -- Whatever stands on the stacks at first and whenever a call has returned, whatever the schedule
  -- and the POSIX library do, two threads never hold the lock of aqmwonode.c together.
  pub aqmwonode_exclusive :
      {X : Type 0} (frames : Ptr → Node) (px : Posix X) (n : ℕ) (es : List (Wrapper.Event Input))
      (i j : ℕ)
      → i < n
      → j < n
      → view_of ((mutex cpus nodes frames px n es).thread i) ≡ inside
      → view_of ((mutex cpus nodes frames px n es).thread j) ≡ inside
      → i ≡ j
  unfolding mutex create
  aqmwonode_exclusive frames px n es = wrapped-exclusive laws px n (create frames) refl es
