-- ===== src/Aqs/Wonode.antt =====
-- ulocks/src/aqswonode.c: the lock of aqs.c with the node in the frame of `aqs_mutex_lock`, and not in
-- a context of the thread. The code between is the same, word for word.
use shfllock.Base.{ℕ, ◌<◌, ◌≡◌, refl, List, true}
use shfllock.Protocol.Code.{Code, Next, inside}
use shfllock.Protocol.Word.{WordLaws, word_laws}
use shfllock.Protocol.Wrapper
use shfllock.Protocol.Wrapper.{Posix}
use shfllock.Protocol.Refinement.{view_of, wrapped-exclusive}
use shfllock.Aqs.Memory.{Ptr, null, node_of, Node, AqsMutex, put}
use shfllock.Aqs.Shuffle
use shfllock.Aqs.Mutex
use shfllock.Aqs.Mutex.{Pc, fast_path, attempt, give_back, shuffling, resume}
use shfllock.Aqs.Exclusion.{taken, has, step-Sound}

-- What a step reads from outside: the register of `rdtscp`, and what later calls of the thread leave
-- in the frame of `aqs_mutex_lock` when it has returned.
pub record Input : Type 0 where
  pub reg : ℕ
  pub left : Node

unfoldable pub shuffle_waiters : ℕ → AqsMutex → Shuffle.Pc → AqsMutex × Shuffle.Next
unfolding Shuffle.step
shuffle_waiters = Shuffle.step

module _ (cpus nodes : ℕ) where
  unfoldable pub step : ℕ → Input → AqsMutex → Pc → AqsMutex × Next Pc
  unfolding Mutex.step shuffle_waiters
  step i x m (shuffling p) = let r = shuffle_waiters i m p in (r.0, resume r.1)
  step i x m p = Mutex.step cpus nodes i x.reg m p

  -- Where `aqs_mutex_lock` has returned, its frame is free for anything.
  unfoldable pub aqswonode : Code AqsMutex Pc Input
  unfolding step
  aqswonode = record {
    lock_entry = fast_path;
    trylock_entry = attempt;
    unlock_entry = give_back;
    release_entry = give_back;
    step = step;
    trylock_asserts = true;
    on_locked = λ i x m. put m (node_of i) x.left;
  }

-- A new lock; `frames` is what stands on the stacks of the threads.
unfoldable pub create : (Ptr → Node) → AqsMutex
create frames = record { tail = null; locked = 0; no_stealing = 0; node = frames; rv = λ i. 0 }

-- A schedule of `n` threads that use one such mutex and its condition variables.
unfoldable pub mutex :
    {X : Type 0} (cpus nodes : ℕ)
    → (Ptr → Node)
    → Posix X
    → ℕ
    → List (Wrapper.Event Input)
    → Wrapper.State AqsMutex Pc X
unfolding aqswonode create Wrapper.run
mutex cpus nodes frames px n es =
    Wrapper.run (aqswonode cpus nodes) px n es (Wrapper.start (create frames) px)

module _ (cpus nodes : ℕ) where
  -- The steps are those of aqs.c.
  step-same :
      (i : ℕ) (x : Input) (m : AqsMutex) (p : Pc)
      → step cpus nodes i x m p ≡ Mutex.step cpus nodes i x.reg m p
  unfolding step Mutex.step shuffle_waiters
  step-same i x m (shuffling p) = refl
  step-same i x m p = refl

  laws : WordLaws (aqswonode cpus nodes) taken has
  unfolding aqswonode
  laws =
      word_laws refl refl refl refl (λ i x m. refl)
        (λ i x m p h b. rw (step-same i x m p) (step-Sound cpus nodes i x.reg m p h b))

  -- Whatever stands on the stacks at first and whenever a call has returned, whatever the schedule
  -- and the POSIX library do, two threads never hold the lock of aqswonode.c together.
  pub aqswonode_exclusive :
      {X : Type 0} (frames : Ptr → Node) (px : Posix X) (n : ℕ) (es : List (Wrapper.Event Input))
      (i j : ℕ)
      → i < n
      → j < n
      → view_of ((mutex cpus nodes frames px n es).thread i) ≡ inside
      → view_of ((mutex cpus nodes frames px n es).thread j) ≡ inside
      → i ≡ j
  unfolding mutex create
  aqswonode_exclusive frames px n es = wrapped-exclusive laws px n (create frames) refl es
