-- ===== src/Mcs/Exclusion.antt =====
-- The two MCS locks in every run.
use shfllock.Base.{ℕ, ◌<◌, ◌≡◌, ◌≢◌, refl, true, List}
use shfllock.Waiting.{Policy, Futex}
use shfllock.Mcs.Memory.{null, node_of, create}
use shfllock.Mcs.Facts.{served}
use shfllock.Mcs.Run.{Sound, run-Sound, sound-exclusive, sound-served}
use shfllock.Mcs.Steps.{stage_of, mcs-Follows}
use shfllock.Mcs.StepsEpfl.{epfl_stage_of, mcsepfl-Follows}
use shfllock.Mcs.Mutex
use shfllock.Mcs.Mutex.{mcs}
use shfllock.Mcs.MutexEpfl
use shfllock.Mcs.MutexEpfl.{mcsepfl}
use shfllock.Protocol.Code.{inside}
use shfllock.Protocol.Wrapper
use shfllock.Protocol.Wrapper.{Posix, crashed}
use shfllock.Protocol.Refinement.{view_of, project, wrapped-all}

module _ {X : Type 0} (w : Policy) (px : Posix X) (n : ℕ) (es : List (Wrapper.Event Futex)) where
  mcs-Sound : Sound stage_of n (project (Mutex.mutex w px n es))
  unfolding Mutex.mutex create
  mcs-Sound =
      wrapped-all (mcs w) px n create (Sound stage_of n)
        (run-Sound (mcs w) stage_of (mcs-Follows w) n create refl refl) es

  -- Whatever the waiting policy, the schedule, the kernel and the POSIX library do, two threads never
  -- hold an MCS lock together.
  pub mcs_exclusive :
      (i j : ℕ)
      → i < n
      → j < n
      → view_of ((Mutex.mutex w px n es).thread i) ≡ inside
      → view_of ((Mutex.mutex w px n es).thread j) ≡ inside
      → i ≡ j
  mcs_exclusive = sound-exclusive mcs-Sound refl

  -- The `assert(old == 0)` of `waiting_policy_wake` never fails in an MCS lock, whatever the waiting
  -- policy.
  pub mcs_assert_holds : (i : ℕ) → (Mutex.mutex w px n es).thread i ≢ crashed
  mcs_assert_holds i e = mcs-Sound.living i (cc e)

  -- An MCS lock is never lost: in every run, where the queue is not empty, there is a thread that
  -- holds the lock or gives it back, or one that waits and whose word is UNLOCKED already.
  pub mcs_never_lost :
      (Mutex.mutex w px n es).mem.tail ≢ null
      → (k : ℕ) × (k < n)
        × (served
              ((Mutex.mutex w px n es).mem.spin (node_of k))
              (stage_of (view_of ((Mutex.mutex w px n es).thread k)))
            ≡ true)
  mcs_never_lost = sound-served mcs-Sound

module _ {X : Type 0} (px : Posix X) (n : ℕ) (es : List (Wrapper.Event (Unit {0}))) where
  mcsepfl-Sound : Sound epfl_stage_of n (project (MutexEpfl.mutex px n es))
  unfolding MutexEpfl.mutex create
  mcsepfl-Sound =
      wrapped-all mcsepfl px n create (Sound epfl_stage_of n)
        (run-Sound mcsepfl epfl_stage_of mcsepfl-Follows n create refl refl) es

  -- Whatever the schedule and the POSIX library do, two threads never hold a mcsepfl mutex together.
  pub mcsepfl_exclusive :
      (i j : ℕ)
      → i < n
      → j < n
      → view_of ((MutexEpfl.mutex px n es).thread i) ≡ inside
      → view_of ((MutexEpfl.mutex px n es).thread j) ≡ inside
      → i ≡ j
  mcsepfl_exclusive = sound-exclusive mcsepfl-Sound refl

  -- A mcsepfl lock is never lost: in every run, where the queue is not empty, there is a thread that
  -- holds the lock or gives it back, or one that waits and whose word is UNLOCKED already.
  pub mcsepfl_never_lost :
      (MutexEpfl.mutex px n es).mem.tail ≢ null
      → (k : ℕ) × (k < n)
        × (served
              ((MutexEpfl.mutex px n es).mem.spin (node_of k))
              (epfl_stage_of (view_of ((MutexEpfl.mutex px n es).thread k)))
            ≡ true)
  mcsepfl_never_lost = sound-served mcsepfl-Sound
