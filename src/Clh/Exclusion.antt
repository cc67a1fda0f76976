-- ===== src/Clh/Exclusion.antt =====
-- The two CLH locks in every run.
use shfllock.Base.{ℕ, ◌<◌, ◌≡◌, refl, ap, List}
use shfllock.Waiting.{Policy, Futex}
use shfllock.Clh.Memory.{ClhMutex, create}
use shfllock.Clh.Stage.{Stage}
use shfllock.Clh.Facts.{Inv}
use shfllock.Clh.Run.{run-Queued, holding-exclusive}
use shfllock.Clh.Steps.{stage_of, clh-Follows}
use shfllock.Clh.StepsEpfl.{epfl_stage_of, clhepfl-Follows}
use shfllock.Clh.Mutex
use shfllock.Clh.Mutex.{clh}
use shfllock.Clh.MutexEpfl
use shfllock.Clh.MutexEpfl.{clhepfl}
use shfllock.Protocol.Code.{View, inside, State}
use shfllock.Protocol.Wrapper
use shfllock.Protocol.Wrapper.{Posix}
use shfllock.Protocol.Refinement.{view_of, wrapped-all}

abbrev Queued : {P : Type 0} → (View P → Stage) → ℕ → State ClhMutex P → Type 0
Queued f n s = Inv n s.mem (λ j. f (s.view j))

-- Whatever the waiting policy, the schedule, the kernel and the POSIX library do, two threads never
-- hold a CLH lock together.
pub clh_exclusive :
    {X : Type 0} (w : Policy) (px : Posix X) (n : ℕ) (es : List (Wrapper.Event Futex)) (i j : ℕ)
    → i < n
    → j < n
    → view_of ((Mutex.mutex w px n es).thread i) ≡ inside
    → view_of ((Mutex.mutex w px n es).thread j) ≡ inside
    → i ≡ j
unfolding Mutex.mutex
clh_exclusive w px n es i j hi hj ei ej =
    let v =
      wrapped-all (clh w) px n create (Queued stage_of n)
        (run-Queued (clh w) stage_of (clh-Follows w) n refl) es in
    holding-exclusive v i j hi hj (ap stage_of ei) (ap stage_of ej)

-- Whatever the schedule and the POSIX library do, two threads never hold a clhepfl mutex together.
pub clhepfl_exclusive :
    {X : Type 0} (px : Posix X) (n : ℕ) (es : List (Wrapper.Event (Unit {0}))) (i j : ℕ)
    → i < n
    → j < n
    → view_of ((MutexEpfl.mutex px n es).thread i) ≡ inside
    → view_of ((MutexEpfl.mutex px n es).thread j) ≡ inside
    → i ≡ j
unfolding MutexEpfl.mutex
clhepfl_exclusive px n es i j hi hj ei ej =
    let v =
      wrapped-all clhepfl px n create (Queued epfl_stage_of n)
        (run-Queued clhepfl epfl_stage_of clhepfl-Follows n refl) es in
    holding-exclusive v i j hi hj (ap epfl_stage_of ei) (ap epfl_stage_of ej)
