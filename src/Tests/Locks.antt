-- ===== src/Tests/Locks.antt =====
-- The spinning locks and the ticket lock, with a second thread that waits for the first one.
use shfllock.Base.{ℕ, true, ◌≡◌, refl, List, [], arith}
use shfllock.Protocol.Code
use shfllock.Protocol.Code.{inside, at}
use shfllock.Protocol.Wrapper
use shfllock.Protocol.Wrapper.{Event, crashed, lock, trylock, unlock, wait}
use shfllock.Protocol.Refinement.{view_of, project, shadows, run-project}
use shfllock.Protocol.Local.{OnView}
use shfllock.Tas.Spinlock
use shfllock.Tas.Ttas
use shfllock.Tas.Backoff
use shfllock.Tas.SpinlockEpfl
use shfllock.Tas.TtasEpfl
use shfllock.Ttasrw.Mutex
use shfllock.Tas.Exclusion.{ttasepfl, tas_exclusive}
use shfllock.Tests.Machine.{small_posix, times, waiter}

-- Thread 0 takes the lock, thread 1 spins, thread 0 waits on the condition variable, thread 1 takes
-- the lock.
abbrev scene : {I : Type 0} → I → List (Event I)
scene y = times 6 0 lock y (times 3 1 lock y (times 3 0 (wait true) y (times 6 1 lock y [])))

spinlock_scene : view_of ((Spinlock.mutex small_posix 2 (scene tt)).thread 1) ≡ inside
unfolding Spinlock.mutex
spinlock_scene = refl

ttas_scene : view_of ((Ttas.mutex small_posix 2 (scene tt)).thread 1) ≡ inside
unfolding Ttas.mutex
ttas_scene = refl

ttasrw_scene : view_of ((Mutex.mutex small_posix 2 (scene tt)).thread 1) ≡ inside
unfolding Mutex.mutex
ttasrw_scene = refl

spinlockepfl_scene : view_of ((SpinlockEpfl.mutex small_posix 2 (scene tt)).thread 1) ≡ inside
unfolding SpinlockEpfl.mutex
spinlockepfl_scene = refl

-- Thread 1 stands in a pause of 512 rounds, while thread 0 holds the lock.
abbrev paused : List (Event (Unit {0}))
paused = times 6 0 lock tt (times 3 1 lock tt [])

backoff_scene : view_of ((Backoff.mutex small_posix 2 paused).thread 0) ≡ inside
unfolding Backoff.mutex
backoff_scene = refl

backoff_pauses :
    view_of ((Backoff.mutex small_posix 2 paused).thread 1) ≡ at (Backoff.pause 512 511)
unfolding Backoff.mutex
backoff_pauses = refl

abbrev dice : TtasEpfl.Input
dice = record { random = 7; ticks = 100 }

ttasepfl_scene : view_of ((TtasEpfl.mutex small_posix 2 (scene dice)).thread 1) ≡ inside
unfolding TtasEpfl.mutex
ttasepfl_scene = refl

tas_exclusive_example : waiter ≡ waiter
tas_exclusive_example =
    tas_exclusive ttasepfl small_posix 2 (scene dice) 1 1 (omega arith) (omega arith) ttasepfl_scene
      ttasepfl_scene

ttasepfl_limit_bounded_example :
    TtasEpfl.Limited (TtasEpfl.mutex small_posix 2 (scene dice)).mem
    × ((i : ℕ)
        → OnView TtasEpfl.Short (view_of ((TtasEpfl.mutex small_posix 2 (scene dice)).thread i)))
ttasepfl_limit_bounded_example = TtasEpfl.ttasepfl_limit_bounded small_posix 2 (scene dice)

abbrev begun : Wrapper.State Spinlock.SpinlockMutex Spinlock.Pc ℕ
begun = Wrapper.start Spinlock.create small_posix

run-project_example :
    project (Wrapper.run Spinlock.spinlock small_posix 2 (scene tt) begun)
    ≡ Code.run Spinlock.spinlock 2
        (shadows Spinlock.spinlock small_posix 2 (scene tt) begun)
        (project begun)
run-project_example = run-project Spinlock.spinlock small_posix 2 (scene tt) begun
