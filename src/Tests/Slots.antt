-- ===== src/Tests/Slots.antt =====
-- The lock of alockepfl.c, with a second thread that waits at its slot.
use shfllock.Base.{ℕ, length, ◌<◌, ◌^◌, ◌≡◌, refl, List, [], arith}
use shfllock.Protocol.Code.{inside}
use shfllock.Protocol.Wrapper
use shfllock.Protocol.Wrapper.{Posix, returned, critical, lock, trylock, unlock}
use shfllock.Protocol.Refinement.{view_of}
use shfllock.Alock.Mutex.{mutex}
use shfllock.Alock.Exclusion.{alockepfl_exclusive}
use shfllock.Tests.Machine.{small_posix, times, waiter}

-- Thread 0 takes the lock, thread 1 waits, thread 0 unlocks, thread 1 sees its flag and takes it.
abbrev next_slot : List (Wrapper.Event (Unit {0}))
next_slot = times 6 0 lock tt (times 5 1 lock tt (times 5 0 unlock tt (times 5 1 lock tt [])))

alockepfl_scene : view_of ((mutex (λ r. 0) small_posix 2 next_slot).thread 1) ≡ inside
unfolding mutex
alockepfl_scene = refl

few_events : length next_slot < 2 ^ 32
unfolding length
few_events = omega arith

alockepfl_exclusive_example : waiter ≡ waiter
alockepfl_exclusive_example =
    alockepfl_exclusive small_posix 2 (omega arith) (λ r. 0) (λ r. refl) next_slot few_events 1 1
      (omega arith) (omega arith) alockepfl_scene alockepfl_scene

-- A POSIX mutex that is broken: `pthread_mutex_trylock` returns EINVAL. The trylock of this lock does not
-- look at it.
abbrev broken_posix : Posix ℕ
broken_posix = record small_posix { mutex_trylock = λ i x. returned 22 x }

goes_on : (mutex (λ r. 0) broken_posix 1 (times 5 0 trylock tt [])).thread 0 ≡ critical 0
unfolding mutex
goes_on = refl
