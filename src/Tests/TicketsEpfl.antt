-- ===== src/Tests/TicketsEpfl.antt =====
-- The lock of ticketepfl.c, with a second thread that waits.
use shfllock.Base.{ℕ, ◌-◌, ◌^◌, ◌≡◌, refl, List, [], ◌∷◌, arith}
use shfllock.Protocol.Code
use shfllock.Protocol.Code.{inside, at, start}
use shfllock.Protocol.Wrapper
use shfllock.Protocol.Wrapper.{lock, unlock}
use shfllock.Protocol.Refinement.{view_of}
use shfllock.Ticket.MutexEpfl.{mutex, spin, ticketepfl, create, sub_abs}
use shfllock.Ticket.Epfl.{ticketepfl_exclusive}
use shfllock.Tests.Machine.{small_posix, times, waiter}

-- Thread 0 takes the lock, thread 1 waits, thread 0 unlocks, thread 1 ends its pause and takes it.
abbrev handed_on : List (Wrapper.Event (Unit {0}))
handed_on = times 8 0 lock tt (times 20 1 lock tt (times 5 0 unlock tt (times 120 1 lock tt [])))

ticketepfl_scene : view_of ((mutex small_posix 2 handed_on).thread 1) ≡ inside
unfolding mutex
ticketepfl_scene = refl

ticketepfl_exclusive_example : waiter ≡ waiter
ticketepfl_exclusive_example =
    ticketepfl_exclusive small_posix 2 (omega arith) handed_on 1 1 (omega arith) (omega arith)
      ticketepfl_scene ticketepfl_scene

-- Thread 0 gives the lock back while thread 1 is about to look at `grant` with ticket 2.
abbrev spinning : List (Code.Event (Unit {0}))
spinning =
    let e : ℕ → Code.Op → Code.Event (Unit {0}) = λ i o. record { tid = i; op = o; input = tt } in
    e 0 Code.lock
    ∷ e 0 Code.lock
    ∷ e 0 Code.lock
    ∷ e 1 Code.lock
    ∷ e 1 Code.lock
    ∷ e 0 Code.unlock
    ∷ e 0 Code.unlock
    ∷ []

spins : (Code.run ticketepfl 2 spinning (start create)).view 1 ≡ at (spin 2 512 1)
unfolding ticketepfl Code.run
spins = refl

-- Two tickets behind the one that is served, where the counter has wrapped around in between.
wrapped_distance : sub_abs (2 ^ 32 - 1) 1 ≡ 2 ^ 32 - 2
unfolding sub_abs
wrapped_distance = refl
