-- ===== src/Ticket/Fairness.antt =====
-- Threads are served in the order in which they drew their tickets.
use shfllock.Base.{ℕ, ◌≤◌, ◌<◌, ◌≡◌, refl, ap, List, arith}
use shfllock.Protocol.Code.{View, at, Op, move, turn, run, Event, start}
use shfllock.Ticket.Mutex.{ThreadInfo, TicketMutex, Pc, spin, ticket, create}
use shfllock.Ticket.Dispenser.{modulus, ahead}
use shfllock.Ticket.Change.{ticket_of, laws}
use shfllock.Ticket.Invariant.{run-Inv, turn-ahead}

-- A thread that spins does not give the lock back.
spin-grant :
    (i x : ℕ) (o : Op) (m : TicketMutex) (v : View Pc) (t : ℕ)
    → v ≡ at (spin t)
    → (move ticket i x o m v).0.grant ≡ m.grant
unfolding move ticket
spin-grant i x o m v t waits = rw waits

-- With fewer than 2 ^ 32 threads, in every state that a schedule leads to, whatever event comes
-- next: it puts no thread in front of one that spins with a ticket. `ahead` is how many tickets
-- are served before that one.
pub ticket_no_overtaking :
    (tinfo : ℕ → ThreadInfo) (last n : ℕ)
    → n < modulus
    → (es : List (Event ℕ)) (e : Event ℕ) (j t : ℕ) → j < n
    → (run ticket n es (start (create tinfo last))).view j ≡ at (spin t)
    → ahead (turn ticket n e (run ticket n es (start (create tinfo last)))).mem.grant t
      ≤ ahead (run ticket n es (start (create tinfo last))).mem.grant t
ticket_no_overtaking tinfo last n few es e j t hj waits =
    let m = create tinfo last in
    let s = run ticket n es (start m) in
    turn-ahead laws n few s e j t (run-Inv laws n few m refl (omega arith) es) hj
      (ap (ticket_of s.mem.grant) waits) (spin-grant j e.input e.op s.mem (s.view j) t waits)
