-- ===== src/Ticket/Epfl.antt =====
-- The lock of ticketepfl.c in every run: exclusion and the order of service.
use shfllock.Base.{ℕ, ◌<◌, ◌≤◌, ◌≡◌, ap, List, arith}
use shfllock.Protocol.Code.{View, at, inside, Op, move, turn, run, Event, start}
use shfllock.Protocol.Wrapper
use shfllock.Protocol.Wrapper.{Posix}
use shfllock.Protocol.Refinement.{view_of, project, wrapped-all}
use shfllock.Ticket.MutexEpfl.{TicketMutex, Pc, spin, ticketepfl, create, mutex}
use shfllock.Ticket.Dispenser.{modulus, ahead}
use shfllock.Ticket.ChangeEpfl.{ticket_of, laws}
use shfllock.Ticket.Invariant.{Inv, run-Inv, turn-ahead}

module _ {X : Type 0} (px : Posix X) (n : ℕ) (few : n < modulus)
    (es : List (Wrapper.Event (Unit {0}))) where
  final : Inv laws n few (project (mutex px n es))
  unfolding mutex
  final =
      wrapped-all ticketepfl px n create (Inv laws n few)
        (run-Inv laws n few create (omega arith) (omega arith)) es

  -- With fewer than 2 ^ 32 threads, whatever the schedule and the POSIX library do, two threads
  -- never hold a ticketepfl mutex together.
  pub ticketepfl_exclusive :
      (i j : ℕ)
      → i < n
      → j < n
      → view_of ((mutex px n es).thread i) ≡ inside
      → view_of ((mutex px n es).thread j) ≡ inside
      → i ≡ j
  ticketepfl_exclusive i j hi hj ei ej =
      let g = (mutex px n es).mem.grant in
      final.tickets.unique i j g hi hj (ap (ticket_of g) ei) (ap (ticket_of g) ej)

spin-grant :
    (i : ℕ) (x : Unit {0}) (o : Op) (m : TicketMutex) (v : View Pc) (t w d : ℕ)
    → v ≡ at (spin t w d)
    → (move ticketepfl i x o m v).0.grant ≡ m.grant
unfolding move ticketepfl
spin-grant i x o m v t w d waits = rw waits

-- With fewer than 2 ^ 32 threads, in every state that a schedule of ticketepfl.c leads to, whatever
-- event comes next: it puts no thread in front of one that is about to look at `grant` with a
-- ticket. `ahead` is how many tickets are served before that one.
pub ticketepfl_no_overtaking :
    (n : ℕ)
    → n < modulus
    → (es : List (Event (Unit {0}))) (e : Event (Unit {0})) (j t w d : ℕ) → j < n
    → (run ticketepfl n es (start create)).view j ≡ at (spin t w d)
    → ahead (turn ticketepfl n e (run ticketepfl n es (start create))).mem.grant t
      ≤ ahead (run ticketepfl n es (start create)).mem.grant t
ticketepfl_no_overtaking n few es e j t w d hj waits =
    let s = run ticketepfl n es (start create) in
    turn-ahead laws n few s e j t (run-Inv laws n few create (omega arith) (omega arith) es) hj
      (ap (ticket_of s.mem.grant) waits) (spin-grant j e.input e.op s.mem (s.view j) t w d waits)
