-- ===== src/Ticket/Exclusion.antt =====
-- One thread at most is served, however the tickets wrap around.
use shfllock.Base.{refl, arith, ℕ, ◌+◌, ◌%◌, ◌<◌, ◌≡◌, ap, some, List, tally}
use shfllock.Protocol.Code.{inside}
use shfllock.Protocol.Wrapper
use shfllock.Protocol.Wrapper.{Posix}
use shfllock.Protocol.Refinement.{view_of, project, wrapped-all}
use shfllock.Ticket.Mutex.{ThreadInfo, TicketMutex, Pc, ticket, create, mutex}
use shfllock.Ticket.Change.{ticket_of, laws}
use shfllock.Ticket.Invariant.{Inv, run-Inv}
use shfllock.Ticket.Dispenser.{ahead, modulus, holds}

-- How many of `n` threads have a ticket.
abbrev pub in_use : {X : Type 0} → ℕ → Wrapper.State TicketMutex Pc X → ℕ
in_use n s = tally holds n (λ j. ticket_of s.mem.grant (view_of (s.thread j)))

module _ {X : Type 0} (tinfo : ℕ → ThreadInfo) (last : ℕ) (px : Posix X) (n : ℕ) (few : n < modulus)
    (es : List (Wrapper.Event ℕ)) where
  final : Inv laws n few (project (mutex tinfo last px n es))
  unfolding mutex
  final =
      wrapped-all ticket px n (create tinfo last) (Inv laws n few)
        (run-Inv laws n few (create tinfo last) refl (omega arith)) es

  -- With fewer than 2 ^ 32 threads, whatever the schedule, the clock and the POSIX library do, two
  -- threads never hold a ticket mutex together, although the tickets wrap around.
  pub ticket_exclusive :
      (i j : ℕ)
      → i < n
      → j < n
      → view_of ((mutex tinfo last px n es).thread i) ≡ inside
      → view_of ((mutex tinfo last px n es).thread j) ≡ inside
      → i ≡ j
  ticket_exclusive i j hi hj ei ej =
      let g = (mutex tinfo last px n es).mem.grant in
      final.tickets.unique i j g hi hj (ap (ticket_of g) ei) (ap (ticket_of g) ej)

  -- With fewer than 2 ^ 32 threads, in every run, the ticket that a thread has drawn and not given
  -- back lies in front of `request`: fewer tickets are served before it than there are in use, and
  -- `request` is as far from `grant` as there are tickets in use.
  pub ticket_in_range :
      (j t : ℕ)
      → j < n
      → ticket_of
          (mutex tinfo last px n es).mem.grant
          (view_of ((mutex tinfo last px n es).thread j))
        ≡ some t
      → (ahead (mutex tinfo last px n es).mem.grant t < in_use n (mutex tinfo last px n es))
        × ((mutex tinfo last px n es).mem.request
            ≡ ((mutex tinfo last px n es).mem.grant + in_use n (mutex tinfo last px n es))
              % modulus)
  ticket_in_range j t hj e = ((final.tickets.range j t hj e).1, final.tickets.handed)

  -- With fewer than 2 ^ 32 threads, in every run, no two threads have the same ticket.
  pub ticket_unique :
      (i j t : ℕ)
      → i < n
      → j < n
      → ticket_of
          (mutex tinfo last px n es).mem.grant
          (view_of ((mutex tinfo last px n es).thread i))
        ≡ some t
      → ticket_of
          (mutex tinfo last px n es).mem.grant
          (view_of ((mutex tinfo last px n es).thread j))
        ≡ some t
      → i ≡ j
  ticket_unique = final.tickets.unique
