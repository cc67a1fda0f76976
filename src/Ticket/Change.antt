-- ===== src/Ticket/Change.antt =====
-- The tickets of ticket.c, and what each of its steps does to them.
use shfllock.Base.{
  ℕ, ◌+◌, ◌/◌, ◌%◌, ◌<◌, ◌≡◌, ◌≢◌, refl, inl, inr, Bool-cases, Option, none, some, arith, ◌==◌,
}
use shfllock.Protocol.Cases.{move-cases}
use shfllock.Protocol.Code.{View, outside, at, inside, Op, lock, move, after}
use shfllock.Ticket.Mutex.{
  TicketMutex, Pc, first_use, spin, try_swap, account, grant_read, grant_write, ticket, word,
}
use shfllock.Ticket.Dispenser.{modulus}
use shfllock.Ticket.Laws.{Tickets, TicketLaws, Change, kept, drawn, dropped}

-- The ticket of a thread. The one that is served has no use for its own copy.
abbrev pub ticket_of : ℕ → View Pc → Option ℕ
ticket_of grant (at (spin t)) = some t
ticket_of grant (at account) = some grant
ticket_of grant (at grant_read) = some grant
ticket_of grant (at (grant_write g)) = some grant
ticket_of grant inside = some grant
ticket_of grant v = none

-- What the locals of a thread say.
abbrev pub IsFresh : ℕ → View Pc → Type 0
IsFresh grant (at (grant_write g)) = g ≡ grant
IsFresh grant (at (try_swap me)) = me < modulus
IsFresh grant v = Unit {0}

abbrev pub tickets : Tickets TicketMutex Pc
tickets = record {
  next = λ m. m.request;
  grant = λ m. m.grant;
  ticket_of = ticket_of;
  IsFresh = IsFresh;
}

swap-wins :
    (r g me : ℕ)
    → r < modulus
    → g < modulus
    → me < modulus
    → word r g ≡ word me me
    → (r ≡ me)
      × (g ≡ me)
      × (word ((me + 1) % modulus) me / modulus ≡ (me + 1) % modulus)
      × (word ((me + 1) % modulus) me % modulus ≡ me)
swap-wins r g me hr hg hm e = omega arith

module _ (i x : ℕ) (m : TicketMutex) (hr : m.request < modulus) (hg : m.grant < modulus) where
  swap-Change :
      (me : ℕ)
      → me < modulus
      → Change tickets m
          (at (try_swap me))
          (ticket.step i x m (try_swap me)).0
          (after (ticket.step i x m (try_swap me)).1)
  unfolding ticket
  swap-Change me hm = elim (Bool-cases (word m.request m.grant == word me me)) [
    | inr busy ↦ rw busy (kept refl refl refl)
    | inl free ↦
        let won = swap-wins m.request m.grant me hr hg hm (ground arith) in
        rw free (drawn refl (ground (arith, won)) (ground (arith, won)) (ground (arith, won)))
  ]

  step-Change :
      (p : Pc)
      → IsFresh m.grant (at p)
      → Change tickets m (at p) (ticket.step i x m p).0 (after (ticket.step i x m p).1)
  unfolding ticket
  step-Change (try_swap me) f = swap-Change me f
  step-Change first_use f = kept (ground arith) (ground arith) refl
  step-Change Pc.ban_test f = kept refl refl (ground arith)
  step-Change Pc.ban_wait f = kept refl refl (ground arith)
  step-Change Pc.fetch f = drawn refl refl refl refl
  step-Change (spin t) f = kept refl refl (ground arith)
  step-Change Pc.try_read f = kept refl refl refl
  step-Change account f = kept refl refl refl
  step-Change grant_read f = kept refl refl refl
  step-Change (grant_write g) f = dropped refl refl (rw f) refl

  move-Change :
      (o : Op) (v : View Pc)
      → IsFresh m.grant v
      → Change tickets m v (move ticket i x o m v).0 (move ticket i x o m v).1
  unfolding ticket
  move-Change =
      move-cases ticket i x m (λ v r. IsFresh m.grant v → Change tickets m v r.0 r.1) step-Change
        (λ f. kept refl refl refl) (λ f. kept refl refl refl) (λ f. kept refl refl refl)
        (λ f. kept refl refl refl) (λ f. kept refl refl refl) (λ v f. kept refl refl refl)

  -- The locals of the thread that moves are right behind its move.
  move-IsFresh :
      (o : Op) (v : View Pc)
      → IsFresh m.grant v
      → IsFresh (move ticket i x o m v).0.grant (move ticket i x o m v).1
  unfolding move ticket
  move-IsFresh o (at first_use) f = ground arith
  move-IsFresh lock inside f = tt
  move-IsFresh lock outside f = tt
  move-IsFresh o v f = ground arith

-- A thread that is not served keeps its ticket when the next one is served.
ticket-other : (g g' : ℕ) (v : View Pc) → ticket_of g v ≢ some g → ticket_of g' v ≡ ticket_of g v
ticket-other g g' (at p) ne = ground arith
ticket-other g g' v ne = ground arith

IsFresh-other : (g g' : ℕ) (v : View Pc) → ticket_of g v ≢ some g → IsFresh g v → IsFresh g' v
IsFresh-other g g' (at p) ne f = ground arith
IsFresh-other g g' v ne f = ground arith

pub laws : TicketLaws ticket tickets
laws = record {
  idle = λ g. refl;
  idle_fresh = λ g. tt;
  served = λ g. refl;
  changes = λ i x o m v hr hg f. move-Change i x m hr hg o v f;
  freshens = λ i x o m v hr hg f. move-IsFresh i x m hr hg o v f;
  ticket_other = ticket-other;
  fresh_other = IsFresh-other;
}
