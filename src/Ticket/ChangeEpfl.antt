-- ===== src/Ticket/ChangeEpfl.antt =====
-- The tickets of ticketepfl.c: what each of its steps does to them.
use shfllock.Base.{
  ℕ, zero, suc, ◌+◌, ◌*◌, ◌/◌, ◌%◌, ◌^◌, ◌<◌, ◌≡◌, ◌≢◌, refl, inl, inr, Bool-cases, Option, none,
  some, arith, ◌==◌,
}
use shfllock.Protocol.Cases.{move-cases}
use shfllock.Protocol.Code.{View, outside, at, inside, Op, lock, move, after}
use shfllock.Ticket.Mutex.{u64}
use shfllock.Ticket.MutexEpfl.{
  TicketMutex, Pc, fetch, spin, pause, try_read, try_swap, grant_read, grant_write, back_off, word,
  ticketepfl,
}
use shfllock.Ticket.Dispenser.{modulus}
use shfllock.Ticket.Laws.{Tickets, TicketLaws, Change, kept, drawn, dropped}

abbrev pub ticket_of : ℕ → View Pc → Option ℕ
ticket_of grant (at (spin t w d)) = some t
ticket_of grant (at (pause t w d k)) = some t
ticket_of grant (at grant_read) = some grant
ticket_of grant (at (grant_write g)) = some grant
ticket_of grant inside = some grant
ticket_of grant v = none

abbrev pub IsFresh : ℕ → View Pc → Type 0
IsFresh grant (at (grant_write g)) = g ≡ grant
IsFresh grant v = Unit {0}

-- The next ticket is one more than `request`.
abbrev pub tickets : Tickets TicketMutex Pc
tickets = record {
  next = λ m. (m.request + 1) % modulus;
  grant = λ m. m.grant;
  ticket_of = ticket_of;
  IsFresh = IsFresh;
}

swap-wins :
    (m : TicketMutex) (me : ℕ)
    → m.grant < modulus
    → word m ≡ u64 (me * 2 ^ 32) + (me + 1) % modulus
    → ((m.request + 1) % modulus ≡ (me + 1) % modulus)
      × (m.grant ≡ (me + 1) % modulus)
      × ((u64 ((me + 1) % modulus * 2 ^ 32) + (me + 1) % modulus) / modulus ≡ (me + 1) % modulus)
      × ((u64 ((me + 1) % modulus * 2 ^ 32) + (me + 1) % modulus) % modulus ≡ (me + 1) % modulus)
swap-wins m me hg e = omega arith

back_off-ticket : (g cur t w d : ℕ) → ticket_of g (at (back_off cur t w d)) ≡ some t
unfolding back_off
back_off-ticket g cur t w d = ground arith

back_off-IsFresh : (g cur t w d : ℕ) → IsFresh g (at (back_off cur t w d))
unfolding back_off
back_off-IsFresh g cur t w d = ground arith

module _ (i : ℕ) (x : Unit {0}) (m : TicketMutex) (hg : m.grant < modulus) where
  swap-Change :
      (me : ℕ)
      → Change tickets m
          (at (try_swap me))
          (ticketepfl.step i x m (try_swap me)).0
          (after (ticketepfl.step i x m (try_swap me)).1)
  unfolding ticketepfl
  swap-Change me = elim (Bool-cases (word m == u64 (me * 2 ^ 32) + (me + 1) % modulus)) [
    | inr busy ↦ rw busy (kept refl refl refl)
    | inl free ↦
        let won = swap-wins m me hg (ground arith) in
        rw free (drawn refl (ground (arith, won)) (ground (arith, won)) (ground (arith, won)))
  ]

  spin-Change :
      (t w d : ℕ)
      → Change tickets m
          (at (spin t w d))
          (ticketepfl.step i x m (spin t w d)).0
          (after (ticketepfl.step i x m (spin t w d)).1)
  unfolding ticketepfl
  spin-Change t w d = kept refl refl (ground (arith, back_off-ticket m.grant m.grant t w d))

  step-Change :
      (p : Pc)
      → IsFresh m.grant (at p)
      → Change tickets m (at p) (ticketepfl.step i x m p).0 (after (ticketepfl.step i x m p).1)
  unfolding ticketepfl
  step-Change (try_swap me) f = swap-Change me
  step-Change (spin t w d) f = spin-Change t w d
  step-Change fetch f = drawn refl (ground arith) refl refl
  step-Change (pause t w d zero) f = kept refl refl refl
  step-Change (pause t w d (suc k)) f = kept refl refl refl
  step-Change try_read f = kept refl refl refl
  step-Change grant_read f = kept refl refl refl
  step-Change (grant_write g) f = dropped refl refl (rw f) refl

  move-Change :
      (o : Op) (v : View Pc)
      → IsFresh m.grant v
      → Change tickets m v (move ticketepfl i x o m v).0 (move ticketepfl i x o m v).1
  unfolding ticketepfl
  move-Change =
      move-cases ticketepfl i x m (λ v r. IsFresh m.grant v → Change tickets m v r.0 r.1)
        step-Change (λ f. kept refl refl refl) (λ f. kept refl refl refl) (λ f. kept refl refl refl)
        (λ f. kept refl refl refl) (λ f. kept refl refl refl) (λ v f. kept refl refl refl)

  move-IsFresh :
      (o : Op) (v : View Pc)
      → IsFresh m.grant v
      → IsFresh (move ticketepfl i x o m v).0.grant (move ticketepfl i x o m v).1
  unfolding move ticketepfl
  move-IsFresh o (at (spin t w d)) f = ground (arith, back_off-IsFresh m.grant m.grant t w d)
  move-IsFresh o (at (pause t w d zero)) f = tt
  move-IsFresh o (at (pause t w d (suc k))) f = tt
  move-IsFresh lock inside f = tt
  move-IsFresh lock outside f = tt
  move-IsFresh o v f = ground arith

ticket-other : (g g' : ℕ) (v : View Pc) → ticket_of g v ≢ some g → ticket_of g' v ≡ ticket_of g v
ticket-other g g' (at p) ne = ground arith
ticket-other g g' v ne = ground arith

IsFresh-other : (g g' : ℕ) (v : View Pc) → ticket_of g v ≢ some g → IsFresh g v → IsFresh g' v
IsFresh-other g g' (at p) ne f = ground arith
IsFresh-other g g' v ne f = ground arith

pub laws : TicketLaws ticketepfl tickets
laws = record {
  idle = λ g. refl;
  idle_fresh = λ g. tt;
  served = λ g. refl;
  changes = λ i x o m v hr hg f. move-Change i x m hg o v f;
  freshens = λ i x o m v hr hg f. move-IsFresh i x m hg o v f;
  ticket_other = ticket-other;
  fresh_other = IsFresh-other;
}
