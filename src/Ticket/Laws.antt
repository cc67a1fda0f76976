-- ===== src/Ticket/Laws.antt =====
-- What the ticket locks share: every step draws a ticket, gives one back or leaves the tickets alone.
use shfllock.Base.{ℕ, ◌+◌, ◌%◌, ◌<◌, ◌≡◌, ◌≢◌, Option, none, some}
use shfllock.Protocol.Code.{Code, View, outside, inside, Op, move}
use shfllock.Ticket.Dispenser.{modulus}

-- How a lock keeps its tickets: the next one to be drawn, the one that is served, the one that a
-- thread holds when `grant` is served, and what the locals of a thread say.
pub record Tickets (M P : Type 0) : Type 1 where
  pub next : M → ℕ
  pub grant : M → ℕ
  pub ticket_of : ℕ → View P → Option ℕ
  pub IsFresh : ℕ → View P → Type 0

module _ {M P : Type 0} (t : Tickets M P) where
  pub data Change (m : M) (v : View P) (m' : M) (v' : View P) : Type 0 where
    kept :
        t.next m' ≡ t.next m
        → t.grant m' ≡ t.grant m
        → t.ticket_of (t.grant m) v' ≡ t.ticket_of (t.grant m) v
        → Change m v m' v'
    drawn :
        t.ticket_of (t.grant m) v ≡ none
        → t.next m' ≡ (t.next m + 1) % modulus
        → t.grant m' ≡ t.grant m
        → t.ticket_of (t.grant m) v' ≡ some (t.next m)
        → Change m v m' v'
    dropped :
        t.ticket_of (t.grant m) v ≡ some (t.grant m)
        → t.next m' ≡ t.next m
        → t.grant m' ≡ (t.grant m + 1) % modulus
        → v' ≡ outside
        → Change m v m' v'

-- The laws of one step, and of the tickets of the threads that stand still.
pub record TicketLaws {M P I : Type 0} (c : Code M P I) (t : Tickets M P) : Type 0 where
  pub idle : (g : ℕ) → t.ticket_of g outside ≡ none
  pub idle_fresh : (g : ℕ) → t.IsFresh g outside
  pub served : (g : ℕ) → t.ticket_of g inside ≡ some g
  pub changes :
      (i : ℕ) (x : I) (o : Op) (m : M) (v : View P)
      → t.next m < modulus
      → t.grant m < modulus
      → t.IsFresh (t.grant m) v
      → Change t m v (move c i x o m v).0 (move c i x o m v).1
  pub freshens :
      (i : ℕ) (x : I) (o : Op) (m : M) (v : View P)
      → t.next m < modulus
      → t.grant m < modulus
      → t.IsFresh (t.grant m) v
      → t.IsFresh (t.grant (move c i x o m v).0) (move c i x o m v).1
  -- A thread that is not served keeps its ticket when the next one is served.
  pub ticket_other :
      (g g' : ℕ) (v : View P) → t.ticket_of g v ≢ some g → t.ticket_of g' v ≡ t.ticket_of g v
  pub fresh_other :
      (g g' : ℕ) (v : View P) → t.ticket_of g v ≢ some g → t.IsFresh g v → t.IsFresh g' v
