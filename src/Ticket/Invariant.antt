-- ===== src/Ticket/Invariant.antt =====
-- The tickets stay as they should in every run of a ticket lock, and threads are served in order.
use shfllock.Base.{
  ℕ, ◌<◌, ◌≤◌, ◌≡◌, ◌≢◌, sym, ap, ◌∙◌, inl, inr, Bool-cases, false, some, List, arith, ltb, ◌==◌,
  assign, tally, tally-const,
}
use native.Mathlib.Nat.{le_refl}
use shfllock.Protocol.Code.{Code, View, inside, Op, State, move, turn, run, Event, start}
use shfllock.Protocol.Induct.{moved, run-keeps}
use shfllock.Ticket.Laws.{Tickets, TicketLaws, Change, kept, drawn, dropped}
use shfllock.Ticket.Dispenser.{modulus, ahead, Dispensed, Dispensed-ext, draw, drop, holds}

module _ {M P I : Type 0} {c : Code M P I} {t : Tickets M P} (laws : TicketLaws c t) (n : ℕ)
    (few : n < modulus) where
  pub record Inv (s : State M P) : Type 0 where
    pub tickets :
        Dispensed n (t.next s.mem) (t.grant s.mem) (λ j. t.ticket_of (t.grant s.mem) (s.view j))
    pub fresh : (j : ℕ) → j < n → t.IsFresh (t.grant s.mem) (s.view j)

  module _ (m : M) (view : ℕ → View P)
      (d : Dispensed n (t.next m) (t.grant m) (λ j. t.ticket_of (t.grant m) (view j))) (i : ℕ)
      (low : i < n) where
    -- Another thread is not served while thread `i` is.
    pub other :
        t.ticket_of (t.grant m) (view i) ≡ some (t.grant m)
        → (j : ℕ) → j < n
        → (i == j) ≡ false
        → t.ticket_of (t.grant m) (view j) ≢ some (t.grant m)
    other e j h ne served = ground (arith, d.unique i j (t.grant m) low h e served)

    step-tickets :
        (m' : M) (v' : View P)
        → Change t m (view i) m' v'
        → Dispensed n (t.next m') (t.grant m') (λ j. t.ticket_of (t.grant m') (assign view i v' j))
    step-tickets m' v' (kept a b e) = rw (a, b) (Dispensed-ext (λ j h. ground arith) d)
    step-tickets m' v' (drawn a b e f) =
        rw (b, e) (Dispensed-ext (λ j h. ground arith) (draw d few i low a))
    step-tickets m' v' (dropped a b e f) =
        rw (b, e, f)
          (Dispensed-ext
            (λ j h. elim (Bool-cases (i == j)) [
              | inl own ↦ rw own (sym (laws.idle _))
              | inr ne ↦ rw ne (sym (laws.ticket_other (t.grant m) _ (view j) (other a j h ne)))
            ])
            (drop d few i low a))

    step-others :
        (m' : M) (v' : View P)
        → Change t m (view i) m' v'
        → (j : ℕ) → j < n
        → (i == j) ≡ false
        → t.IsFresh (t.grant m) (view j)
        → t.IsFresh (t.grant m') (view j)
    step-others m' v' (kept a b e) j h ne f = rw b f
    step-others m' v' (drawn a b e g) j h ne f = rw e f
    step-others m' v' (dropped a b e g) j h ne f =
        rw e (laws.fresh_other (t.grant m) _ (view j) (other a j h ne) f)

    -- No other thread goes in front of one that has a ticket.
    Change-ahead :
        (m' : M) (v' : View P) (j u : ℕ)
        → j < n
        → (t.ticket_of (t.grant m) (view j) ≡ some u)
        → (i == j) ≡ false
        → Change t m (view i) m' v'
        → ahead (t.grant m') u ≤ ahead (t.grant m) u
    Change-ahead m' v' j u hj mine ne (kept a b e) = rw b (le_refl _)
    Change-ahead m' v' j u hj mine ne (drawn a b e f) = rw e (le_refl _)
    Change-ahead m' v' j u hj mine ne (dropped a b e f) =
        let later : u ≢ t.grant m = λ same. other a j hj ne (mine ∙ ap some same) in
        rw e (omega (arith, d.range j u hj mine, d.grant_small, later))

  step-Inv : (i : ℕ) (x : I) (o : Op) (s : State M P) → i < n → Inv s → Inv (moved c i x o s)
  step-Inv i x o s low v =
      let r = move c i x o s.mem (s.view i) in
      let small = v.tickets in
      let change =
        laws.changes i x o s.mem (s.view i) small.request_small small.grant_small (v.fresh i low) in
      let f =
        laws.freshens i x o s.mem (s.view i) small.request_small small.grant_small
          (v.fresh i low) in
      record {
        tickets = step-tickets s.mem s.view v.tickets i low r.0 r.1 change;
        fresh = λ j h. elim (Bool-cases (i == j)) [
          | inl own ↦ rw own f
          | inr ne ↦
              rw ne (step-others s.mem s.view v.tickets i low r.0 r.1 change j h ne (v.fresh j h))
        ];
      }

  pub start-Inv : (m : M) → t.next m ≡ t.grant m → t.grant m < modulus → Inv (start m)
  start-Inv m free small =
      let nobody : tally holds n (λ j. t.ticket_of (t.grant m) View.outside) ≡ 0 =
        tally-const holds n (t.ticket_of (t.grant m) View.outside)
          (ap holds (laws.idle (t.grant m))) in
      let none_holds : (u : ℕ) → t.ticket_of (t.grant m) View.outside ≢ some u =
        λ u e. (let idle = laws.idle (t.grant m) in cc) in
      record {
        tickets = record {
          request_small = omega (arith, free);
          grant_small = small;
          handed = omega (arith, nobody, free);
          range = λ i u h e. absurd (none_holds u e);
          unique = λ i j u h k e. absurd (none_holds u e);
        };
        fresh = λ j h. laws.idle_fresh _;
      }

  module _ (m : M) (free : t.next m ≡ t.grant m) (small : t.grant m < modulus)
      (es : List (Event I)) where
    pub run-Inv : Inv (run c n es (start m))
    run-Inv = run-keeps c n Inv step-Inv es (start m) (start-Inv m free small)

    -- Behind every run, one thread at most is served.
    pub run-serves_one :
        (i j : ℕ)
        → i < n
        → j < n
        → (run c n es (start m)).view i ≡ inside
        → (run c n es (start m)).view j ≡ inside
        → i ≡ j
    run-serves_one i j hi hj ei ej =
        let g = t.grant (run c n es (start m)).mem in
        run-Inv.tickets.unique i j g hi hj (ap (t.ticket_of g) ei ∙ laws.served g)
          (ap (t.ticket_of g) ej ∙ laws.served g)

  -- No event puts a thread in front of one that has a ticket and does not give it back.
  pub turn-ahead :
      (s : State M P) (e : Event I) (j u : ℕ)
      → Inv s
      → j < n
      → t.ticket_of (t.grant s.mem) (s.view j) ≡ some u
      → t.grant (move c j e.input e.op s.mem (s.view j)).0 ≡ t.grant s.mem
      → ahead (t.grant (turn c n e s).mem) u ≤ ahead (t.grant s.mem) u
  unfolding turn
  turn-ahead s e j u v hj mine own = elim (Bool-cases (ltb e.tid n)) [
    | inr out ↦ rw out (le_refl _)
    | inl real ↦
        let low : e.tid < n = ground arith in
        rw real (elim (Bool-cases (e.tid == j)) [
          | inl same ↦ let e_is : e.tid ≡ j = ground arith in rw (e_is, own) (le_refl _)
          | inr ne ↦ Change-ahead s.mem s.view v.tickets e.tid low _ _ j u hj mine ne (
              laws.changes e.tid e.input e.op s.mem (s.view e.tid) v.tickets.request_small
                v.tickets.grant_small (v.fresh e.tid low))
        ])
  ]
