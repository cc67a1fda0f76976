-- ===== src/Partitioned/Moves.antt =====
-- Every step of the partitioned ticket lock leaves the line and the grants as they must be.
use shfllock.Base.{
  ℕ, suc, ◌%◌, ◌<◌, ◌≡◌, ◌≢◌, refl, sym, ◌∙◌, Bool, true, false, inl, inr, arith, assign,
  assign_other, each-assign, ◌⊎◌,
}
use shfllock.Mcs.Line.{Places, entered, left, enter-Line, leave-Line, Line-ext, same_place}
use shfllock.Protocol.Code.{View, outside, at, State}
use shfllock.Partitioned.Mutex.{PartitionedMutex, Pc, spin}
use shfllock.Partitioned.Facts.{within, Fact, Inv, Fact-other}

module _ {slots : ℕ} (some_slot : 0 < slots) {n k : ℕ} (s : State PartitionedMutex Pc)
    (v : Inv slots n (suc k) s) (i : ℕ) (low : i < n) where
  abbrev p : Places
  p = v.places

  abbrev in_line : ℕ → Bool
  in_line j = within (s.view j)

  abbrev FactOf : ℕ → View Pc → Type 0
  FactOf j w = Fact (p.place j) p.front s.mem.owner_ticket w

  within-assign :
      (w : View Pc) (j : ℕ) → assign in_line i (within w) j ≡ within (assign s.view i w j)
  within-assign w j = ground arith

  -- The thread at the front is the only one there.
  alone :
      in_line i ≡ true
      → p.place i ≡ p.front
      → (j : ℕ) → j ≢ i
      → j < n
      → in_line j ≡ true
      → p.place j ≢ p.front
  alone wi first j ne hj wj z = ne (sym (same_place v.line i j low hj wi wj (first ∙ sym z)))

  -- A move that leaves the line and the grants; the owner's ticket changes at the front alone.
  pub stay-Inv :
      (owner : ℕ) (w : View Pc)
      → in_line i ≡ within w
      → (owner ≡ s.mem.owner_ticket) ⊎ ((in_line i ≡ true) × (p.place i ≡ p.front))
      → Fact (p.place i) p.front owner w
      → Inv slots n k
          (record { mem = record s.mem { owner_ticket = owner }; view = assign s.view i w })
  stay-Inv owner w same who f = record {
    places = p;
    line = Line-ext (λ j. ground (arith, same)) v.line;
    request = v.request;
    bound = omega (arith, v.bound);
    served = v.served;
    passed = v.passed;
    each =
        each-assign (λ j w. j < n → Fact (p.place j) p.front owner w) s.view i w (λ h. f)
          (λ j ne hj. elim who [
            | inl e ↦ rw e (v.each j hj)
            | inr (wi, first) ↦
                Fact-other (p.place j) p.front p.front s.mem.owner_ticket owner (s.view j)
                  (alone wi first j ne hj) (v.each j hj)
          ]);
  }

  -- A thread draws the next ticket.
  pub enter-Inv :
      in_line i ≡ false
      → Inv slots n k (record {
        mem = record s.mem { request = suc p.back };
        view = assign s.view i (at (spin p.back));
      })
  enter-Inv out = record {
    places = entered p i;
    line = Line-ext (λ j. ground arith) (enter-Line v.line i low out);
    request = refl;
    bound = omega (arith, v.bound);
    served = v.served;
    passed = v.passed;
    each =
        each-assign (λ j w. j < n → Fact (assign p.place i p.back j) p.front s.mem.owner_ticket w)
          s.view i (at (spin p.back)) (λ h. ground arith)
          (λ j ne hj. rw (assign_other p.place i p.back j ne) (v.each j hj));
  }

  -- The first thread grants the ticket behind its own, and leaves.
  pub leave-Inv :
      in_line i ≡ true
      → p.place i ≡ p.front
      → Inv slots n k (record {
        mem = record s.mem { grants = assign s.mem.grants (suc p.front % slots) (suc p.front) };
        view = assign s.view i outside;
      })
  leave-Inv wi first = record {
    places = left p;
    line = Line-ext (λ j. ground arith) (leave-Line v.line i low wi first);
    request = v.request;
    bound = omega (arith, v.bound);
    served = ground arith;
    passed = λ r h. ground (arith, v.passed r h);
    each =
        each-assign (λ j w. j < n → Fact (p.place j) (suc p.front) s.mem.owner_ticket w) s.view i
          outside (λ h. tt)
          (λ j ne hj.
            Fact-other (p.place j) p.front (suc p.front) s.mem.owner_ticket s.mem.owner_ticket
              (s.view j) (alone wi first j ne hj) (v.each j hj));
  }
