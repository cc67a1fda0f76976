-- ===== src/Alock/Moves.antt =====
-- Every step of the array lock leaves the line and the flags as they must be.
use shfllock.Base.{
  ℕ, suc, ◌+◌, ◌%◌, ◌≤◌, ◌<◌, ◌≡◌, ◌≢◌, refl, sym, ap, ◌∙◌, subst, Bool, true, false, inl, inr,
  Bool-cases, arith, ◌==◌, assign, tally, tally-assign, tally-le, tally_ext,
}
use shfllock.Atomic.{locked, unlocked}
use shfllock.Mcs.Line.{Places, entered, left, enter-Line, leave-Line, Line-ext, same_place}
use shfllock.Protocol.Code.{View, outside, at, State}
use shfllock.Alock.Mutex.{slots, AlockMutex, Pc, shut, open_next}
use shfllock.Alock.Facts.{within, counts, Fact, FactIn, Inv, Fact-enter, Fact-leave, Fact-shut}

counts-le : (b : Bool) → counts b ≤ 1
counts-le b = ground arith

module _ {n k : ℕ} (few : n ≤ slots) (s : State AlockMutex Pc) (v : Inv n (suc k) s) (i : ℕ)
    (low : i < n) where
  abbrev p : Places
  p = v.places

  abbrev in_line : ℕ → Bool
  in_line j = within (s.view j)

  abbrev FactOf : ℕ → View Pc → Type 0
  FactOf j w = FactIn p s.mem j w

  -- The line after a move of thread `i` to `w`.
  within-assign :
      (w : View Pc) (j : ℕ) → assign in_line i (within w) j ≡ within (assign s.view i w j)
  within-assign w j = ground arith

  tally-within :
      (w : View Pc)
      → tally counts n (λ j. within (assign s.view i w j)) + counts (in_line i)
        ≡ tally counts n in_line + counts (within w)
  tally-within w =
      let e = tally_ext counts n _ _ (λ j h. within-assign w j) in
      let t = tally-assign counts n in_line i (within w) low in omega (arith, e, t)

  -- The places that are taken have slots of their own.
  pub window : p.back ≤ p.front + slots
  window = let most = tally-le counts counts-le n in_line in omega (arith, most, v.count, few)

  -- A thread that is not in the line leaves room in it.
  pub room : in_line i ≡ false → p.back < p.front + slots
  room e =
      let t = tally-assign counts n in_line i true low in
      let most = tally-le counts counts-le n (assign in_line i true) in
      ground (arith, t, most, v.count, e, few)

  -- A move that leaves the memory and the line.
  pub stay-Inv :
      (w : View Pc)
      → within (s.view i) ≡ within w
      → FactOf i w
      → Inv n k (record s { view = assign s.view i w })
  stay-Inv w same own = record {
    places = p;
    line = Line-ext (λ j. ground (arith, same)) v.line;
    count = ground (arith, tally-within w, v.count, same);
    tail = v.tail;
    bound = omega (arith, v.bound);
    opened = v.opened;
    each = λ j hj. elim (Bool-cases (i == j)) [
      | inl own' ↦
          let e : i ≡ j = ground arith in
          let here : w ≡ assign s.view i w j = ground arith in
          subst (FactOf j) here (subst (λ l. FactOf l w) e own)
      | inr ne ↦
          let here : s.view j ≡ assign s.view i w j = ground arith in
          subst (FactOf j) here (v.each j hj)
    ];
  }

  abbrev Entered : ℕ → View Pc → Type 0
  Entered j =
      Fact (assign p.place i p.back j) p.front (suc p.back) (s.mem.flags (p.front % slots))
        (assign s.mem.my_index i (p.back % slots) j)

  -- A thread takes the place behind the others.
  pub enter-Inv :
      (w : View Pc)
      → in_line i ≡ false
      → within w ≡ true
      → Fact p.back p.front (suc p.back) (s.mem.flags (p.front % slots)) (p.back % slots) w
      → Inv n k (record {
        mem = record s.mem {
          tail = suc p.back;
          my_index = assign s.mem.my_index i (p.back % slots);
        };
        view = assign s.view i w;
      })
  enter-Inv w out on own = record {
    places = entered p i;
    line = Line-ext (λ j. ground (arith, on)) (enter-Line v.line i low out);
    count = ground (arith, tally-within w, v.count, out, on);
    tail = refl;
    bound = omega (arith, v.bound);
    opened = v.opened;
    each = λ j hj. elim (Bool-cases (i == j)) [
      | inl same ↦
          let here : w ≡ assign s.view i w j = ground arith in subst (Entered j) here (rw same own)
      | inr ne ↦
          let here : s.view j ≡ assign s.view i w j = ground arith in
          subst (Entered j) here (rw ne (Fact-enter _ _ _ _ _ (s.view j) (v.each j hj)))
    ];
  }

  -- The first thread shuts its slot.
  pub shut-Inv :
      s.view i ≡ at shut
      → Inv n k (record {
        mem = record s.mem { flags = assign s.mem.flags (s.mem.my_index i) locked };
        view = assign s.view i (at (open_next (s.mem.my_index i)));
      })
  shut-Inv e =
      let f = subst (FactOf i) e (v.each i low) in
      let w : View Pc = at (open_next (s.mem.my_index i)) in
      let slot_is : s.mem.my_index i ≡ p.front % slots = omega (arith, f) in
      let is_shut : assign s.mem.flags (s.mem.my_index i) locked (p.front % slots) ≡ locked =
        ground (arith, slot_is) in
      record {
        places = p;
        line = Line-ext (λ j. ground arith) v.line;
        count = ground (arith, tally-within w, v.count);
        tail = v.tail;
        bound = omega (arith, v.bound);
        opened = λ r h. ground (arith, v.opened r h);
        each = λ j hj. elim (Bool-cases (i == j)) [
          | inl own ↦
              let same : i ≡ j = ground arith in
              let here : w ≡ assign s.view i w j = ground arith in
              subst (Fact _ _ _ _ _) here
                (ground (arith, f, same), ground (arith, f, same), is_shut)
          | inr ne ↦
              let here : s.view j ≡ assign s.view i w j = ground arith in
              subst (Fact _ _ _ _ _) here (Fact-shut _ _ _ _ _ _ (s.view j) is_shut (v.each j hj))
        ];
      }

  -- The first thread opens the slot behind, and leaves.
  pub leave-Inv :
      (slot : ℕ)
      → s.view i ≡ at (open_next slot)
      → Inv n k (record {
        mem = record s.mem { flags = assign s.mem.flags ((slot + 1) % slots) unlocked };
        view = assign s.view i outside;
      })
  leave-Inv slot e =
      let f = subst (FactOf i) e (v.each i low) in
      let w = ap within e in
      let first : p.place i ≡ p.front = f.1 in
      let here = v.line.placed i low w in
      record {
        places = left p;
        line = Line-ext (λ j. ground arith) (leave-Line v.line i low w first);
        count = ground (arith, tally-within outside, v.count, w);
        tail = v.tail;
        bound = omega (arith, v.bound);
        opened = λ r h. ground (arith, v.opened r h, f);
        each = λ j hj. elim (Bool-cases (i == j)) [
          | inl own ↦
              let there : outside ≡ assign s.view i outside j = ground arith in
              subst (Fact _ _ _ _ _) there tt
          | inr ne ↦
              let there : s.view j ≡ assign s.view i outside j = ground arith in
              let other : in_line j ≡ true → p.place j ≢ p.front =
                λ wj z. ground (arith, same_place v.line i j low hj w wj (first ∙ sym z), ne) in
              subst (Fact _ _ _ _ _) there
                (Fact-leave _ _ _ _ _ _ (s.view j) (omega (arith, here, first)) other (v.each j hj))
        ];
      }
