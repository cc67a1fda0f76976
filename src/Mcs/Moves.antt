-- ===== src/Mcs/Moves.antt =====
-- Each move of a thread of an MCS lock leaves the queue as it must be.
use shfllock.Base.{
  ℕ, suc, ◌-◌, ◌<◌, ◌≡◌, ◌≢◌, refl, ◌∙◌, subst, inl, inr, true, false, Bool-cases, arith, dec_lt,
  ◌==◌, assign,
}
use shfllock.Atomic.{unlocked}
use shfllock.Mcs.Memory.{Ptr, null, node_of, McsMutex, set_tail, set_next, set_spin}
use shfllock.Mcs.Line.{Places, Line, entered, left, enter-Line, leave-Line, Line-ext}
use shfllock.Mcs.Stage.{Stage, out, linking, waiting, within, late}
use shfllock.Mcs.Facts.{
  follower, is_first, before, Fact, FactOf, Inv, Fact-same, Fact-linked, Fact-first, enter-follower,
}

module _ {n : ℕ} {m : McsMutex} {stage : ℕ → Stage} (v : Inv n m stage) (i : ℕ) (low : i < n) where
  abbrev p : Places
  p = v.places

  -- The facts of the other threads and that of the thread that moves.
  all-Fact :
      (m' : McsMutex) (p' : Places) (s' : Stage)
      → ((j : ℕ) → j < n → (i == j) ≡ false → FactOf m' p' (assign stage i s') j (stage j))
      → FactOf m' p' (assign stage i s') i s'
      → (j : ℕ) → j < n
      → FactOf m' p' (assign stage i s') j (assign stage i s' j)
  all-Fact m' p' s' others own j hj = elim (Bool-cases (i == j)) [
    | inl same ↦
        let e : i ≡ j = ground arith in
        rw same (subst (λ k. FactOf m' p' (assign stage i s') k s') e own)
    | inr ne ↦ rw ne (others j hj ne)
  ]

  -- A move that leaves the line and the nodes of the other threads.
  pub steady :
      (m' : McsMutex) (s' : Stage)
      → m'.tail ≡ m.tail
      → ((j : ℕ)
          → (i == j) ≡ false
          → (m.next (node_of j) ≡ m'.next (node_of j)) × (m.spin (node_of j) ≡ m'.spin (node_of j)))
      → within (stage i) ≡ within s'
      → late (stage i) ≡ late s'
      → Fact
          (m'.next (node_of i))
          (m'.spin (node_of i))
          (follower p stage i)
          (is_first p stage i)
          (before p stage i)
          s'
      → Inv n m' (assign stage i s')
  steady m' s' et nodes ew el own = record {
    places = p;
    line = Line-ext (λ j. ground arith) v.line;
    tail = et ∙ v.tail;
    each =
        all-Fact m' p s'
          (λ j hj ne.
            Fact-same _ _ _ _ _ _ _ _ _ _ (stage j) (nodes j ne).0 (nodes j ne).1
              (λ w. (follower-same j, refl, refl)) (v.each j hj))
          (subst
            (λ fo.
              Fact (m'.next (node_of i)) (m'.spin (node_of i)) fo (is_first p stage i)
                (before p stage i) s')
            (follower-same i) own);
  }
    where
      follower-same : (j : ℕ) → follower p stage j ≡ follower p (assign stage i s') j
      follower-same j = ground (arith, el)

  -- A thread points the one before to itself.
  pub link-Inv :
      (q : Ptr) → stage i ≡ linking q → Inv n (set_next m q (node_of i)) (assign stage i waiting)
  link-Inv q e =
      let k = p.owner (p.place i - 1) in
      let f = subst (FactOf m p stage i) e (v.each i low) in
      let here = v.line.placed i low (ground arith) in
      let there = v.line.owned (p.place i - 1) (ground (arith, here, f)) (ground (arith, here)) in
      let apart : (i == k) ≡ false = ground (arith, here, f, there) in
      let fo_k : follower p stage k ≡ null = ground (arith, here, there, f) in
      record {
        places = p;
        line = Line-ext (λ j. ground arith) v.line;
        tail = v.tail;
        each =
            all-Fact (set_next m q (node_of i)) p waiting
              (λ j hj ne. elim (Bool-cases (k == j)) [
                | inl own ↦
                    let same : k ≡ j = ground arith in
                    subst
                      (λ y.
                        FactOf (set_next m q (node_of i)) p (assign stage i waiting) y (stage y))
                      same
                      (Fact-linked _ _ _ _ _ _ _ (stage k) there.1 fo_k
                        (ground (arith, f, here, there, apart)) (v.each k there.0))
                | inr far ↦
                    Fact-same _ _ _ _ _ _ _ _ _ _ (stage j) (ground (arith, f)) refl
                      (λ w. (
                        ground (
                          arith,
                          here,
                          v.line.placed j hj w,
                          far,
                          v.line.owned (suc (p.place j)),
                        ),
                        refl,
                        refl,
                      ))
                      (v.each j hj)
              ])
              (
                ground (arith, f, here, there, apart, v.line.owned (suc (p.place i))),
                ground (arith, f),
              );
      }

  -- A thread takes its place behind the others.
  pub enter-Inv :
      (s' : Stage)
      → within (stage i) ≡ false
      → within s' ≡ true
      → ((p.front == p.back) ≡ false → late s' ≡ true)
      → FactOf (set_tail m (node_of i)) (entered p i) (assign stage i s') i s'
      → Inv n (set_tail m (node_of i)) (assign stage i s')
  enter-Inv s' e w' behind own = record {
    places = entered p i;
    line = Line-ext (λ j. ground (arith, w')) (enter-Line v.line i low e);
    tail = ground (arith, v.line.order);
    each =
        all-Fact (set_tail m (node_of i)) (entered p i) s'
          (λ j hj ne.
            Fact-same _ _ _ _ _ _ _ _ _ _ (stage j) refl refl
              (λ w.
                let at = v.line.placed j hj w in
                let la : late s' ≡ true = behind (ground (arith, at)) in
                (
                  enter-follower p stage i j s' at.1 la ne (λ inner.
                      let there = v.line.owned (suc (p.place j)) (omega (arith, at)) inner in
                      ground (arith, there, e)),
                  ground (arith, ne),
                  ground (arith, at, ne),
                ))
              (v.each j hj))
          own;
  }

  -- Where thread `i` is the first one: what it leaves to the others.
  module _ (w : within (stage i) ≡ true) (first : p.place i ≡ p.front) where
    leave-follower :
        (j : ℕ)
        → j < n
        → within (stage j) ≡ true
        → follower p stage j ≡ follower (left p) (assign stage i out) j
    leave-follower j hj wj = elim (dec_lt (suc (p.place j)) p.back) [
      | yes inner ↦
          let there = v.line.owned (suc (p.place j)) (omega (arith, v.line.placed j hj wj)) inner in
          let apart : (i == p.owner (suc (p.place j))) ≡ false =
            ground (arith, there, first, v.line.placed j hj wj) in
          ground (arith, apart)
      | no last ↦ ground (arith, last)
    ]

    behind_first :
        (j : ℕ) → j < n → within (stage j) ≡ true → (i == j) ≡ false → p.front < p.place j
    behind_first j hj wj ne =
        ground (arith, v.line.placed j hj wj, v.line.placed i low w, first, ne)

    left-Line : Line n (λ j. within (assign stage i out j)) (left p)
    left-Line = Line-ext (λ j. ground arith) (leave-Line v.line i low w first)

    -- The last thread of the line leaves, and the queue is empty.
    pub depart-Inv : m.tail ≡ node_of i → Inv n (set_tail m null) (assign stage i out)
    depart-Inv e =
        let here = v.line.placed i low w in
        let last = v.line.owned (p.back - 1) (omega (arith, here)) (omega (arith, here)) in
        let back_is : p.back ≡ suc p.front = ground (arith, v.tail, e, here, last, first) in
        record {
          places = left p;
          line = left-Line;
          tail = ground (arith, back_is);
          each =
              all-Fact (set_tail m null) (left p) out
                (λ j hj ne.
                  Fact-same _ _ _ _ _ _ _ _ _ _ (stage j) refl refl
                    (λ wj.
                      absurd
                        (omega (arith, behind_first j hj wj ne, back_is, v.line.placed j hj wj)))
                    (v.each j hj))
                tt;
        }

    -- The first thread wakes the second one and leaves.
    pub wake-Inv :
        (q : Ptr)
        → m.next (node_of i) ≡ follower p stage i
        → m.next (node_of i) ≢ null
        → m.next (node_of i) ≡ q
        → Inv n (set_spin m q unlocked) (assign stage i out)
    wake-Inv q e1 e2 e3 =
        let k = p.owner (suc (p.place i)) in
        let here = v.line.placed i low w in
        let inner : suc (p.place i) < p.back = ground (arith, e1, e2) in
        let there = v.line.owned (suc (p.place i)) (omega (arith, here)) inner in
        let on_time : late (stage k) ≡ false = ground (arith, e1, e2) in
        let q_is : q ≡ node_of k = ground (arith, e1, e2, e3) in
        record {
          places = left p;
          line = left-Line;
          tail = ground (arith, v.tail, inner, first);
          each =
              all-Fact (set_spin m q unlocked) (left p) out
                (λ j hj ne. elim (Bool-cases (k == j)) [
                  | inl second ↦
                      let same : k ≡ j = ground arith in
                      subst
                        (λ y.
                          FactOf (set_spin m q unlocked) (left p) (assign stage i out) y (stage y))
                        same
                        (Fact-first _ _ _ _ _ _ _ _ _ (stage k) on_time there.1
                          (ground (arith, q_is))
                          (
                            ground (arith, there, first),
                            ground (arith, there, first),
                            leave-follower k there.0 there.1,
                          )
                          (v.each k there.0))
                  | inr other ↦
                      Fact-same _ _ _ _ _ _ _ _ _ _ (stage j) refl (ground (arith, q_is, other))
                        (λ wj. (
                          leave-follower j hj wj,
                          ground
                              (arith, behind_first j hj wj ne, v.line.placed j hj wj, first, other),
                          refl,
                        ))
                        (v.each j hj)
                ])
                tt;
        }
