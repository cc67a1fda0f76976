-- ===== src/Clh/Moves.antt =====
-- Each move of a thread of a CLH lock leaves the queue as it must be.
use shfllock.Base.{
  ℕ, ◌-◌, ◌<◌, ◌≡◌, ◌≢◌, refl, sym, ap, ◌∙◌, subst, inl, inr, true, false, Bool-cases, arith, ◌==◌,
  if◌then◌else◌, assign,
}
use shfllock.Clh.Memory.{Ptr, ClhMutex}
use shfllock.Mcs.Line.{Places, Line-ext, same_place}
use shfllock.Clh.Stage.{Stage, within, took, heads}
use shfllock.Clh.Facts.{
  node_of, is_first, before, tail_node, Fact, FactOf, Inv, Fact-same, Fact-heads,
}

module _ {n : ℕ} {m : ClhMutex} {stage : ℕ → Stage} (v : Inv n m stage) (i : ℕ) (low : i < n) where
  abbrev p : Places
  p = v.places

  abbrev nd : ℕ → Ptr
  nd = node_of m v.places v.spare stage

  -- What the invariant says of thread `i`, where its stage is known.
  pub fact : {s : Stage} → stage i ≡ s → FactOf m v.places v.spare stage i s
  fact e = subst (FactOf m v.places v.spare stage i) e (v.each i low)

  -- The facts of the other threads and that of the thread that moves.
  pub all-Fact :
      (m' : ClhMutex) (p' : Places) (x : Ptr) (s' : Stage)
      → ((j : ℕ) → j < n → (i == j) ≡ false → FactOf m' p' x (assign stage i s') j (stage j))
      → FactOf m' p' x (assign stage i s') i s'
      → (j : ℕ) → j < n
      → FactOf m' p' x (assign stage i s') j (assign stage i s' j)
  all-Fact m' p' x s' others own j hj = elim (Bool-cases (i == j)) [
    | inl same ↦
        let e : i ≡ j = ground arith in
        let here : s' ≡ assign stage i s' j = ground arith in
        subst (FactOf m' p' x (assign stage i s') j) here
          (subst (λ k. FactOf m' p' x (assign stage i s') k s') e own)
    | inr ne ↦
        let here : stage j ≡ assign stage i s' j = ground arith in
        subst (FactOf m' p' x (assign stage i s') j) here (others j hj ne)
  ]

  -- No other thread is the first one, where this one is.
  pub alone :
      (j : ℕ)
      → j < n
      → (i == j) ≡ false
      → within (stage i) ≡ true
      → is_first m p v.spare stage i ≡ true
      → within (stage j) ≡ true
      → is_first m p v.spare stage j ≡ false
  alone j hj ne wi fi wj = elim (Bool-cases (is_first m p v.spare stage j)) [
    | inr later ↦ later
    | inl top ↦
        let same : i ≡ j = same_place v.line i j low hj wi wj (ground (arith, fi, top)) in
        absurd (ground (arith, same, ne))
  ]

  pub heads-alone :
      (j : ℕ)
      → j < n
      → (i == j) ≡ false
      → within (stage i) ≡ true
      → is_first m p v.spare stage i ≡ true
      → heads (stage j) ≡ false
  heads-alone j hj ne wi fi = elim (Bool-cases (heads (stage j))) [
    | inr later ↦ later
    | inl top ↦
        let (fj, wj) = Fact-heads _ _ _ _ _ (stage j) top (v.each j hj) in
        absurd (ground (arith, alone j hj ne wi fi wj, fj))
  ]

  -- A move that leaves the line and the nodes of all threads.
  pub steady :
      (m' : ClhMutex) (s' : Stage)
      → m'.tail ≡ m.tail
      → ((k : ℕ) → m'.current k ≡ m.current k)
      → within (stage i) ≡ within s'
      → took (stage i) ≡ took s'
      → ((j : ℕ) → j < n → (i == j) ≡ false → m.spin (nd j) ≡ m'.spin (nd j))
      → ((j : ℕ) → j < n → (i == j) ≡ false → heads (stage j) ≡ true → m.head ≡ m'.head)
      → Fact
          (m'.spin (nd i))
          m'.head
          (nd i)
          (before m p v.spare stage i)
          (is_first m p v.spare stage i)
          s'
      → Inv n m' (assign stage i s')
  steady m' s' et ec ew ek spins hd own = record {
    places = p;
    spare = v.spare;
    line = Line-ext (λ j. ground arith) v.line;
    distinct = λ j k e. v.distinct j k (sym (ec j) ∙ e ∙ ec k);
    apart = λ j. rw (ec j) (v.apart j);
    real = λ j. rw (ec j) (v.real j);
    real_spare = v.real_spare;
    tail = et ∙ v.tail ∙ tail-same;
    each =
        all-Fact m' p v.spare s'
          (λ j hj ne.
            Fact-same _ _ _ _ _ _ _ _ _ _ (stage j) (spins j hj ne ∙ ap m'.spin (node-same j))
              (node-same j) (hd j hj ne) (λ w. (before-same j, refl)) (v.each j hj))
          (Fact-same _ _ _ _ _ _ _ _ _ _ s' (ap m'.spin (node-same i)) (node-same i) (λ h. refl)
            (λ w. (before-same i, refl)) own);
  }
    where
      node-same : (j : ℕ) → nd j ≡ node_of m' p v.spare (assign stage i s') j
      node-same j = ground (arith, ec j, ek)

      before-same : (j : ℕ) → before m p v.spare stage j ≡ before m' p v.spare (assign stage i s') j
      before-same j =
          ap (λ y. if p.place j == p.front then v.spare else y)
            (node-same (p.owner (p.place j - 1)))

      tail-same : tail_node m p v.spare stage ≡ tail_node m' p v.spare (assign stage i s')
      tail-same =
          ap (λ y. if p.front == p.back then v.spare else y) (node-same (p.owner (p.back - 1)))

  -- The nodes of two threads are two nodes, unless both have given theirs away.
  pub nodes-apart : (j : ℕ) → (i == j) ≡ false → took (stage i) ≡ false → m.current i ≢ nd j
  nodes-apart j ne t e = elim (Bool-cases (took (stage j))) [
    | inl y ↦ ground (arith, v.apart i, y, e)
    | inr own ↦ ground (arith, v.distinct i j, own, e, ne)
  ]
