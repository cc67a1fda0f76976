-- ===== src/Clh/Inherit.antt =====
-- The first thread of a CLH lock takes over the node of the thread before.
use shfllock.Base.{
  ℕ, ◌-◌, ◌<◌, ◌≡◌, refl, ap, ◌∙◌, inl, inr, true, false, Bool-cases, arith, ◌==◌, assign,
}
use shfllock.Clh.Memory.{Ptr, ClhMutex, set_current}
use shfllock.Mcs.Line.{Places, Line-ext}
use shfllock.Clh.Stage.{Stage, crowned, holding, within}
use shfllock.Clh.Facts.{node_of, is_first, before, tail_node, Inv, Fact-same}
use shfllock.Clh.Turns.{took-heads}
use shfllock.Clh.Moves.{fact, all-Fact, alone, heads-alone}

module _ {n : ℕ} {m : ClhMutex} {stage : ℕ → Stage} (v : Inv n m stage) (i : ℕ) (low : i < n) where
  abbrev p : Places
  p = v.places

  abbrev nd : ℕ → Ptr
  nd = node_of m v.places v.spare stage

  -- The first thread takes over the spare node, and leaves its own one.
  module _ (q : Ptr) (e : stage i ≡ crowned q) where
    abbrev kept : ClhMutex
    kept = set_current m i q

    q_is : q ≡ v.spare
    q_is = let f = fact v i low e in ground (arith, f)

    first : is_first m p v.spare stage i ≡ true
    first = let f = fact v i low e in f.2

    inherit-node : (j : ℕ) → j < n → nd j ≡ node_of kept p (m.current i) (assign stage i holding) j
    inherit-node j hj = elim (Bool-cases (i == j)) [
      | inl own ↦ let same : i ≡ j = ground arith in ground (arith, own, same, e)
      | inr ne ↦
          let t = took-heads (stage j) (heads-alone v i low j hj ne (ap within e) first) in
          ground (arith, ne, t)
    ]

    inherit-before :
        (j : ℕ)
        → j < n
        → (i == j) ≡ false
        → within (stage j) ≡ true
        → before m p v.spare stage j ≡ before kept p (m.current i) (assign stage i holding) j
    inherit-before j hj ne w =
        let later = alone v i low j hj ne (ap within e) first w in
        let at = v.line.placed j hj w in
        let there = v.line.owned (p.place j - 1) (ground (arith, at, later)) (omega (arith, at)) in
        ground (arith, later, inherit-node (p.owner (p.place j - 1)) there.0)

    inherit-tail :
        tail_node m p v.spare stage ≡ tail_node kept p (m.current i) (assign stage i holding)
    inherit-tail =
        let here = v.line.placed i low (ap within e) in
        let there = v.line.owned (p.back - 1) (omega (arith, here)) (omega (arith, here)) in
        ground (arith, here, inherit-node (p.owner (p.back - 1)) there.0)

    pub inherit-Inv : Inv n (set_current m i q) (assign stage i holding)
    inherit-Inv =
        let f = fact v i low e in
        record {
          places = p;
          spare = m.current i;
          line = Line-ext (λ j. ground arith) v.line;
          distinct = λ j k h. ground (arith, v.distinct j k, v.apart j, v.apart k, q_is, h);
          apart = λ j. ground (arith, v.distinct j i, v.apart i, q_is);
          real = λ j. ground (arith, v.real j, v.real_spare, q_is);
          real_spare = v.real i;
          tail = v.tail ∙ inherit-tail;
          each =
              all-Fact v i low kept p (m.current i) holding
                (λ j hj ne.
                  Fact-same _ _ _ _ _ _ _ _ _ _ (stage j) (ap m.spin (inherit-node j hj))
                    (inherit-node j hj) (λ h. refl) (λ w. (inherit-before j hj ne w, refl))
                    (v.each j hj))
                (ground (arith, f, e), f.2, ground (arith, f, e));
        }
