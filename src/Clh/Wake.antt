-- ===== src/Clh/Wake.antt =====
-- The first thread of a CLH lock wakes the one behind.
use shfllock.Base.{
  ℕ, suc, ◌-◌, ◌<◌, ◌≡◌, sym, ap, ◌∙◌, inl, inr, true, false, Bool-cases, arith, ◌==◌, assign,
}
use shfllock.Atomic.{unlocked}
use shfllock.Clh.Memory.{Ptr, ClhMutex, set_spin}
use shfllock.Mcs.Line.{Places, left, leave-Line, Line-ext}
use shfllock.Clh.Stage.{Stage, out, waking, within}
use shfllock.Clh.Facts.{node_of, is_first, before, tail_node, Inv, Fact-later}
use shfllock.Clh.Turns.{took-heads}
use shfllock.Clh.Moves.{fact, all-Fact, alone, heads-alone}

module _ {n : ℕ} {m : ClhMutex} {stage : ℕ → Stage} (v : Inv n m stage) (i : ℕ) (low : i < n) where
  abbrev p : Places
  p = v.places

  abbrev nd : ℕ → Ptr
  nd = node_of m v.places v.spare stage

  -- The first thread wakes the one behind and leaves.
  module _ (h : Ptr) (e : stage i ≡ waking h) where
    abbrev woken : ClhMutex
    woken = set_spin m h unlocked

    top : is_first m p v.spare stage i ≡ true
    top = let f = fact v i low e in f.1

    h_is : h ≡ v.spare
    h_is = let f = fact v i low e in ground (arith, f, e)

    here : (p.place i ≡ p.front) × (p.front < p.back) × (p.owner p.front ≡ i)
    here =
        let at = v.line.placed i low (ap within e) in
        let first : p.place i ≡ p.front = ground (arith, top) in
        (first, omega (arith, at, first), ap p.owner (sym first) ∙ at.2)

    wake-spin : (j : ℕ) → j < n → (i == j) ≡ false → m.spin (nd j) ≡ woken.spin (nd j)
    wake-spin j hj ne =
        let t = took-heads (stage j) (heads-alone v i low j hj ne (ap within e) top) in
        ground (arith, t, h_is, v.apart j)

    wake-node :
        (j : ℕ) → (i == j) ≡ false → nd j ≡ node_of woken (left p) v.spare (assign stage i out) j
    wake-node j ne = ground (arith, ne)

    wake-before :
        (j : ℕ)
        → j < n
        → (i == j) ≡ false
        → within (stage j) ≡ true
        → before m p v.spare stage j ≡ before woken (left p) v.spare (assign stage i out) j
    wake-before j hj ne w =
        let later = alone v i low j hj ne (ap within e) top w in
        let at = v.line.placed j hj w in
        elim (Bool-cases (p.place j == suc p.front)) [
          | inl second ↦ ground (arith, later, second, here, e)
          | inr far ↦
              let there =
                v.line.owned (p.place j - 1) (ground (arith, at, later)) (omega (arith, at)) in
              let apart : (i == p.owner (p.place j - 1)) ≡ false =
                ground (arith, there, here, at, later, far) in
              ground (arith, later, far, wake-node (p.owner (p.place j - 1)) apart)
        ]

    wake-tail : tail_node m p v.spare stage ≡ tail_node woken (left p) v.spare (assign stage i out)
    wake-tail = elim (Bool-cases (suc p.front == p.back)) [
      | inl last ↦ ground (arith, last, here, e)
      | inr more ↦
          let there = v.line.owned (p.back - 1) (omega (arith, here)) (omega (arith, here)) in
          let apart : (i == p.owner (p.back - 1)) ≡ false = ground (arith, there, here, more) in
          ground (arith, more, here, wake-node (p.owner (p.back - 1)) apart)
    ]

    pub wake-Inv : Inv n (set_spin m h unlocked) (assign stage i out)
    wake-Inv = record {
      places = left p;
      spare = v.spare;
      line = Line-ext (λ j. ground arith) (leave-Line v.line i low (ap within e) here.0);
      distinct = v.distinct;
      apart = v.apart;
      real = v.real;
      real_spare = v.real_spare;
      tail = v.tail ∙ wake-tail;
      each =
          all-Fact v i low woken (left p) v.spare out
            (λ j hj ne.
              Fact-later _ _ _ _ _ _ _ _ _ (stage j)
                (wake-spin j hj ne ∙ ap woken.spin (wake-node j ne)) (wake-node j ne)
                (λ w. (wake-before j hj ne w, alone v i low j hj ne (ap within e) top w))
                (v.each j hj))
            tt;
    }
