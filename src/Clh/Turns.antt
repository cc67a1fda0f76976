-- ===== src/Clh/Turns.antt =====
-- A thread of a CLH lock queues.
use shfllock.Base.{ℕ, ◌-◌, ◌<◌, ◌≡◌, refl, sym, ap, ◌∙◌, true, false, arith, ◌==◌, assign}
use shfllock.Atomic.{locked}
use shfllock.Clh.Memory.{Ptr, ClhMutex, set_tail}
use shfllock.Mcs.Line.{Places, entered, enter-Line, Line-ext}
use shfllock.Clh.Stage.{Stage, armed, waiting, within, took, heads}
use shfllock.Clh.Facts.{node_of, before, Inv, Fact-same}
use shfllock.Clh.Moves.{fact, all-Fact}

pub took-heads : (s : Stage) → heads s ≡ false → took s ≡ false
took-heads s h = ground arith

module _ {n : ℕ} {m : ClhMutex} {stage : ℕ → Stage} (v : Inv n m stage) (i : ℕ) (low : i < n) where
  abbrev p : Places
  p = v.places

  abbrev nd : ℕ → Ptr
  nd = node_of m v.places v.spare stage

  -- A thread takes its place behind the others.
  pub queue-Inv :
      stage i ≡ armed → Inv n (set_tail m (m.current i)) (assign stage i (waiting m.tail))
  queue-Inv e = record {
    places = p';
    spare = v.spare;
    line = Line-ext (λ j. ground arith) (enter-Line v.line i low (ap within e));
    distinct = v.distinct;
    apart = v.apart;
    real = v.real;
    real_spare = v.real_spare;
    tail = ground (arith, v.line.order);
    each =
        all-Fact v i low m' p' v.spare (waiting m.tail)
          (λ j hj ne.
            Fact-same _ _ _ _ _ _ _ _ _ _ (stage j) (ap m.spin (node-same j)) (node-same j)
              (λ h. refl) (λ w. (before-same j hj ne w, ground (arith, ne))) (v.each j hj))
          (ap m.spin (sym (node-same i)) ∙ locked_word, ground (arith, v.tail, v.line.order, e));
  }
    where
      m' : ClhMutex
      m' = set_tail m (m.current i)

      p' : Places
      p' = entered p i

      locked_word : m.spin (nd i) ≡ locked
      locked_word = fact v i low e

      node-same : (j : ℕ) → nd j ≡ node_of m' p' v.spare (assign stage i (waiting m.tail)) j
      node-same j = ground (arith, e)

      before-same :
          (j : ℕ)
          → j < n
          → (i == j) ≡ false
          → within (stage j) ≡ true
          → before m p v.spare stage j ≡ before m' p' v.spare (assign stage i (waiting m.tail)) j
      before-same j hj ne w =
          ground (arith, v.line.placed j hj w, ne, node-same (p.owner (p.place j - 1)))
