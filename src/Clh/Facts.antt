-- ===== src/Clh/Facts.antt =====
-- What is true of the queue of a CLH lock, thread by thread.
use shfllock.Base.{ℕ, ◌-◌, ◌<◌, ◌≡◌, ◌≢◌, Bool, true, false, arith, ◌==◌, if◌then◌else◌}
use shfllock.Atomic.{locked}
use shfllock.Clh.Memory.{Ptr, null, ClhMutex}
use shfllock.Mcs.Line.{Places, Line}
use shfllock.Clh.Stage.{
  Stage, out, armed, waiting, leading, crowned, holding, waking, within, took, heads,
}

-- The node that a thread has in the queue: its own one, until it takes over another; from then on the
-- spare one, which belongs to no thread.
abbrev pub node : (current spare : Ptr) → Stage → Ptr
node current spare s = if took s then spare else current

module _ (m : ClhMutex) (p : Places) (spare : Ptr) (stage : ℕ → Stage) where
  abbrev pub node_of : ℕ → Ptr
  node_of j = node (m.current j) spare (stage j)

  abbrev pub is_first : ℕ → Bool
  is_first j = p.place j == p.front

  -- The node that a thread waits on.
  abbrev pub before : ℕ → Ptr
  before j = if is_first j then spare else node_of (p.owner (p.place j - 1))

  abbrev pub tail_node : Ptr
  tail_node = if p.front == p.back then spare else node_of (p.owner (p.back - 1))

-- What is true at a stage of a thread, for the node `nd` that it has in the queue and the word `sp`
-- there.
abbrev pub Fact : (sp head nd before : Ptr) (first : Bool) → Stage → Type 0
Fact sp hd nd b first out = Unit {0}
Fact sp hd nd b first armed = sp ≡ locked
Fact sp hd nd b first (waiting q) = (sp ≡ locked) × (q ≡ b)
Fact sp hd nd b first (leading q) = (sp ≡ locked) × (q ≡ b) × (first ≡ true)
Fact sp hd nd b first (crowned q) = (sp ≡ locked) × (q ≡ b) × (first ≡ true) × (hd ≡ nd)
Fact sp hd nd b first holding = (sp ≡ locked) × (first ≡ true) × (hd ≡ nd)
Fact sp hd nd b first (waking h) = (sp ≡ locked) × (first ≡ true) × (hd ≡ nd) × (h ≡ nd)

abbrev pub FactOf : ClhMutex → Places → Ptr → (ℕ → Stage) → ℕ → Stage → Type 0
FactOf m p spare stage j =
    Fact (m.spin (node_of m p spare stage j)) m.head (node_of m p spare stage j)
      (before m p spare stage j) (is_first m p spare stage j)

pub record Inv (n : ℕ) (m : ClhMutex) (stage : ℕ → Stage) : Type 0 where
  pub places : Places
  pub spare : Ptr
  pub line : Line n (λ j. within (stage j)) places
  pub distinct : (j k : ℕ) → m.current j ≡ m.current k → j ≡ k
  pub apart : (j : ℕ) → m.current j ≢ spare
  pub real : (j : ℕ) → m.current j ≢ null
  pub real_spare : spare ≢ null
  pub tail : m.tail ≡ tail_node m places spare stage
  pub each : (j : ℕ) → j < n → FactOf m places spare stage j (stage j)

-- What is true of a thread stays true as long as what it speaks of stays.
pub Fact-same :
    (sp sp' hd hd' nd nd' b b' : Ptr) (first first' : Bool) (s : Stage)
    → sp ≡ sp'
    → nd ≡ nd'
    → (heads s ≡ true → hd ≡ hd')
    → (within s ≡ true → (b ≡ b') × (first ≡ first'))
    → Fact sp hd nd b first s
    → Fact sp' hd' nd' b' first' s
Fact-same sp sp' hd hd' nd nd' b b' first first' s es en eh g f = ground (arith, f, es, en, eh, g)

-- A thread that has stored `head` is the first one, and one that is not behind anybody.
pub Fact-heads :
    (sp hd nd b : Ptr) (first : Bool) (s : Stage)
    → heads s ≡ true
    → Fact sp hd nd b first s
    → (first ≡ true) × (within s ≡ true)
Fact-heads sp hd nd b first s h f = ground (arith, h, f)

-- The word of a thread that is queued is LOCKED.
pub Fact-locked :
    (sp hd nd b : Ptr) (first : Bool) (s : Stage)
    → within s ≡ true
    → Fact sp hd nd b first s
    → sp ≡ locked
Fact-locked sp hd nd b first s w f = ground (arith, w, f)

-- A thread that is queued and not the first one may become the first one.
pub Fact-later :
    (sp sp' hd nd nd' b b' : Ptr) (first first' : Bool) (s : Stage)
    → sp ≡ sp'
    → nd ≡ nd'
    → (within s ≡ true → (b ≡ b') × (first ≡ false))
    → Fact sp hd nd b first s
    → Fact sp' hd nd' b' first' s
Fact-later sp sp' hd nd nd' b b' first first' s es en g f = ground (arith, f, es, en, g)
