-- ===== src/Mcs/Facts.antt =====
-- What is true of the queue of an MCS lock, thread by thread.
use shfllock.Base.{
  ℕ, suc, ◌-◌, ◌<◌, ◌≡◌, ◌≢◌, refl, subst, Bool, true, false, arith, ltb, dec_lt, ◌==◌,
  if◌then◌else◌, assign,
}
use shfllock.Atomic.{locked, unlocked}
use shfllock.Mcs.Memory.{Ptr, null, node_of, McsMutex}
use shfllock.Mcs.Line.{Places, Line, entered}
use shfllock.Mcs.Stage.{
  Stage, out, ready, armed, arriving, linking, waiting, holding, sure, waking, within, late,
}

module _ (p : Places) (stage : ℕ → Stage) where
  -- The node that thread `j` must point to: that of the thread behind it, once it has linked itself
  -- in.
  abbrev pub follower : ℕ → Ptr
  follower j =
      if ltb (suc (p.place j)) p.back
      then (if late (stage (p.owner (suc (p.place j))))
          then null
          else node_of (p.owner (suc (p.place j))))
      else null

  abbrev pub is_first : ℕ → Bool
  is_first j = p.place j == p.front

  -- The node of the thread before.
  abbrev pub before : ℕ → Ptr
  before j = node_of (p.owner (p.place j - 1))

  abbrev pub tail_node : Ptr
  tail_node = if p.front == p.back then null else node_of (p.owner (p.back - 1))

-- What is true at a stage of a thread whose node has the fields `nx` and `sp`, with the follower
-- `fo`.
abbrev pub Fact : (nx sp fo : Ptr) (first : Bool) (before : Ptr) → Stage → Type 0
Fact nx sp fo first b out = Unit {0}
Fact nx sp fo first b ready = nx ≡ null
Fact nx sp fo first b armed = (nx ≡ null) × (sp ≡ locked)
Fact nx sp fo first b (arriving p) = (nx ≡ fo) × (first ≡ false) × (p ≡ b)
Fact nx sp fo first b (linking p) = (nx ≡ fo) × (first ≡ false) × (p ≡ b) × (sp ≡ locked)
Fact nx sp fo first b waiting = (nx ≡ fo) × (sp ≡ (if first then unlocked else locked))
Fact nx sp fo first b holding = (nx ≡ fo) × (first ≡ true)
Fact nx sp fo first b sure = (nx ≡ fo) × (first ≡ true) × (nx ≢ null)
Fact nx sp fo first b (waking q) = (nx ≡ fo) × (first ≡ true) × (nx ≢ null) × (nx ≡ q)

abbrev pub FactOf : McsMutex → Places → (ℕ → Stage) → ℕ → Stage → Type 0
FactOf m p stage j =
    Fact (m.next (node_of j)) (m.spin (node_of j)) (follower p stage j) (is_first p stage j)
      (before p stage j)

pub record Inv (n : ℕ) (m : McsMutex) (stage : ℕ → Stage) : Type 0 where
  pub places : Places
  pub line : Line n (λ j. within (stage j)) places
  pub tail : m.tail ≡ tail_node places stage
  pub each : (j : ℕ) → j < n → FactOf m places stage j (stage j)

-- A thread that is queued points to its follower.
pub Fact-follower :
    (nx sp fo : Ptr) (first : Bool) (b : Ptr) (s : Stage)
    → within s ≡ true
    → Fact nx sp fo first b s
    → nx ≡ fo
Fact-follower nx sp fo first b s w f = ground (arith, f)

-- What is true of a thread stays true as long as what it speaks of stays.
pub Fact-same :
    (nx nx' sp sp' fo fo' : Ptr) (first first' : Bool) (b b' : Ptr) (s : Stage)
    → nx ≡ nx'
    → sp ≡ sp'
    → (within s ≡ true → (fo ≡ fo') × (first ≡ first') × (b ≡ b'))
    → Fact nx sp fo first b s
    → Fact nx' sp' fo' first' b' s
Fact-same nx nx' sp sp' fo fo' first first' b b' s en es g f =
    subst (λ y. Fact nx' y fo' first' b' s) es
      (subst (λ y. Fact y sp fo' first' b' s) en (also s g f))
  where
    also :
        (s : Stage)
        → (within s ≡ true → (fo ≡ fo') × (first ≡ first') × (b ≡ b'))
        → Fact nx sp fo first b s
        → Fact nx sp fo' first' b' s
    also out g f = tt
    also ready g f = f
    also armed g f = f
    also s g f = ground (arith, g refl, f)

-- Behind the store of a thread that links itself in, the thread before points to it.
pub Fact-linked :
    (nx nx' sp fo fo' : Ptr) (first : Bool) (b : Ptr) (s : Stage)
    → within s ≡ true
    → fo ≡ null
    → nx' ≡ fo'
    → Fact nx sp fo first b s
    → Fact nx' sp fo' first b s
Fact-linked nx nx' sp fo fo' first b s w en e f = ground (arith, w, en, e, f)

-- The second thread becomes the first one.
pub Fact-first :
    (nx sp sp' fo fo' : Ptr) (first first' : Bool) (b b' : Ptr) (s : Stage)
    → late s ≡ false
    → within s ≡ true
    → sp' ≡ unlocked
    → (first ≡ false) × (first' ≡ true) × (fo ≡ fo')
    → Fact nx sp fo first b s
    → Fact nx sp' fo' first' b' s
Fact-first nx sp sp' fo fo' first first' b b' s l w u e f = ground (arith, l, w, u, e, f)

-- A thread that is linked in and is not the first one has its word LOCKED.
pub Fact-second :
    (nx sp fo : Ptr) (b : Ptr) (s : Stage)
    → late s ≡ false
    → within s ≡ true
    → Fact nx sp fo false b s
    → sp ≡ locked
Fact-second nx sp fo b s l w f = ground (arith, l, w, f)

-- Whether it is a thread's turn: it holds the lock, or its word `sp` lets it go on.
abbrev pub served : ℕ → Stage → Bool
served sp waiting = sp == unlocked
served sp holding = true
served sp sure = true
served sp (waking q) = true
served sp s = false

pub Fact-served :
    (nx sp fo : Ptr) (b : Ptr) (s : Stage)
    → within s ≡ true
    → Fact nx sp fo true b s
    → served sp s ≡ true
Fact-served nx sp fo b s w f = ground (arith, w, f)

-- The followers of the threads in the line stay when one more is to link itself in.
pub enter-follower :
    (p : Places) (stage : ℕ → Stage) (i j : ℕ) (s' : Stage)
    → p.place j < p.back
    → late s' ≡ true
    → (i == j) ≡ false
    → (suc (p.place j) < p.back → (i == p.owner (suc (p.place j))) ≡ false)
    → follower p stage j ≡ follower (entered p i) (assign stage i s') j
enter-follower p stage i j s' at la ne next = elim (dec_lt (suc (p.place j)) p.back) [
  | yes inner ↦ ground (arith, ne, next inner, inner)
  | no last ↦ ground (arith, at, la, ne, last)
]
