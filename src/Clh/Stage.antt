-- ===== src/Clh/Stage.antt =====
-- The moves of a thread of a CLH lock, with what they do to the queue. Both clh.c and clhepfl.c make no
-- others.
use shfllock.Base.{ℕ, ◌≢◌, Bool, true, false}
use shfllock.Atomic.{locked, unlocked}
use shfllock.Clh.Memory.{Ptr, ClhMutex, set_head, set_tail, set_spin, set_current}

-- Where a thread stands.
pub data Stage : Type 0 where
  out : Stage
  armed : Stage  -- its word is LOCKED
  waiting : (pred : Ptr) → Stage
  leading : (pred : Ptr) → Stage  -- it waits no more
  crowned : (pred : Ptr) → Stage  -- and `head` is its node
  holding : Stage  -- and it has taken over the node before
  waking : (head : Ptr) → Stage

abbrev pub within : Stage → Bool
within out = false
within armed = false
within s = true

-- Whether it has given its node away.
abbrev pub took : Stage → Bool
took holding = true
took (waking h) = true
took s = false

-- Whether it has stored `head`.
abbrev pub heads : Stage → Bool
heads (crowned q) = true
heads holding = true
heads (waking h) = true
heads s = false

-- The moves of thread `i`.
pub data Change (i : ℕ) (m : ClhMutex) : Stage → ClhMutex → Stage → Type 0 where
  rest : {s : Stage} → Change i m s m s
  arm : Change i m out (set_spin m (m.current i) locked) armed
  queue : Change i m armed (set_tail m (m.current i)) (waiting m.tail)
  acquire :
      {q : Ptr} (u : ℕ) → m.spin q ≢ locked → Change i m (waiting q) (set_spin m q u) (leading q)
  crown : {q : Ptr} → Change i m (leading q) (set_head m (m.current i)) (crowned q)
  inherit : {q : Ptr} → Change i m (crowned q) (set_current m i q) holding
  see : Change i m holding m (waking m.head)
  wake : {h : Ptr} → Change i m (waking h) (set_spin m h unlocked) out
