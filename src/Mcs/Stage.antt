-- ===== src/Mcs/Stage.antt =====
-- The moves of a thread of an MCS lock, with what they do to the queue. Both mcs.c and mcsepfl.c
-- make no others.
use shfllock.Base.{ℕ, ◌≡◌, ◌≢◌, Bool, true, false}
use shfllock.Atomic.{locked, unlocked}
use shfllock.Mcs.Memory.{Ptr, null, node_of, McsMutex, set_tail, set_next, set_spin}

-- Where a thread stands.
pub data Stage : Type 0 where
  out : Stage
  ready : Stage  -- its `next` is cleared
  armed : Stage  -- and its word is LOCKED
  arriving : (prev : Ptr) → Stage  -- it is the tail; its word is still to be LOCKED
  linking : (prev : Ptr) → Stage  -- it is still to be linked in
  waiting : Stage
  holding : Stage
  sure : Stage  -- it has seen that it has a successor
  waking : (next : Ptr) → Stage

abbrev pub within : Stage → Bool
within out = false
within ready = false
within armed = false
within s = true

-- Whether the thread before does not point to this one yet.
abbrev pub late : Stage → Bool
late (arriving p) = true
late (linking p) = true
late s = false

-- The moves of thread `i`.
pub data Change (i : ℕ) (m : McsMutex) : Stage → McsMutex → Stage → Type 0 where
  rest : {s : Stage} → Change i m s m s
  clear : Change i m out (set_next m (node_of i) null) ready
  arm : Change i m out (set_spin (set_next m (node_of i) null) (node_of i) locked) armed
  abandon : Change i m ready m out
  abandon_armed : Change i m armed m out
  take : m.tail ≡ null → Change i m ready (set_tail m (node_of i)) holding
  take_armed : m.tail ≡ null → Change i m armed (set_tail m (node_of i)) holding
  queue : m.tail ≢ null → Change i m ready (set_tail m (node_of i)) (arriving m.tail)
  queue_armed : m.tail ≢ null → Change i m armed (set_tail m (node_of i)) (linking m.tail)
  arm_late : {p : Ptr} → Change i m (arriving p) (set_spin m (node_of i) locked) (linking p)
  link : {p : Ptr} → Change i m (linking p) (set_next m p (node_of i)) waiting
  acquire :
      (v : ℕ) → m.spin (node_of i) ≢ locked → Change i m waiting (set_spin m (node_of i) v) holding
  see : m.next (node_of i) ≢ null → Change i m holding m sure
  pick : Change i m sure m (waking (m.next (node_of i)))
  peek : m.next (node_of i) ≢ null → Change i m holding m (waking (m.next (node_of i)))
  depart : m.tail ≡ node_of i → Change i m holding (set_tail m null) out
  wake : {q : Ptr} → Change i m (waking q) (set_spin m q unlocked) out
