-- ===== src/Aqm/Shuffle.antt =====
-- `shuffle_waiters` of aqm.c, one shared access at a time. Unlike that of aqs.c it starts at its own
-- node, and a waiter that it marks is woken and will not be parked again.
use shfllock.Base.{ℕ, Bool, true, false, ◌==◌, ◌&&◌, if◌then◌else◌, assign}
use shfllock.Atomic.{cas}
use shfllock.Aqs.Memory.{Ptr, null, keep_lock_local}
use shfllock.Aqm.Memory.{
  AqmMutex, parked, unpwait, set_next, set_lstatus, set_sleader, set_waitcount, wakeup_waiter,
}

-- The locals that live across steps. `node` is the parameter.
pub record Locals : Type 0 where
  pub node : Ptr
  pub is_next_waiter : Bool
  pub nid : ℕ
  pub curr_locked_count : ℕ
  pub one_shuffle : Bool
  pub prev : Ptr
  pub last : Ptr

pub data Pc : Type 0 where
  begin : (node : Ptr) (is_next_waiter : Bool) → Pc
  count : Locals → Pc  -- `set_waitcount(node, ++curr_locked_count)`
  clear : Locals → Pc  -- `clear_sleader(node)`
  random : Locals → Pc  -- `keep_lock_local()`
  pass : Locals → Pc  -- `sleader = node->next`
  loop : Locals → Pc  -- `curr = prev->next`
  at_end : Locals → (curr : Ptr) → Pc
  compare : Locals → (curr : Ptr) → Pc
  force : Locals → (curr : Ptr) → Pc  -- the swap of `force_update_node`
  wake : Locals → (curr : Ptr) → Pc
  mark : Locals → (curr : Ptr) → Pc
  after_curr : Locals → (curr : Ptr) → Pc  -- `next = curr->next`
  force_moved : Locals → (curr next : Ptr) → Pc
  wake_moved : Locals → (curr next : Ptr) → Pc
  mark_moved : Locals → (curr next : Ptr) → Pc
  unlink : Locals → (curr next : Ptr) → Pc  -- `prev->next = next`
  behind_last : Locals → (curr : Ptr) → Pc  -- the read of `last->next`
  splice : Locals → (curr behind : Ptr) → Pc  -- `curr->next = last->next`
  insert : Locals → (curr : Ptr) → Pc  -- `last->next = curr`
  ready : Locals → Pc
  out : (is_next_waiter : Bool) (sleader : Ptr) → Pc

pub data Next : Type 0 where
  go : Pc → Next
  return : (is_next_waiter : Bool) → Next

-- The end of the loop, with `sleader = last`.
abbrev pub leave : Locals → Next
leave l = go (out l.is_next_waiter l.last)

-- `i` is the thread that runs it.
unfoldable pub step : ℕ → AqmMutex → Pc → AqmMutex × Next
unfolding keep_lock_local
step i m (begin node nx) = (
  m,
  go (
      count (record {
        node = node;
        is_next_waiter = nx;
        nid = (m.node node).nid;
        curr_locked_count = (m.node node).wcount;
        one_shuffle = false;
        prev = node;
        last = node;
      })),
)
step i m (count l) =
    if l.curr_locked_count == 0
    then (set_waitcount m l.node 1, go (clear (record l { curr_locked_count = 1 })))
    else (m, go (clear l))
step i m (clear l) = (set_sleader m l.node 0, go (random l))
step i m (random l) =
    let r = keep_lock_local i (m.rv i) in
    (record m { rv = assign m.rv i r.0 }, if r.1 then go (loop l) else go (pass l))
step i m (pass l) = (m, go (out l.is_next_waiter (m.node l.node).next))
step i m (loop l) = (m, go (at_end l (m.node l.prev).next))
step i m (at_end l curr) =
    (m, if curr == null then leave l else if curr == m.tail then leave l else go (compare l curr))
step i m (compare l curr) = (
  m,
  if (m.node curr).nid == l.nid
      then (if (m.node l.prev).nid == l.nid then go (force l curr) else go (after_curr l curr))
      else go (ready (record l { prev = curr })),
)
step i m (force l curr) = (
  set_lstatus m curr (cas (m.node curr).lstatus parked unpwait),
  if (m.node curr).lstatus == parked then go (wake l curr) else go (mark l curr),
)
step i m (wake l curr) = (wakeup_waiter m curr, go (mark l curr))
step i m (mark l curr) = (
  set_waitcount m curr l.curr_locked_count,
  go (ready (record l { last = curr; prev = curr; one_shuffle = true })),
)
step i m (after_curr l curr) =
    let next = (m.node curr).next in
    (m, if next == null then leave l else go (force_moved l curr next))
step i m (force_moved l curr next) = (
  set_lstatus m curr (cas (m.node curr).lstatus parked unpwait),
  if (m.node curr).lstatus == parked
      then go (wake_moved l curr next)
      else go (mark_moved l curr next),
)
step i m (wake_moved l curr next) = (wakeup_waiter m curr, go (mark_moved l curr next))
step i m (mark_moved l curr next) =
    (set_waitcount m curr l.curr_locked_count, go (unlink l curr next))
step i m (unlink l curr next) = (set_next m l.prev next, go (behind_last l curr))
step i m (behind_last l curr) = (m, go (splice l curr (m.node l.last).next))
step i m (splice l curr behind) = (set_next m curr behind, go (insert l curr))
step i m (insert l curr) =
    (set_next m l.last curr, go (ready (record l { last = curr; one_shuffle = true })))
step i m (ready l) =
    (m, if l.one_shuffle && l.is_next_waiter && (m.locked == 0) then leave l else go (loop l))
step i m (out nx sleader) = (if sleader == null then m else set_sleader m sleader 1, return nx)
