-- ===== src/Cna/Mutex.antt =====
-- `cna_mutex_lock`, `cna_mutex_trylock` and `cna_mutex_unlock` of cna.c, one shared access at a time.
-- The build has this lock with WAITING_SPINLOCK alone.
use shfllock.Base.{ℕ, ◌%◌, ◌^◌, Bool, List, ◌==◌, ltb, if◌then◌else◌, assign, true}
use shfllock.Atomic.{locked, cas}
use shfllock.Aqs.Memory.{keep_lock_local, current_numa_node}
use shfllock.Cna.Memory.{
  Ptr, null, node_of, no_socket, CnaMutex, set_tail, set_next, set_sec_tail, set_spin, set_socket,
  create,
}
use shfllock.Protocol.Code.{Code, Next, go, acquired, busy, released}
use shfllock.Protocol.Wrapper
use shfllock.Protocol.Wrapper.{Posix}

pub data Pc : Type 0 where
  prepare : Pc  -- the stores to `me`, which no other thread can see yet
  swap_tail : Pc
  set_node : (tail : Ptr) → Pc  -- `me->socket = current_numa_node()`
  link : (tail : Ptr) → Pc
  sleep : Pc
  try_prepare : Pc
  try_swap : Pc
  has_next : Pc  -- `unlock`
  has_second : Pc
  clear_tail : Pc
  read_tail : (head : Ptr) → Pc  -- `secHead->secTail`
  splice : (head tail : Ptr) → Pc
  wait_next : Pc
  keep_local : Pc
  find : Pc  -- `find_successor`
  own_node : (next : Ptr) → Pc
  compare : (next : Ptr) (node : ℕ) → Pc
  after_first : (head : Ptr) (node : ℕ) → Pc
  scan : (head tail cur : Ptr) (node : ℕ) → Pc
  follow : (head cur : Ptr) (node : ℕ) → Pc
  skip : (head tail cur : Ptr) → Pc
  append : (head tail cur : Ptr) → Pc
  append_at : (last head tail cur : Ptr) → Pc
  cut : (tail cur : Ptr) → Pc
  set_last : (tail cur : Ptr) → Pc
  pass : (succ : Ptr) → Pc
  pass_value : (succ : Ptr) (value : ℕ) → Pc
  second : Pc  -- `else if (me->spin > 1)`
  last_of : (succ : Ptr) → Pc
  read_next : (succ last : Ptr) → Pc
  join : (succ last next : Ptr) → Pc
  wake : (succ : Ptr) → Pc
  first : Pc  -- `me->next->spin = 1`

-- Whether `waiting_policy_sleep` goes on: it reads an int, the low half of `spin`.
abbrev pub sleeps : ℕ → Bool
sleeps v = v % 2 ^ 32 == locked

module _ (cpus nodes : ℕ) where
  -- `reg` is what `rdtscp` reads in this step.
  unfoldable pub step : ℕ → ℕ → CnaMutex → Pc → CnaMutex × Next Pc
  unfolding keep_lock_local current_numa_node
  step i reg m prepare =
      let me = node_of i in
      (set_socket (set_spin (set_next m me locked) me 0) me no_socket, go swap_tail)
  step i reg m swap_tail =
      (set_tail m (node_of i), if m.tail == null then acquired else go (set_node m.tail))
  step i reg m (set_node tail) =
      (set_socket m (node_of i) (current_numa_node cpus nodes reg), go (link tail))
  step i reg m (link tail) = (set_next m tail (node_of i), go sleep)
  step i reg m sleep = (m, if sleeps (m.spin (node_of i)) then go sleep else acquired)
  step i reg m try_prepare =
      (set_spin (set_next m (node_of i) null) (node_of i) locked, go try_swap)
  step i reg m try_swap =
      (set_tail m (cas m.tail null (node_of i)), if m.tail == null then acquired else busy)
  step i reg m has_next = (m, if m.next (node_of i) == null then go has_second else go keep_local)
  step i reg m has_second =
      let v = m.spin (node_of i) in (m, if ltb 1 v then go (read_tail v) else go clear_tail)
  step i reg m clear_tail = (
    set_tail m (cas m.tail (node_of i) null),
    if m.tail == node_of i then released else go wait_next,
  )
  step i reg m (read_tail head) = (m, go (splice head (m.sec_tail head)))
  step i reg m (splice head tail) = (
    set_tail m (cas m.tail (node_of i) tail),
    if m.tail == node_of i then go (wake head) else go wait_next,
  )
  step i reg m wait_next = (m, if m.next (node_of i) == null then go wait_next else go keep_local)
  step i reg m keep_local =
      let r = keep_lock_local i (m.rv i) in
      (record m { rv = assign m.rv i r.0 }, if r.1 then go find else go second)
  step i reg m find = (m, go (own_node (m.next (node_of i))))
  step i reg m (own_node next) =
      let node = m.socket (node_of i) in
      (m, go (compare next (if node == no_socket then current_numa_node cpus nodes reg else node)))
  step i reg m (compare next node) =
      (m, if m.socket next == node then go (pass next) else go (after_first next node))
  step i reg m (after_first head node) = (m, go (scan head head (m.next head) node))
  step i reg m (scan head tail cur node) = (
    m,
    if cur == null
        then go second
        else (if m.socket cur == node then go (skip head tail cur) else go (follow head cur node)),
  )
  step i reg m (follow head cur node) = (m, go (scan head cur (m.next cur) node))
  step i reg m (skip head tail cur) =
      if ltb 1 (m.spin (node_of i))
      then (m, go (append head tail cur))
      else (set_spin m (node_of i) head, go (cut tail cur))
  step i reg m (append head tail cur) =
      (m, go (append_at (m.sec_tail (m.spin (node_of i))) head tail cur))
  step i reg m (append_at last head tail cur) = (set_next m last head, go (cut tail cur))
  step i reg m (cut tail cur) = (set_next m tail null, go (set_last tail cur))
  step i reg m (set_last tail cur) = (set_sec_tail m (m.spin (node_of i)) tail, go (pass cur))
  step i reg m (pass succ) =
      let v = m.spin (node_of i) in (m, go (pass_value succ (if v == 0 then 1 else v)))
  step i reg m (pass_value succ value) = (set_spin m succ value, released)
  step i reg m second =
      let v = m.spin (node_of i) in (m, if ltb 1 v then go (last_of v) else go first)
  step i reg m (last_of succ) = (m, go (read_next succ (m.sec_tail succ)))
  step i reg m (read_next succ last) = (m, go (join succ last (m.next (node_of i))))
  step i reg m (join succ last next) = (set_next m last next, go (wake succ))
  step i reg m (wake succ) = (set_spin m succ 1, released)
  step i reg m first = (m, go (wake (m.next (node_of i))))

  unfoldable pub cna : Code CnaMutex Pc ℕ
  unfolding step
  cna = record {
    lock_entry = prepare;
    trylock_entry = try_prepare;
    unlock_entry = has_next;
    release_entry = has_next;
    step = step;
    trylock_asserts = true;
    on_locked = λ i reg m. m;
  }

-- A schedule of `n` threads that use one such mutex and its condition variables.
unfoldable pub mutex :
    {X : Type 0}
    → (cpus nodes : ℕ) → Posix X
    → ℕ
    → List (Wrapper.Event ℕ)
    → Wrapper.State CnaMutex Pc X
unfolding cna create Wrapper.run
mutex cpus nodes px n es = Wrapper.run (cna cpus nodes) px n es (Wrapper.start create px)
