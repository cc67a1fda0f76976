-- ===== src/Aqm/Mutex.antt =====
-- `aqm_mutex_lock`, `aqm_mutex_trylock` and `aqm_mutex_unlock` of aqm.c, with the waits of
-- `park_waiter`.
use shfllock.Base.{ℕ, Bool, true, false, suc, List, ◌==◌, ltb, if◌then◌else◌}
use shfllock.Atomic.{cas}
use shfllock.Aqs.Memory.{Ptr, null, node_of, current_numa_node}
use shfllock.Aqm.Memory.{
  Node, AqmMutex, parked, pwait, handed, both_free, cas_both, all_free, cas_val, enable_stealing,
  disable_stealing, is_stealing_disabled, put, set_next, set_lstatus, wakeup_waiter,
}
use shfllock.Aqm.Shuffle
use shfllock.Waiting.{Futex, woken, interrupted, again, asleep, spinning_threshold}
use shfllock.Protocol.Code.{Code, Next, go, acquired, busy, released}
use shfllock.Protocol.Wrapper
use shfllock.Protocol.Wrapper.{Posix}

-- What a step reads from outside: the register of `rdtscp` and the answer of the kernel.
pub record Input : Type 0 where
  pub reg : ℕ
  pub futex : Futex

pub data Pc : Type 0 where
  fast_path : Pc
  prepare : Pc  -- the stores to `node`, which no other thread can see yet
  swap_tail : Pc
  link : (pred : Ptr) → Pc
  spin : (should_park : Bool) (i : ℕ) → Pc
  park : (very_next : Bool) → Pc  -- the compare-and-swap of `park_waiter`
  sleep_test : (very_next : Bool) → Pc  -- `*var == 1`, before the futex
  sleep : (very_next : Bool) → Pc  -- FUTEX_WAIT
  sleep_spin : (very_next : Bool) → Pc  -- `while (*var != 1)`
  free_val : Pc  -- second loop: the read of `node->locked`
  wait_free : (wcount sleader : ℕ) → Pc  -- second loop: the read of `lock->locked`
  steal_test : Pc
  disable : Pc
  wait : Pc
  take : Pc
  has_next : Pc
  clear_tail : Pc
  enable : Pc
  wait_next : Pc
  notify : (succ : Ptr) → Pc
  wake : (succ : Ptr) → Pc
  attempt : Pc  -- `trylock`
  give_back : Pc  -- `unlock`
  shuffling : Shuffle.Pc → (i : ℕ) → Pc

-- `if (!very_next_waiter) goto retry;`
abbrev pub parked_on : Bool → Bool → Pc
parked_on should_park true = free_val
parked_on should_park false = spin should_park 0

-- `if (!should_park) park_waiter(node);`
abbrev pub spun : Bool → Bool → Pc
spun true very_next = parked_on true very_next
spun false very_next = park very_next

-- `shuffle_waiters` returns into the loop that called it.
abbrev pub resume : ℕ → Shuffle.Next → Next Pc
resume i (Shuffle.go p) = go (shuffling p i)
resume i (Shuffle.return true) = go free_val
resume i (Shuffle.return false) = go (spin true (suc i))

abbrev pub answered : Bool → Futex → Pc
answered v woken = sleep_spin v
answered v interrupted = sleep v
answered v again = sleep_spin v
answered v asleep = sleep v

module _ (cpus nodes : ℕ) where
  unfoldable pub step : ℕ → Input → AqmMutex → Pc → AqmMutex × Next Pc
  unfolding enable_stealing disable_stealing is_stealing_disabled current_numa_node Shuffle.step
  step i x m fast_path = (cas_both m, if both_free m then acquired else go prepare)
  step i x m prepare = (
    put m (node_of i) (record {
      next = null;
      lstatus = pwait;
      sleader = 0;
      wcount = 0;
      pstate = 0;
      nid = current_numa_node cpus nodes x.reg;
      cid = i;
      last_visited = null;
    }),
    go swap_tail,
  )
  step i x m swap_tail =
      (record m { tail = node_of i }, if m.tail == null then go steal_test else go (link m.tail))
  step i x m (link pred) = (set_next m pred (node_of i), go (spin false 0))
  step i x m (spin sp k) = (
    m,
    if ltb k spinning_threshold
        then (if (m.node (node_of i)).lstatus == handed
            then go (spun sp true)
            else if (m.node (node_of i)).sleader == 1
            then go (shuffling (Shuffle.begin (node_of i) false) k)
            else go (spin sp (suc k)))
        else go (spun sp false),
  )
  step i x m (park v) = (
    set_lstatus m (node_of i) (cas (m.node (node_of i)).lstatus pwait parked),
    if (m.node (node_of i)).lstatus == pwait then go (sleep_test v) else go (parked_on false v),
  )
  step i x m (sleep_test v) =
      (m, if (m.node (node_of i)).pstate == 1 then go (parked_on false v) else go (sleep v))
  step i x m (sleep v) = (m, go (answered v x.futex))
  step i x m (sleep_spin v) =
      (m, if (m.node (node_of i)).pstate == 1 then go (parked_on false v) else go (sleep_spin v))
  step i x m free_val = (m, go (wait_free (m.node (node_of i)).wcount (m.node (node_of i)).sleader))
  step i x m (wait_free w s) = (
    m,
    if m.locked == 0
        then go steal_test
        else if w == 0
        then go (shuffling (Shuffle.begin (node_of i) true) 0)
        else if s == 0
        then go free_val
        else go (shuffling (Shuffle.begin (node_of i) true) 0),
  )
  step i x m steal_test = (m, if is_stealing_disabled m == 0 then go wait else go disable)
  step i x m disable = (disable_stealing m, go wait)
  step i x m wait = (m, if m.locked == 0 then go take else go wait)
  step i x m take =
      (record m { locked = cas m.locked 0 1 }, if m.locked == 0 then go has_next else go steal_test)
  step i x m has_next =
      let succ = (m.node (node_of i)).next in
      (m, if succ == null then go clear_tail else go (notify succ))
  step i x m clear_tail = (
    record m { tail = cas m.tail (node_of i) null },
    if m.tail == node_of i then go enable else go wait_next,
  )
  step i x m enable = (enable_stealing m, acquired)
  step i x m wait_next =
      let succ = (m.node (node_of i)).next in
      (m, if succ == null then go wait_next else go (notify succ))
  step i x m (notify succ) = (
    set_lstatus m succ handed,
    if (m.node succ).lstatus == parked then go (wake succ) else acquired,
  )
  step i x m (wake succ) = (wakeup_waiter m succ, acquired)
  step i x m attempt = (cas_val m, if all_free m then acquired else busy)
  step i x m give_back = (record m { locked = 0 }, released)
  step i x m (shuffling p k) = let r = Shuffle.step i m p in (r.0, resume k r.1)

  unfoldable pub aqm : Code AqmMutex Pc Input
  unfolding step
  aqm = record {
    lock_entry = fast_path;
    trylock_entry = attempt;
    unlock_entry = give_back;
    release_entry = give_back;
    step = step;
    trylock_asserts = true;
    on_locked = λ i x m. m;
  }

abbrev blank : Node
blank = record {
  next = null;
  lstatus = 0;
  sleader = 0;
  wcount = 0;
  pstate = 0;
  nid = 0;
  cid = 0;
  last_visited = null;
}

-- The contexts are zeroed by `ht_lock_create` of interpose.c.
unfoldable pub create : AqmMutex
create = record {
  tail = null;
  locked = 0;
  no_stealing = 0;
  curr_nid = 0;
  node = λ p. blank;
  rv = λ i. 0;
}

-- A schedule of `n` threads that use one such mutex and its condition variables.
unfoldable pub mutex :
    {X : Type 0} (cpus nodes : ℕ)
    → Posix X
    → ℕ
    → List (Wrapper.Event Input)
    → Wrapper.State AqmMutex Pc X
unfolding aqm create Wrapper.run
mutex cpus nodes px n es = Wrapper.run (aqm cpus nodes) px n es (Wrapper.start create px)
