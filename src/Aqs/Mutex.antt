-- ===== src/Aqs/Mutex.antt =====
-- `aqs_mutex_lock`, `aqs_mutex_trylock` and `aqs_mutex_unlock` of aqs.c.
use shfllock.Base.{ℕ, true, false, List, ◌==◌, if◌then◌else◌}
use shfllock.Atomic.{cas}
use shfllock.Aqs.Memory.{
  Ptr, null, node_of, Node, AqsMutex, status_wait, status_locked, both_free, cas_both,
  enable_stealing, disable_stealing, put, set_next, set_lstatus, current_numa_node,
}
use shfllock.Aqs.Shuffle
use shfllock.Protocol.Code.{Code, Next, go, acquired, busy, released}
use shfllock.Protocol.Wrapper
use shfllock.Protocol.Wrapper.{Posix}

pub data Pc : Type 0 where
  fast_path : Pc
  prepare : Pc  -- the stores to `me`, which no other thread can see yet
  swap_tail : Pc
  link : (prev : Ptr) → Pc
  disable : Pc
  wait_turn : Pc  -- first loop: the test of `me->lstatus`
  check_leader : Pc  -- first loop: the test of `me->sleader`
  wait_free : Pc  -- second loop: the test of `impl->locked`
  check_count : Pc  -- second loop: the read of `me->wcount`
  check_count_leader : Pc  -- second loop: the read of `me->sleader`
  take : Pc  -- third loop: the compare-and-swap
  take_wait : Pc  -- third loop: the wait
  has_next : Pc
  clear_tail : Pc
  enable : Pc
  wait_next : Pc
  read_next : Pc
  notify : (succ : Ptr) → Pc
  attempt : Pc  -- `trylock`
  give_back : Pc  -- `unlock`
  shuffling : Shuffle.Pc → Pc

-- `shuffle_waiters` returns into the loop that called it.
abbrev pub resume : Shuffle.Next → Next Pc
resume (Shuffle.go p) = go (shuffling p)
resume (Shuffle.return true) = go wait_free
resume (Shuffle.return false) = go wait_turn

module _ (cpus nodes : ℕ) where
  unfoldable pub step : ℕ → ℕ → AqsMutex → Pc → AqsMutex × Next Pc
  unfolding enable_stealing disable_stealing current_numa_node Shuffle.step
  step i reg m fast_path = (cas_both m, if both_free m then acquired else go prepare)
  step i reg m prepare = (
    put m (node_of i) (record {
      next = null;
      lstatus = status_wait;
      sleader = 0;
      wcount = 0;
      nid = current_numa_node cpus nodes reg;
      cid = i;
      last_visited = null;
    }),
    go swap_tail,
  )
  step i reg m swap_tail =
      (record m { tail = node_of i }, if m.tail == null then go disable else go (link m.tail))
  step i reg m (link prev) = (set_next m prev (node_of i), go wait_turn)
  step i reg m disable = (disable_stealing m, go wait_free)
  step i reg m wait_turn =
      (m, if (m.node (node_of i)).lstatus == status_locked then go wait_free else go check_leader)
  step i reg m check_leader = (
    m,
    if (m.node (node_of i)).sleader == 0
        then go wait_turn
        else go (shuffling (Shuffle.begin (node_of i) false)),
  )
  step i reg m wait_free = (m, if m.locked == 0 then go take else go check_count)
  step i reg m check_count = (
    m,
    if (m.node (node_of i)).wcount == 0
        then go (shuffling (Shuffle.begin (node_of i) true))
        else go check_count_leader,
  )
  step i reg m check_count_leader = (
    m,
    if (m.node (node_of i)).sleader == 0
        then go wait_free
        else go (shuffling (Shuffle.begin (node_of i) true)),
  )
  step i reg m take =
      (record m { locked = cas m.locked 0 1 }, if m.locked == 0 then go has_next else go take_wait)
  step i reg m take_wait = (m, if m.locked == 0 then go take else go take_wait)
  step i reg m has_next =
      (m, if (m.node (node_of i)).next == null then go clear_tail else go read_next)
  step i reg m clear_tail = (
    record m { tail = cas m.tail (node_of i) null },
    if m.tail == node_of i then go enable else go wait_next,
  )
  step i reg m enable = (enable_stealing m, acquired)
  step i reg m wait_next =
      (m, if (m.node (node_of i)).next == null then go wait_next else go read_next)
  step i reg m read_next = (m, go (notify (m.node (node_of i)).next))
  step i reg m (notify succ) = (set_lstatus m succ status_locked, acquired)
  step i reg m attempt =
      (record m { locked = cas m.locked 0 1 }, if m.locked == 0 then acquired else busy)
  step i reg m give_back = (record m { locked = 0 }, released)
  step i reg m (shuffling p) = let r = Shuffle.step i m p in (r.0, resume r.1)

  unfoldable pub aqs : Code AqsMutex Pc ℕ
  unfolding step
  aqs = record {
    lock_entry = fast_path;
    trylock_entry = attempt;
    unlock_entry = give_back;
    release_entry = give_back;
    step = step;
    trylock_asserts = true;
    on_locked = λ i x m. m;
  }

abbrev blank : Node
blank = record {
  next = null;
  lstatus = 0;
  sleader = 0;
  wcount = 0;
  nid = 0;
  cid = 0;
  last_visited = null;
}

-- The contexts are zeroed by `ht_lock_create` of interpose.c.
unfoldable pub create : AqsMutex
create = record { tail = null; locked = 0; no_stealing = 0; node = λ p. blank; rv = λ i. 0 }

-- A schedule of `n` threads that use one such mutex and its condition variables.
unfoldable pub mutex :
    {X : Type 0} (cpus nodes : ℕ)
    → Posix X
    → ℕ
    → List (Wrapper.Event ℕ)
    → Wrapper.State AqsMutex Pc X
unfolding aqs create Wrapper.run
mutex cpus nodes px n es = Wrapper.run (aqs cpus nodes) px n es (Wrapper.start create px)
