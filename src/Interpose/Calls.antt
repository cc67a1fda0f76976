-- ===== src/Interpose/Calls.antt =====
-- `ht_lock_create`, `ht_lock_get` and the functions `pthread_mutex_*` and `pthread_cond_*wait` of
-- interpose.c, around any lock of this library, one access to the table or to the lock at a time.
use shfllock.Base.{ℕ, suc, Bool, true, false, List, [], ◌∷◌, ◌==◌, not, ltb, if◌then◌else◌, assign}
use shfllock.Protocol.Code.{Code}
use shfllock.Protocol.Wrapper
use shfllock.Protocol.Wrapper.{Posix, Thread, idle, critical}
use shfllock.Interpose.Table.{Ptr, null, Table}

pub data Op : Type 0 where
  init lock trylock unlock cond_wait cond_timedwait : Op

-- What the client calls next, for the mutex at an address.
pub data Request : Type 0 where
  call : Op → (mutex : ℕ) → Request
  destroy : (mutex : ℕ) → Request
  none : Request

pub record Event (I : Type 0) : Type 0 where
  pub tid : ℕ
  pub request : Request
  pub input : I

-- Where a thread stands in a call.
pub data Stage : Type 0 where
  returned : (ret : ℕ) → Stage
  get : Op → (mutex : ℕ) → Stage  -- `clht_get` in `ht_lock_get`
  create : Op → (mutex : ℕ) → Stage  -- the new lock in `ht_lock_create`
  put : Op → (mutex : ℕ) → (impl : Ptr) → Stage  -- `clht_put`
  get_again : Op → (mutex : ℕ) → Stage  -- `clht_get` in `ht_lock_create`
  calling : Op → (mutex : ℕ) → (impl : Ptr) → Stage  -- the lock's own function
  remove : (mutex : ℕ) → Stage  -- `clht_remove`
  fault : Stage  -- `impl->lock_lock` of NULL

-- `heap` has the lock and the nodes behind each address, `next` is what the allocator answers next.
-- `held` is what the client knows: which mutexes a thread has locked and not unlocked.
pub record State (T M P X : Type 0) : Type 0 where
  pub table : T
  pub heap : Ptr → Wrapper.State M P X
  pub next : Ptr
  pub held : ℕ → ℕ → Bool
  pub stage : ℕ → Stage

abbrev pub request_of : Op → Wrapper.Request
request_of init = Wrapper.none
request_of lock = Wrapper.lock
request_of trylock = Wrapper.trylock
request_of unlock = Wrapper.unlock
request_of cond_wait = Wrapper.wait false
request_of cond_timedwait = Wrapper.wait true

-- What the function returns, where the lock's own function has returned `ret`.
abbrev pub answer : Op → ℕ → ℕ
answer unlock ret = 0
answer cond_wait ret = 0
answer op ret = ret

-- Whether the client may call a function, where it holds the mutex or not: locking twice, and
-- unlocking or waiting without the lock, are errors of the client.
abbrev pub allowed : Op → Bool → Bool
allowed init h = true
allowed lock h = not h
allowed trylock h = not h
allowed op h = h

-- Behind the lookup.
abbrev pub found : Op → ℕ → Ptr → Stage
found init k p = returned 0
found op k p = if p == null then fault else calling op k p

abbrev pub enter : Op → ℕ → Stage
enter init k = create init k
enter op k = get op k

module _ {T M P X : Type 0} where
  abbrev pub at : State T M P X → ℕ → Stage → State T M P X
  at s i g = record s { stage = assign s.stage i g }

  abbrev pub set_held : State T M P X → ℕ → ℕ → Bool → State T M P X
  set_held s i k h = record s { held = assign s.held i (assign (s.held i) k h) }

  -- Whether the lock's own function has returned: the thread is outside or has the lock. A client takes
  -- a mutex for unlocked behind `pthread_mutex_unlock`, whatever that has done.
  abbrev pub conclude : State T M P X → ℕ → Op → ℕ → Ptr → Thread P → State T M P X
  conclude s i op k p (idle r) = at s i (returned (answer op r))
  conclude s i unlock k p (critical r) = at s i (returned (answer unlock r))
  conclude s i op k p (critical r) = at (set_held s i k true) i (returned (answer op r))
  conclude s i op k p t = at s i (calling op k p)

  abbrev pub ask : State T M P X → ℕ → Op → ℕ → State T M P X
  ask s i init k = at s i (enter init k)
  ask s i op k = at (set_held s i k false) i (enter op k)

module _ {T M P I X : Type 0} (b : Table T) (c : Code M P I) (px : Posix X) (n : ℕ) (m : M) where
  -- `clht_get`, and what follows in `ht_lock_get`.
  abbrev pub ht_lock_get : State T M P X → ℕ → Op → ℕ → State T M P X
  ht_lock_get s i op k =
      let p = b.clht_get s.table k in at s i (if p == null then create op k else found op k p)

  -- `ht_lock_create` up to its `clht_put`: no other thread can see the new lock.
  abbrev pub ht_lock_create : State T M P X → ℕ → Op → ℕ → State T M P X
  ht_lock_create s i op k =
      at (record s { heap = assign s.heap s.next (Wrapper.start m px); next = suc s.next }) i
        (put op k s.next)

  -- `clht_put`: the thread that comes too late frees its lock.
  abbrev pub ht_lock_put : State T M P X → ℕ → Op → ℕ → Ptr → State T M P X
  ht_lock_put s i op k p =
      let r = b.clht_put s.table k p in
      at (record s { table = r.0 }) i (if r.1 then found op k p else get_again op k)

  unfoldable pub step : ℕ → I → Request → State T M P X → Stage → State T M P X
  step i y q s (get op k) = ht_lock_get s i op k
  step i y q s (create op k) = ht_lock_create s i op k
  step i y q s (put op k p) = ht_lock_put s i op k p
  step i y q s (get_again op k) = at s i (found op k (b.clht_get s.table k))
  step i y q s (calling op k p) =
      let l =
        Wrapper.turn c px n (record { tid = i; request = request_of op; input = y }) (s.heap p) in
      conclude (record s { heap = assign s.heap p l }) i op k p (l.thread i)
  step i y q s (remove k) = at (record s { table = (b.clht_remove s.table k).0 }) i (returned 0)
  step i y (call op k) s (returned r) = if allowed op (s.held i k) then ask s i op k else s
  step i y (destroy k) s (returned r) = at s i (remove k)
  step i y none s (returned r) = s
  step i y q s fault = s

  unfoldable pub turn : Event I → State T M P X → State T M P X
  unfolding step
  turn e s = if ltb e.tid n then step e.tid e.input e.request s (s.stage e.tid) else s

  unfoldable pub run : List (Event I) → State T M P X → State T M P X
  unfolding turn
  run [] s = s
  run (e ∷ es) s = run es (turn e s)

  -- No lock exists yet.
  abbrev pub start : State T M P X
  start = record {
    table = b.clht_create;
    heap = λ p. Wrapper.start m px;
    next = 1;
    held = λ i k. false;
    stage = λ i. returned 0;
  }
