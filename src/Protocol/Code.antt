-- ===== src/Protocol/Code.antt =====
-- The code of one lock algorithm, one shared access at a time, and `n` client threads that run it
-- interleaved in any order.
use shfllock.Base.{ℕ, Bool, List, [], ◌∷◌, ltb, if◌then◌else◌, assign}

-- What one step of `lock`, `trylock` or `unlock` leads to.
pub data Next (P : Type 0) : Type 0 where
  go : P → Next P
  acquired : Next P  -- `lock` or `trylock` returns 0
  busy : Next P  -- `trylock` returns EBUSY
  released : Next P  -- `unlock` returns
  aborted : Next P  -- an `assert` fails

-- `M` is the memory that the algorithm reads and writes, `P` its program counters with the live
-- locals, `I` what a step reads from outside: a clock, the number of a NUMA node.
pub record Code (M P I : Type 0) : Type 0 where
  pub lock_entry : P
  pub trylock_entry : P
  pub unlock_entry : P
  pub release_entry : P  -- the inner `unlock`, as `cond_timedwait` calls it
  pub step : ℕ → I → M → P → M × Next P
  pub trylock_asserts : Bool  -- whether `trylock` has an assert behind the POSIX mutex
  pub on_locked : ℕ → I → M → M  -- what `lock` does last, behind the POSIX mutex

-- Where a thread stands, as the algorithm sees it.
pub data View (P : Type 0) : Type 0 where
  outside : View P
  at : P → View P
  inside : View P
  dead : View P

pub data Op : Type 0 where
  lock trylock unlock release settle : Op

pub record Event (I : Type 0) : Type 0 where
  pub tid : ℕ
  pub op : Op
  pub input : I

pub record State (M P : Type 0) : Type 0 where
  pub mem : M
  pub view : ℕ → View P

abbrev pub after : {P : Type 0} → Next P → View P
after (go p) = at p
after acquired = inside
after busy = outside
after released = outside
after aborted = dead

module _ {M P I : Type 0} (c : Code M P I) where
  -- One step of one thread. `op` is what the client calls next, where the thread is in no call.
  unfoldable pub move : ℕ → I → Op → M → View P → M × View P
  move i x o m (at p) = let r = c.step i x m p in (r.0, after r.1)
  move i x lock m outside = (m, at c.lock_entry)
  move i x trylock m outside = (m, at c.trylock_entry)
  move i x unlock m inside = (m, at c.unlock_entry)
  move i x release m inside = (m, at c.release_entry)
  move i x settle m inside = (c.on_locked i x m, inside)
  move i x o m v = (m, v)

  -- An event of a thread that does not exist does nothing.
  unfoldable pub turn : ℕ → Event I → State M P → State M P
  unfolding move
  turn n e s =
      let r = move e.tid e.input e.op s.mem (s.view e.tid) in
      if ltb e.tid n then record { mem = r.0; view = assign s.view e.tid r.1 } else s

  -- A schedule, the earliest event first.
  unfoldable pub run : ℕ → List (Event I) → State M P → State M P
  unfolding turn
  run n [] s = s
  run n (e ∷ es) s = run n es (turn n e s)

-- Every thread is outside, over the memory that `create` leaves.
abbrev pub start : {M P : Type 0} → M → State M P
start m = record { mem = m; view = λ _. outside }
