-- ===== src/Ticket/Mutex.antt =====
-- `ticket_mutex_lock`, `ticket_mutex_trylock` and `ticket_mutex_unlock`, one shared access at a time.
use shfllock.Base.{
  ℕ, ◌+◌, ◌-◌, ◌*◌, ◌/◌, ◌%◌, ◌^◌, Bool, false, List, ◌==◌, ltb, if◌then◌else◌, assign, true,
}
use shfllock.Protocol.Code.{Code, Next, go, acquired, busy, released}
use shfllock.Protocol.Wrapper
use shfllock.Protocol.Wrapper.{Posix}

-- struct t_info of utils.h, as far as the ticket lock uses it. `fresh` says that `tid` is -1.
pub record ThreadInfo : Type 0 where
  pub fresh : Bool
  pub banned : Bool
  pub banned_until : ℕ
  pub start_ticks : ℕ

-- The ticket lock with the thread-local `tinfo` of its threads, and `last_thread_id`.
pub record TicketMutex : Type 0 where
  pub request : ℕ
  pub grant : ℕ
  pub tinfo : ℕ → ThreadInfo
  pub last_thread_id : ℕ

abbrev pub u32 : ℕ → ℕ
u32 v = v % 2 ^ 32

abbrev pub u64 : ℕ → ℕ
u64 v = v % 2 ^ 64

-- The 64-bit word that overlays `grant` (low half) and `request` (high half).
abbrev pub word : ℕ → ℕ → ℕ
word request grant = u64 (request * 2 ^ 32) + grant

pub data Pc : Type 0 where
  first_use : Pc  -- `if (tinfo.tid == -1)`
  ban_test : Pc  -- `if (tinfo.banned)`
  ban_wait : Pc
  fetch : Pc
  spin : (t : ℕ) → Pc
  try_read : Pc
  try_swap : (me : ℕ) → Pc
  account : Pc
  grant_read : Pc  -- `impl->u.s.grant++`, a read and a write
  grant_write : (g : ℕ) → Pc

-- What `ticket_mutex_unlock` does with the clock at `now`: each tick of the critical section bans
-- the thread for as many ticks as there are other threads.
unfoldable pub account_cs : (last_thread_id now : ℕ) → ThreadInfo → ThreadInfo
account_cs last now t =
    let cslength = u64 (now + 2 ^ 64 - t.start_ticks) in
    let until = u64 (t.banned_until + cslength * u32 (last + 2 ^ 32 - 1)) in
    record t { banned_until = until; banned = ltb now until }

-- The input of a step is the value of `rdtsc()`.
unfoldable pub step : ℕ → ℕ → TicketMutex → Pc → TicketMutex × Next Pc
unfolding account_cs
step i now m first_use = (
  if (m.tinfo i).fresh
      then record m {
        tinfo = assign m.tinfo i (record (m.tinfo i) { fresh = false; banned_until = now });
      }
      else m,
  go ban_test,
)
step i now m ban_test = (m, if (m.tinfo i).banned then go ban_wait else go fetch)
step i now m ban_wait = (m, if ltb now (m.tinfo i).banned_until then go ban_wait else go fetch)
step i now m fetch = (record m { request = u32 (m.request + 1) }, go (spin m.request))
step i now m (spin t) = (m, if m.grant == t then acquired else go (spin t))
step i now m try_read = (m, go (try_swap m.request))
step i now m (try_swap me) =
    let cmp = word me me in
    let cmpnew = word (u32 (me + 1)) me in
    if word m.request m.grant == cmp
    then (record m { request = cmpnew / 2 ^ 32; grant = cmpnew % 2 ^ 32 }, acquired)
    else (m, busy)
step i now m account = (
  record m { tinfo = assign m.tinfo i (account_cs m.last_thread_id now (m.tinfo i)) },
  go grant_read,
)
step i now m grant_read = (m, go (grant_write m.grant))
step i now m (grant_write g) = (record m { grant = u32 (g + 1) }, released)

-- `cond_timedwait` gives the lock back with no account. `tinfo.start_ticks = rdtsc()` comes last in
-- `lock`.
unfoldable pub ticket : Code TicketMutex Pc ℕ
unfolding step
ticket = record {
  lock_entry = first_use;
  trylock_entry = try_read;
  unlock_entry = account;
  release_entry = grant_read;
  step = step;
  trylock_asserts = true;
  on_locked =
      λ i now m. record m { tinfo = assign m.tinfo i (record (m.tinfo i) { start_ticks = now }) };
}

-- A new lock; `tinfo` is what the threads' earlier locks have left.
abbrev pub create : (ℕ → ThreadInfo) → ℕ → TicketMutex
create tinfo last = record { request = 0; grant = 0; tinfo = tinfo; last_thread_id = last }

-- A schedule of `n` threads that use one such mutex and its condition variables.
unfoldable pub mutex :
    {X : Type 0}
    → (ℕ → ThreadInfo)
    → ℕ
    → Posix X
    → ℕ
    → List (Wrapper.Event ℕ)
    → Wrapper.State TicketMutex Pc X
unfolding ticket Wrapper.run
mutex tinfo last px n es = Wrapper.run ticket px n es (Wrapper.start (create tinfo last) px)
