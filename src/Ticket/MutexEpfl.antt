-- ===== src/Ticket/MutexEpfl.antt =====
-- `ticketepfl_mutex_lock`, `ticketepfl_mutex_trylock` and `ticketepfl_mutex_unlock` of ticketepfl.c,
-- one shared access at a time.
use shfllock.Base.{ℕ, zero, suc, ◌+◌, ◌-◌, ◌*◌, ◌/◌, ◌%◌, ◌^◌, List, ◌==◌, ltb, if◌then◌else◌, true}
use shfllock.Protocol.Code.{Code, Next, go, acquired, busy, released}
use shfllock.Protocol.Wrapper
use shfllock.Protocol.Wrapper.{Posix}
use shfllock.Ticket.Mutex.{u32, u64}

pub record TicketMutex : Type 0 where
  pub grant : ℕ
  pub request : ℕ

-- TICKET_BASE_WAIT and TICKET_WAIT_NEXT.
abbrev pub base_wait : ℕ
base_wait = 512

abbrev pub wait_next : ℕ
wait_next = 128

-- The 64-bit word `u`, which overlays `grant` and `request`.
abbrev pub word : TicketMutex → ℕ
word m = u64 (m.request * 2 ^ 32) + m.grant

unfoldable pub sub_abs : ℕ → ℕ → ℕ
sub_abs a b = if ltb b a then a - b else b - a

pub data Pc : Type 0 where
  fetch : Pc
  spin : (my_ticket wait distance_prev : ℕ) → Pc
  pause : (my_ticket wait distance_prev num_reps : ℕ) → Pc  -- `nop_rep`
  try_read : Pc
  try_swap : (me : ℕ) → Pc
  grant_read : Pc  -- `impl->u.s.grant++`, a read and a write
  grant_write : (g : ℕ) → Pc

-- The pause behind a look at `grant` that found `cur`. The `sched_yield` at a distance of more than
-- 20 leaves no trace in the memory.
unfoldable pub back_off : (cur my_ticket wait distance_prev : ℕ) → Pc
unfolding sub_abs
back_off cur my_ticket wait prev =
    let distance = sub_abs cur my_ticket in
    if ltb 1 distance
    then (if distance == prev
        then pause my_ticket wait prev (u32 (distance * wait))
        else pause my_ticket base_wait distance (u32 (distance * base_wait)))
    else pause my_ticket wait prev wait_next

unfoldable pub step : ℕ → Unit {0} → TicketMutex → Pc → TicketMutex × Next Pc
unfolding back_off
step i x m fetch =
    let my_ticket = u32 (m.request + 1) in
    (record m { request = my_ticket }, go (spin my_ticket base_wait 1))
step i x m (spin t wait prev) =
    (m, if m.grant == t then acquired else go (back_off m.grant t wait prev))
step i x m (pause t wait prev zero) = (m, go (spin t wait prev))
step i x m (pause t wait prev (suc k)) = (m, go (pause t wait prev k))
step i x m try_read = (m, go (try_swap m.request))
step i x m (try_swap me) =
    let menew = u32 (me + 1) in
    let cmp = u64 (me * 2 ^ 32) + menew in
    let cmpnew = u64 (menew * 2 ^ 32) + menew in
    if word m == cmp
    then (record { grant = cmpnew % 2 ^ 32; request = cmpnew / 2 ^ 32 }, acquired)
    else (m, busy)
step i x m grant_read = (m, go (grant_write m.grant))
step i x m (grant_write g) = (record m { grant = u32 (g + 1) }, released)

unfoldable pub ticketepfl : Code TicketMutex Pc (Unit {0})
unfolding step
ticketepfl = record {
  lock_entry = fetch;
  trylock_entry = try_read;
  unlock_entry = grant_read;
  release_entry = grant_read;
  step = step;
  trylock_asserts = true;
  on_locked = λ i x m. m;
}

abbrev pub create : TicketMutex
create = record { grant = 1; request = 0 }

-- A schedule of `n` threads that use one such mutex and its condition variables.
unfoldable pub mutex :
    {X : Type 0} → Posix X → ℕ → List (Wrapper.Event (Unit {0})) → Wrapper.State TicketMutex Pc X
unfolding ticketepfl Wrapper.run
mutex px n es = Wrapper.run ticketepfl px n es (Wrapper.start create px)
