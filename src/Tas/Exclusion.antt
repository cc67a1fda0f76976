-- ===== src/Tas/Exclusion.antt =====
-- The locks of one word together: only one thread is in the critical section of each.
use shfllock.Base.{ℕ, ◌<◌, ◌≡◌, List}
use shfllock.Protocol.Code.{inside}
use shfllock.Protocol.Wrapper.{Posix, Event}
use shfllock.Protocol.Refinement.{view_of}
use shfllock.Tas.Spinlock
use shfllock.Tas.Ttas
use shfllock.Tas.Backoff
use shfllock.Tas.SpinlockEpfl
use shfllock.Tas.TtasEpfl
use shfllock.Ttasrw.Mutex

pub data Lock : Type 0 where
  spinlock ttas backoff spinlockepfl ttasepfl ttasrw : Lock

-- What a step of the lock reads from outside.
abbrev pub Input : Lock → Type 0
Input ttasepfl = TtasEpfl.Input
Input _ = Unit {0}

-- Thread `i` is in the critical section, behind a schedule of `n` threads.
abbrev pub InCritical :
    {X : Type 0} (k : Lock) → Posix X → (n : ℕ) → List (Event (Input k)) → (i : ℕ) → Type 0
InCritical spinlock px n es i = view_of ((Spinlock.mutex px n es).thread i) ≡ inside
InCritical ttas px n es i = view_of ((Ttas.mutex px n es).thread i) ≡ inside
InCritical backoff px n es i = view_of ((Backoff.mutex px n es).thread i) ≡ inside
InCritical spinlockepfl px n es i = view_of ((SpinlockEpfl.mutex px n es).thread i) ≡ inside
InCritical ttasepfl px n es i = view_of ((TtasEpfl.mutex px n es).thread i) ≡ inside
InCritical ttasrw px n es i = view_of ((Mutex.mutex px n es).thread i) ≡ inside

-- For each of spinlock.c, ttas.c, backoff.c, spinlockepfl.c, ttasepfl.c and the mutex of ttasrw.c:
-- whatever the schedule, the clock, the random numbers and the POSIX library do, two threads never
-- hold such a mutex together.
pub tas_exclusive :
    {X : Type 0} (k : Lock) (px : Posix X) (n : ℕ) (es : List (Event (Input k))) (i j : ℕ)
    → i < n
    → j < n
    → InCritical k px n es i
    → InCritical k px n es j
    → i ≡ j
tas_exclusive spinlock px n es = Spinlock.spinlock_exclusive px n es
tas_exclusive ttas px n es = Ttas.ttas_exclusive px n es
tas_exclusive backoff px n es = Backoff.backoff_exclusive px n es
tas_exclusive spinlockepfl px n es = SpinlockEpfl.spinlockepfl_exclusive px n es
tas_exclusive ttasepfl px n es = TtasEpfl.ttasepfl_exclusive px n es
tas_exclusive ttasrw px n es = Mutex.ttasrw_exclusive px n es
