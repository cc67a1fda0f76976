-- ===== src/Protocol/Wrapper.antt =====
-- What every lock of ulocks/src puts around its own algorithm when it is built with condition
-- variables (COND_VAR is 1): `X_mutex_lock`, `X_mutex_trylock`, `X_mutex_unlock` and
-- `X_cond_timedwait`, which take and give back a POSIX mutex inside the algorithm's lock.
use shfllock.Base.{ℕ, Bool, true, false, List, [], ◌∷◌, ltb, ◌==◌, ◌||◌, not, if◌then◌else◌, assign}
use shfllock.Protocol.Code
use shfllock.Protocol.Code.{Next, go, acquired, busy, released, aborted}

abbrev pub ebusy : ℕ
ebusy = 16

abbrev pub etimedout : ℕ
etimedout = 110

-- A call of the C library: it returns a number, or it has not returned yet. Either may change
-- the library's own state.
pub data Call (X : Type 0) : Type 0 where
  returned : ℕ → X → Call X
  blocked : X → Call X

-- The POSIX functions that the locks reach through REAL(...), for the thread of the given number.
pub record Posix (X : Type 0) : Type 0 where
  pub mutex_init : X  -- the library's state behind `pthread_mutex_init`
  pub mutex_lock : ℕ → X → Call X
  pub mutex_trylock : ℕ → X → Call X
  pub mutex_unlock : ℕ → X → Call X
  pub cond_wait : ℕ → X → Call X
  pub cond_timedwait : ℕ → X → Call X
  pub cond_signal : ℕ → X → Call X
  pub cond_broadcast : ℕ → X → Call X

-- The call of the algorithm that a thread is in, and what it goes on to do.
pub data Frame : Type 0 where
  locking : Frame
  trying : Frame
  unlocking : Frame
  releasing : (timed : Bool) → Frame  -- `__X_mutex_unlock` in `cond_timedwait`
  relocking : (res : ℕ) → Frame  -- `X_mutex_lock` in `cond_timedwait`

pub data Thread (P : Type 0) : Type 0 where
  idle : (ret : ℕ) → Thread P
  call : Frame → P → Thread P
  posix_lock : (res : ℕ) → Thread P
  posix_trylock : Thread P
  locked_exit : (res : ℕ) → Thread P
  critical : (ret : ℕ) → Thread P
  posix_unlock : Thread P
  waiting : (timed : Bool) → Thread P
  wait_unlock : (res : ℕ) → Thread P
  failed : (holding : Bool) → Thread P  -- an assert of the wrapper failed
  crashed : Thread P  -- an assert of the algorithm failed

-- What the client calls next. A thread in the critical section that calls nothing stays there.
pub data Request : Type 0 where
  lock trylock unlock signal broadcast none : Request
  wait : (timed : Bool) → Request

pub record Event (I : Type 0) : Type 0 where
  pub tid : ℕ
  pub request : Request
  pub input : I

pub record State (M P X : Type 0) : Type 0 where
  pub mem : M
  pub posix : X
  pub thread : ℕ → Thread P

pub record Result (M P X : Type 0) : Type 0 where
  pub mem : M
  pub posix : X
  pub thread : Thread P

-- Where a step of the algorithm takes the thread.
abbrev pub resume : {P : Type 0} → Frame → Next P → Thread P
resume f (go p) = call f p
resume f aborted = crashed
resume locking acquired = posix_lock 0
resume (relocking res) acquired = posix_lock res
resume trying acquired = posix_trylock
resume unlocking acquired = failed true
resume (releasing timed) acquired = failed true
resume (releasing timed) released = waiting timed
resume f released = idle 0
resume f busy = idle ebusy

module _ {M P I X : Type 0} (c : Code.Code M P I) (px : Posix X) where
  -- `assert(ret == 0)` behind the inner lock and unlock.
  abbrev pub demand : M → Bool → Thread P → Thread P → Call X → Result M P X
  demand m holding here next (blocked x) = record { mem = m; posix = x; thread = here }
  demand m holding here next (returned r x) = record {
    mem = m;
    posix = x;
    thread = if r == 0 then next else failed holding;
  }

  -- `while ((ret = trylock()) == EBUSY);`, then the same assert, which alockepfl.c leaves out.
  abbrev pub persist : M → Call X → Result M P X
  persist m (blocked x) = record { mem = m; posix = x; thread = posix_trylock }
  persist m (returned r x) = record {
    mem = m;
    posix = x;
    thread =
        if r == ebusy
        then posix_trylock
        else (if (r == 0) || not c.trylock_asserts then critical 0 else failed true);
  }

  abbrev pub woken : M → Bool → Call X → Result M P X
  woken m timed (blocked x) = record { mem = m; posix = x; thread = waiting timed }
  woken m timed (returned r x) = record {
    mem = m;
    posix = x;
    thread = if (r == 0) || (r == etimedout) then wait_unlock r else failed false;
  }

  -- `X_cond_signal` and `X_cond_broadcast` return what the library returns.
  abbrev pub answer : M → Thread P → (ℕ → Thread P) → Call X → Result M P X
  answer m here next (blocked x) = record { mem = m; posix = x; thread = here }
  answer m here next (returned r x) = record { mem = m; posix = x; thread = next r }

  unfoldable pub step : ℕ → I → Request → M → X → Thread P → Result M P X
  step i y q m x (call f p) =
      let r = c.step i y m p in record { mem = r.0; posix = x; thread = resume f r.1 }
  step i y q m x (posix_lock res) =
      demand m true (posix_lock res) (locked_exit res) (px.mutex_lock i x)
  step i y q m x posix_trylock = persist m (px.mutex_trylock i x)
  step i y q m x (locked_exit res) = record {
    mem = c.on_locked i y m;
    posix = x;
    thread = critical res;
  }
  step i y q m x posix_unlock =
      demand m true posix_unlock (call unlocking c.unlock_entry) (px.mutex_unlock i x)
  step i y q m x (waiting timed) =
      woken m timed (if timed then px.cond_timedwait i x else px.cond_wait i x)
  step i y q m x (wait_unlock res) =
      demand m false (wait_unlock res) (call (relocking res) c.lock_entry) (px.mutex_unlock i x)
  step i y q m x (failed h) = record { mem = m; posix = x; thread = failed h }
  step i y q m x crashed = record { mem = m; posix = x; thread = crashed }
  step i y lock m x (idle r) = record { mem = m; posix = x; thread = call locking c.lock_entry }
  step i y trylock m x (idle r) = record {
    mem = m;
    posix = x;
    thread = call trying c.trylock_entry;
  }
  step i y signal m x (idle r) = answer m (idle r) idle (px.cond_signal i x)
  step i y broadcast m x (idle r) = answer m (idle r) idle (px.cond_broadcast i x)
  step i y q m x (idle r) = record { mem = m; posix = x; thread = idle r }
  step i y unlock m x (critical r) = record { mem = m; posix = x; thread = posix_unlock }
  step i y (wait timed) m x (critical r) = record {
    mem = m;
    posix = x;
    thread = call (releasing timed) c.release_entry;
  }
  step i y signal m x (critical r) = answer m (critical r) critical (px.cond_signal i x)
  step i y broadcast m x (critical r) = answer m (critical r) critical (px.cond_broadcast i x)
  step i y q m x (critical r) = record { mem = m; posix = x; thread = critical r }

  unfoldable pub turn : ℕ → Event I → State M P X → State M P X
  unfolding step
  turn n e s =
      let r = step e.tid e.input e.request s.mem s.posix (s.thread e.tid) in
      if ltb e.tid n
      then record { mem = r.mem; posix = r.posix; thread = assign s.thread e.tid r.thread }
      else s

  unfoldable pub run : ℕ → List (Event I) → State M P X → State M P X
  unfolding turn
  run n [] s = s
  run n (e ∷ es) s = run n es (turn n e s)

-- What `X_mutex_create` leaves: the algorithm's memory, an initialised POSIX mutex, and no thread
-- in any call.
abbrev pub start : {M P X : Type 0} → M → Posix X → State M P X
start m px = record { mem = m; posix = px.mutex_init; thread = λ _. idle 0 }
