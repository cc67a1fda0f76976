-- ===== src/Tests/Machine.antt =====
-- A small POSIX library and schedules for the tests.
use shfllock.Base.{ℕ, zero, suc, List, ◌∷◌, ◌==◌, if◌then◌else◌}
use shfllock.Protocol.Wrapper.{Posix, returned, blocked, Event, Request}

-- A mutex as a number: 0 where it is free, and the holder plus one. A wait returns at once.
abbrev pub small_posix : Posix ℕ
small_posix = record {
  mutex_init = 0;
  mutex_lock = λ i x. if x == 0 then returned 0 (suc i) else blocked x;
  mutex_trylock = λ i x. if x == 0 then returned 0 (suc i) else returned 16 x;
  mutex_unlock = λ i x. returned 0 0;
  cond_wait = λ i x. returned 0 x;
  cond_timedwait = λ i x. returned 110 x;
  cond_signal = λ i x. returned 0 x;
  cond_broadcast = λ i x. returned 0 x;
}

-- `k` events of one thread, and what follows.
abbrev pub times : {I : Type 0} → ℕ → ℕ → Request → I → List (Event I) → List (Event I)
times zero i q y es = es
times (suc k) i q y es = record { tid = i; request = q; input = y } ∷ times k i q y es

-- The first and the second thread.
abbrev pub owner : ℕ
owner = 0

abbrev pub waiter : ℕ
waiter = 1
