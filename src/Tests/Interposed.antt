-- ===== src/Tests/Interposed.antt =====
-- Calls of the interposed functions on the non-blocking ShflLock, with a table that is a function.
use shfllock.Base.{
  ℕ, zero, suc, ◌<◌, ◌≡◌, ◌↔◌, ◌≢◌, ◌⊎◌, refl, true, false, List, [], ◌∷◌, arith, ◌==◌,
  if◌then◌else◌, assign,
}
use shfllock.Protocol.Wrapper
use shfllock.Interpose.Table.{Ptr, null, Table, TableLaws}
use shfllock.Interpose.Calls.{
  init, lock, returned, Request, call, destroy, none, Event, calling, State, run, start,
}
use shfllock.Interpose.Faithful.{Stand}
use shfllock.Interpose.Steps.{undestroyed}
use shfllock.Interpose.Exclusion.{interposed_exclusive, interposed_lookup, interposed_held}
use shfllock.Protocol.Code.{inside}
use shfllock.Protocol.Refinement.{view_of}
use shfllock.Aqs.Memory.{AqsMutex}
use shfllock.Aqs.Mutex.{aqs, create, mutex, Pc}
use shfllock.Aqs.Exclusion.{aqs_exclusive}
use shfllock.Tests.Machine.{small_posix, owner}

abbrev function_table : Table (ℕ → Ptr)
function_table = record {
  clht_create = λ k. null;
  clht_get = λ t k. t k;
  clht_put = λ t k p. if t k == null then (assign t k p, true) else (t, false);
  clht_remove = λ t k. (assign t k null, t k);
}

function_table_laws : TableLaws function_table
function_table_laws = record {
  get-create = λ k. refl;
  put-new = λ t k p e. ground arith;
  put-old = λ t k p e. ground arith;
  put-other = λ t k j p e. ground arith;
}

-- `k` events of one thread.
abbrev steps : ℕ → ℕ → Request → List (Event ℕ) → List (Event ℕ)
steps zero i q es = es
steps (suc k) i q es = record { tid = i; request = q; input = 0 } ∷ steps k i q es

-- Threads 0 and 1 find no lock for the mutex at 70, and both make one; thread 0 publishes its own.
abbrev race : List (Event ℕ)
race = steps 3 0 (call lock 70) (steps 3 1 (call lock 70) (steps 1 0 none (steps 2 1 none [])))

abbrev fresh : State (ℕ → Ptr) AqsMutex Pc ℕ
fresh = start function_table (aqs 8 2) small_posix 2 create

race_kept : undestroyed race ≡ true
unfolding undestroyed
race_kept = refl

race_first :
    (run function_table (aqs 8 2) small_posix 2 create race fresh).stage 0 ≡ calling lock 70 1
unfolding run create aqs
race_first = refl

race_second :
    (run function_table (aqs 8 2) small_posix 2 create race fresh).stage 1 ≡ calling lock 70 1
unfolding run create aqs
race_second = refl

-- The mutex, and the lock that stands behind it.
abbrev cell : ℕ
cell = 70

abbrev first_lock : Ptr
first_lock = 1

interposed_lookup_example : (cell ≡ cell) ↔ (first_lock ≡ first_lock)
interposed_lookup_example =
    interposed_lookup function_table_laws (aqs 8 2) small_posix 2 create race race_kept 0 1 lock
      lock 70 70 1 1 race_first race_second

-- Thread 0 takes the lock after that.
abbrev race_won : List (Event ℕ)
race_won =
    steps 3 0 (call lock 70)
      (steps 3 1 (call lock 70) (steps 1 0 none (steps 2 1 none (steps 6 0 none []))))

race_won_kept : undestroyed race_won ≡ true
unfolding undestroyed
race_won_kept = refl

race_held : (run function_table (aqs 8 2) small_posix 2 create race_won fresh).held 0 70 ≡ true
unfolding run create aqs Wrapper.turn
race_held = refl

aqs_safe :
    (fs : List (Wrapper.Event ℕ)) (i j : ℕ)
    → i < 2
    → j < 2
    → view_of ((Wrapper.run (aqs 8 2) small_posix 2 fs (Wrapper.start create small_posix)).thread i)
      ≡ inside
    → view_of ((Wrapper.run (aqs 8 2) small_posix 2 fs (Wrapper.start create small_posix)).thread j)
      ≡ inside
    → i ≡ j
unfolding mutex
aqs_safe = aqs_exclusive 8 2 small_posix 2

interposed_exclusive_example : owner ≡ owner
interposed_exclusive_example =
    interposed_exclusive function_table_laws (aqs 8 2) small_posix 2 create race_won race_won_kept
      aqs_safe 0 0 70 (omega arith) (omega arith) race_held race_held

abbrev won : State (ℕ → Ptr) AqsMutex Pc ℕ
won = run function_table (aqs 8 2) small_posix 2 create race_won fresh

race_done : won.stage owner ≡ returned 0
unfolding run create aqs Wrapper.turn
race_done = refl

interposed_held_example :
    ((won.held owner cell ≡ true)
      × (won.table cell ≢ null)
      × Stand true ((won.heap (won.table cell)).thread owner))
    ⊎ ((won.held owner cell ≡ false)
        × ((won.table cell ≡ null) ⊎ Stand false ((won.heap (won.table cell)).thread owner)))
interposed_held_example =
    interposed_held function_table_laws (aqs 8 2) small_posix 2 create race_won race_won_kept owner
      0 cell race_done

-- The memory of a mutex is used for another one, behind `pthread_mutex_destroy`: it gets a new lock.
abbrev reused : List (Event ℕ)
reused = steps 3 0 (call init 70) (steps 2 0 (destroy 70) (steps 4 0 (call lock 70) []))

reused_lock : (run function_table (aqs 8 2) small_posix 2 create reused fresh).table 70 ≡ 2
unfolding run
reused_lock = refl
