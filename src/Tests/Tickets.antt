-- ===== src/Tests/Tickets.antt =====
-- The ticket lock and the reader-writer lock, with two threads.
use shfllock.Base.{ℕ, zero, suc, true, false, ◌+◌, ◌*◌, ◌≤◌, ◌≡◌, refl, List, [], ◌∷◌, arith, tally}
use shfllock.Protocol.Code
use shfllock.Protocol.Code.{inside, at, start}
use shfllock.Protocol.Wrapper
use shfllock.Protocol.Wrapper.{lock, unlock}
use shfllock.Protocol.Refinement.{view_of}
use shfllock.Ticket.Mutex.{ThreadInfo, mutex, spin, ticket, create}
use shfllock.Ticket.Dispenser.{ahead}
use shfllock.Ticket.Exclusion.{ticket_exclusive}
use shfllock.Ticket.Fairness.{ticket_no_overtaking}
use shfllock.Ttasrw.RwLock
use shfllock.Ttasrw.RwLock.{Thread, Op, Event, State}
use shfllock.Ttasrw.Exclusion.{reads, writes, rwlock_exclusive, rwlock_counts}
use shfllock.Ttasrw.Overflow.{thrice}
use shfllock.Ttasrw.RwLock.{max_rw, w_mask}
use shfllock.Tests.Machine.{small_posix, times, owner}

abbrev fresh_info : ℕ → ThreadInfo
fresh_info i = record { fresh = true; banned = false; banned_until = 0; start_ticks = 0 }

-- Thread 0 holds ticket 0, thread 1 waits with ticket 1.
abbrev contended : List (Wrapper.Event ℕ)
contended = times 8 0 lock 5 (times 5 1 lock 6 [])

ticket_scene : view_of ((mutex fresh_info 1 small_posix 2 contended).thread 0) ≡ inside
unfolding mutex
ticket_scene = refl

ticket_waits : view_of ((mutex fresh_info 1 small_posix 2 contended).thread 1) ≡ at (spin 1)
unfolding mutex
ticket_waits = refl

ticket_exclusive_example : owner ≡ owner
ticket_exclusive_example =
    ticket_exclusive fresh_info 1 small_posix 2 (omega arith) contended 0 0 (omega arith)
      (omega arith) ticket_scene ticket_scene

-- Thread 0 gives the lock back while thread 1 spins.
abbrev spinning : List (Code.Event ℕ)
spinning =
    let e : ℕ → Code.Op → Code.Event ℕ = λ i o. record { tid = i; op = o; input = 9 } in
    e 0 Code.lock
    ∷ e 0 Code.lock
    ∷ e 0 Code.lock
    ∷ e 0 Code.lock
    ∷ e 0 Code.lock
    ∷ e 1 Code.lock
    ∷ e 1 Code.lock
    ∷ e 1 Code.lock
    ∷ e 1 Code.lock
    ∷ e 0 Code.unlock
    ∷ e 0 Code.unlock
    ∷ e 0 Code.unlock
    ∷ []

abbrev giving_back : Code.Event ℕ
giving_back = record { tid = 0; op = Code.unlock; input = 9 }

spins : (Code.run ticket 2 spinning (start (create fresh_info 1))).view 1 ≡ at (spin 1)
unfolding ticket Code.run
spins = refl

ticket_no_overtaking_example :
    ahead
      (Code.turn ticket 2 giving_back
        (Code.run ticket 2 spinning (start (create fresh_info 1)))).mem.grant
      1
    ≤ ahead (Code.run ticket 2 spinning (start (create fresh_info 1))).mem.grant 1
ticket_no_overtaking_example =
    ticket_no_overtaking fresh_info 1 2 (omega arith) spinning giving_back 1 1 (omega arith) spins

-- Thread 0 writes; thread 1 wants to read.
abbrev writer : List Event
writer = thrice 0 Op.wrlock (thrice 1 Op.rdlock [])

writer_scene : writes ((RwLock.run 2 writer RwLock.create).thread 0) ≡ 1
unfolding RwLock.run
writer_scene = refl

rwlock_exclusive_example :
    (writes ((RwLock.run 2 writer RwLock.create).thread 1) ≡ 0)
    × (reads ((RwLock.run 2 writer RwLock.create).thread 1) ≡ 0)
rwlock_exclusive_example =
    rwlock_exclusive 2 (omega arith) writer 0 1 (omega arith) (omega arith) writer_scene
      (omega arith)

rwlock_counts_example :
    (RwLock.run 2 writer RwLock.create).mem.lock_data
    ≡ tally reads 2 (RwLock.run 2 writer RwLock.create).thread
      + w_mask * tally writes 2 (RwLock.run 2 writer RwLock.create).thread
rwlock_counts_example = rwlock_counts 2 (omega arith) writer

-- Threads 3 and on take the lock for reading.
abbrev entering : ℕ → List Event → List Event
entering zero es = es
entering (suc k) es = thrice (k + 3) Op.rdlock (entering k es)

-- 255 readers, and threads 0 and 2 outside.
abbrev crowd : State
crowd = RwLock.run 257 (thrice 1 Op.rdlock (entering 254 [])) RwLock.create

abbrev rush : List Event
rush = thrice 0 Op.rdlock (thrice 1 Op.unlock (thrice 2 Op.wrlock []))
