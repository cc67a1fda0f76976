-- ===== src/Aqs/Pointers.antt =====
-- The pointers that a thread of the ShflLock keeps across steps, and the bytes of the lock word.
use shfllock.Base.{ℕ, ◌≤◌, ◌≢◌, true, false, List, arith}
use shfllock.Protocol.Code.{after}
use shfllock.Protocol.Local.{LocalLaws, OnView}
use shfllock.Protocol.Wrapper
use shfllock.Protocol.Wrapper.{Posix}
use shfllock.Protocol.Refinement.{view_of, wrapped-ok}
use shfllock.Aqs.Memory.{null, AqsMutex, enable_stealing, disable_stealing}
use shfllock.Aqs.Shuffle
use shfllock.Aqs.Shuffle.{Locals}
use shfllock.Aqs.Exclusion.{shuffle_spares}
use shfllock.Aqs.Mutex.{Pc, link, shuffling, step, aqs, create, mutex, resume}

pub record RealLocals (l : Locals) : Type 0 where
  pub node : l.node ≢ null
  pub prev : l.prev ≢ null
  pub last : l.last ≢ null

-- Every pointer that a shuffler reads or writes through is a node.
abbrev pub RealShuffle : Shuffle.Pc → Type 0
RealShuffle (Shuffle.begin node nx) = node ≢ null
RealShuffle (Shuffle.visited l) = RealLocals l
RealShuffle (Shuffle.count l) = RealLocals l
RealShuffle (Shuffle.clear l) = RealLocals l
RealShuffle (Shuffle.random l) = RealLocals l
RealShuffle (Shuffle.pass l) = RealLocals l
RealShuffle (Shuffle.loop l) = RealLocals l
RealShuffle (Shuffle.at_end l curr) = RealLocals l
RealShuffle (Shuffle.compare l curr) = RealLocals l × (curr ≢ null)
RealShuffle (Shuffle.mark l curr) = RealLocals l × (curr ≢ null)
RealShuffle (Shuffle.after_curr l curr) = RealLocals l × (curr ≢ null)
RealShuffle (Shuffle.mark_moved l curr next) = RealLocals l × (curr ≢ null)
RealShuffle (Shuffle.unlink l curr next) = RealLocals l × (curr ≢ null)
RealShuffle (Shuffle.behind_last l curr) = RealLocals l × (curr ≢ null)
RealShuffle (Shuffle.splice l curr behind) = RealLocals l × (curr ≢ null)
RealShuffle (Shuffle.insert l curr) = RealLocals l × (curr ≢ null)
RealShuffle (Shuffle.ready l) = RealLocals l
RealShuffle (Shuffle.status l) = RealLocals l
RealShuffle (Shuffle.out nx sleader qend) = Unit {0}
RealShuffle (Shuffle.out_visited nx sleader qend) = sleader ≢ null

abbrev pub Real : Pc → Type 0
Real (link prev) = prev ≢ null
Real (shuffling p) = RealShuffle p
Real p = Unit {0}

abbrev RealNext : Shuffle.Next → Type 0
RealNext (Shuffle.go p) = RealShuffle p
RealNext (Shuffle.return b) = Unit {0}

shuffle-Real :
    (i : ℕ) (m : AqsMutex) (p : Shuffle.Pc) → RealShuffle p → RealNext (Shuffle.step i m p).1
unfolding Shuffle.step
shuffle-Real i m (Shuffle.begin node nx) r = record { node = r; prev = r; last = r }
shuffle-Real i m p r = ground arith

-- `locked` and `no_stealing` are 0 or 1.
abbrev pub IsWord : AqsMutex → Type 0
IsWord m = (m.locked ≤ 1) × (m.no_stealing ≤ 1)

resume-Real : (x : Shuffle.Next) → RealNext x → OnView Real (after (resume x))
resume-Real (Shuffle.go p) r = r
resume-Real (Shuffle.return true) r = tt
resume-Real (Shuffle.return false) r = tt

module _ (cpus nodes : ℕ) where
  step-Real :
      (i x : ℕ) (m : AqsMutex) (p : Pc)
      → IsWord m
      → Real p
      → IsWord (step cpus nodes i x m p).0 × OnView Real (after (step cpus nodes i x m p).1)
  unfolding step enable_stealing disable_stealing
  step-Real i x m (shuffling p) w r =
      let s = shuffle_spares i m p null in
      ((omega (arith, s.0, w.0), omega (arith, s.1, w.1)), resume-Real _ (shuffle-Real i m p r))
  step-Real i x m p w r = ground arith

  laws : LocalLaws (aqs cpus nodes) IsWord Real
  unfolding aqs
  laws = record {
    lock_ok = tt;
    trylock_ok = tt;
    unlock_ok = tt;
    release_ok = tt;
    settle_ok = λ i x m w. w;
    step_ok = step-Real;
  }

  -- In every run of a ShflLock, whatever the other threads do in between, no pointer that a thread
  -- in `shuffle_waiters` reads or writes through is NULL, nor is the one through which a new waiter
  -- links itself in; and both bytes of the lock word are 0 or 1.
  pub aqs_pointers-Real :
      {X : Type 0} (px : Posix X) (n : ℕ) (es : List (Wrapper.Event ℕ))
      → IsWord (mutex cpus nodes px n es).mem
        × ((i : ℕ) → OnView Real (view_of ((mutex cpus nodes px n es).thread i)))
  unfolding mutex create
  aqs_pointers-Real px n es = wrapped-ok laws px n create (omega arith) es
