-- ===== src/Interpose/Leave.antt =====
-- A thread that is in the lock's own unlock does not come back as the holder.
use shfllock.Base.{ℕ, ◌≡◌, true, arith, ltb, ◌==◌}
use shfllock.Protocol.Code.{Code, Next, go}
use shfllock.Protocol.Wrapper
use shfllock.Protocol.Wrapper.{
  Posix, Thread, idle, call, critical, posix_unlock, failed, crashed, unlocking, step, turn, resume,
}
use shfllock.Interpose.Calls.{Op, unlock, request_of}
use shfllock.Interpose.Faithful.{Leaving, unlocks}

-- Behind a step of that: it has left, or goes on.
abbrev pub Left : {P : Type 0} → Thread P → Type 0
Left (critical r) = ⊥
Left (idle r) = Unit {0}
Left t = Leaving t

module _ {M P I X : Type 0} (c : Code M P I) (px : Posix X) where
  resume-Left : (x : Next P) → Left (resume unlocking x)
  resume-Left (go p) = tt
  resume-Left x = ground arith

  step-Left :
      (i : ℕ) (y : I) (m : M) (x : X) (t : Thread P)
      → Leaving t
      → Left (step c px i y Wrapper.unlock m x t).thread
  unfolding step
  step-Left i y m x (call unlocking p) f = resume-Left (c.step i y m p).1
  step-Left i y m x t f = ground arith

  pub turn-Left :
      (n i : ℕ) (y : I) (op : Op) (s : Wrapper.State M P X)
      → ltb i n ≡ true
      → unlocks op ≡ true
      → Leaving (s.thread i)
      → Left ((turn c px n (record { tid = i; request = request_of op; input = y }) s).thread i)
  unfolding turn
  turn-Left n i y unlock s real u f =
      let own : (i == i) ≡ true = ground arith in
      rw (real, own) (step-Left i y s.mem s.posix (s.thread i) f)
  turn-Left n i y op s real u f = cc
