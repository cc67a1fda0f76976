-- ===== src/Clh/StepsEpfl.antt =====
-- Every step of clhepfl.c is a move of the CLH queue.
use shfllock.Base.{ℕ, ◌≢◌, subst, inl, inr, Bool-cases, arith, ◌==◌}
use shfllock.Atomic.{locked}
use shfllock.Clh.Memory.{Ptr, null, ClhMutex}
use shfllock.Clh.Stage.{
  Stage, out, armed, waiting, leading, crowned, holding, waking, Change, rest, arm, queue, acquire,
  crown, inherit, see, wake,
}
use shfllock.Clh.Run.{Follows}
use shfllock.Clh.Steps.{set_spin-same}
use shfllock.Clh.MutexEpfl
use shfllock.Clh.MutexEpfl.{
  Pc, lock_spin, swap_tail, spin, store_head, take_node, try_assert, read_head, step, clhepfl,
}
use shfllock.Protocol.Cases.{move-cases}
use shfllock.Protocol.Code.{View, outside, at, inside, dead, after}

-- The stage of a thread of clhepfl.c.
abbrev pub epfl_stage_of : View Pc → Stage
epfl_stage_of outside = out
epfl_stage_of (at lock_spin) = out
epfl_stage_of (at swap_tail) = armed
epfl_stage_of (at (spin q)) = waiting q
epfl_stage_of (at (store_head q)) = leading q
epfl_stage_of (at (take_node q)) = crowned q
epfl_stage_of (at try_assert) = out
epfl_stage_of (at read_head) = holding
epfl_stage_of (at (MutexEpfl.wake h)) = waking h
epfl_stage_of inside = holding
epfl_stage_of dead = out

module _ (i : ℕ) (y : Unit {0}) (m : ClhMutex) where
  abbrev Moves : View Pc → ClhMutex × View Pc → Type 0
  Moves v r = Change i m (epfl_stage_of v) r.0 (epfl_stage_of r.1)

  -- A look at the word writes nothing.
  seen : (q : Ptr) → m.spin q ≢ locked → Change i m (waiting q) m (leading q)
  seen q free =
      subst (λ x. Change i m (waiting q) x (leading q)) (set_spin-same m q)
        (acquire (m.spin q) free)

  step-Moves : (p : Pc) → m.tail ≢ null → Moves (at p) ((step i y m p).0, after (step i y m p).1)
  unfolding step
  step-Moves lock_spin t = arm
  step-Moves swap_tail t = elim (Bool-cases (m.tail == null)) [
    | inl empty ↦ absurd (t (ground arith))
    | inr used ↦ rw used queue
  ]
  step-Moves (spin q) t = elim (Bool-cases (m.spin q == locked)) [
    | inl shut ↦ rw shut rest
    | inr free ↦ rw free (seen q (ground arith))
  ]
  step-Moves (store_head q) t = crown
  step-Moves (take_node q) t = inherit
  step-Moves try_assert t = rest
  step-Moves read_head t = see
  step-Moves (MutexEpfl.wake h) t = wake

pub clhepfl-Follows : Follows clhepfl epfl_stage_of
unfolding clhepfl
clhepfl-Follows i y m o v t k =
    move-cases clhepfl i y m (Moves i y m) (λ p. step-Moves i y m p t) rest rest rest rest rest
      (λ v. rest) o v
