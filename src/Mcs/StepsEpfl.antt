-- ===== src/Mcs/StepsEpfl.antt =====
-- Every step of mcsepfl.c is a move of the MCS queue.
use shfllock.Base.{ℕ, ◌≢◌, subst, Bool-cases, inl, inr, arith, ◌==◌}
use shfllock.Atomic.{unlocked}
use shfllock.Mcs.Memory.{null, node_of, McsMutex}
use shfllock.Mcs.Stage.{
  Stage, out, ready, arriving, linking, waiting, holding, waking, Change, rest, clear, abandon,
  take, queue, arm_late, acquire, peek, depart, wake, link,
}
use shfllock.Mcs.Steps.{set_spin-same}
use shfllock.Mcs.Run.{Follows}
use shfllock.Mcs.MutexEpfl
use shfllock.Mcs.MutexEpfl.{
  Pc, step, prepare, swap_tail, lock_spin, spin, try_prepare, try_swap, has_next, clear_tail,
  wait_next, mcsepfl,
}
use shfllock.Protocol.Cases.{move-cases}
use shfllock.Protocol.Code.{View, outside, at, inside, dead, after}

-- The stage of a thread of mcsepfl.c.
abbrev pub epfl_stage_of : View Pc → Stage
epfl_stage_of outside = out
epfl_stage_of (at prepare) = out
epfl_stage_of (at swap_tail) = ready
epfl_stage_of (at (lock_spin t)) = arriving t
epfl_stage_of (at (MutexEpfl.link t)) = linking t
epfl_stage_of (at spin) = waiting
epfl_stage_of (at try_prepare) = out
epfl_stage_of (at try_swap) = ready
epfl_stage_of (at has_next) = holding
epfl_stage_of (at clear_tail) = holding
epfl_stage_of (at wait_next) = holding
epfl_stage_of (at (MutexEpfl.wake q)) = waking q
epfl_stage_of inside = holding
epfl_stage_of dead = out

module _ (i : ℕ) (y : Unit {0}) (m : McsMutex) where
  abbrev Moves : View Pc → McsMutex × View Pc → Type 0
  Moves v r = Change i m (epfl_stage_of v) r.0 (epfl_stage_of r.1) × (r.1 ≢ dead)

  step-Moves : (p : Pc) → Moves (at p) ((step i y m p).0, after (step i y m p).1)
  unfolding step
  step-Moves prepare = (clear, λ e. cc)
  step-Moves swap_tail = elim (Bool-cases (m.tail == null)) [
    | inl free ↦ rw free (take (ground arith), λ e. cc)
    | inr used ↦ rw used (queue (ground arith), λ e. cc)
  ]
  step-Moves (lock_spin t) = (arm_late, λ e. cc)
  step-Moves (MutexEpfl.link t) = (link, λ e. cc)
  step-Moves spin = elim (Bool-cases (m.spin (node_of i) == unlocked)) [
    | inr stay ↦ rw stay (rest, λ e. cc)
    | inl free ↦ rw free (
      subst (λ z. Change i m waiting z holding) (set_spin-same m (node_of i))
          (acquire (m.spin (node_of i)) (ground arith)),
      λ e. cc,
    )
  ]
  step-Moves try_prepare = (clear, λ e. cc)
  step-Moves try_swap = elim (Bool-cases (m.tail == null)) [
    | inl free ↦ rw free (take (ground arith), λ e. cc)
    | inr used ↦ rw used (abandon, λ e. cc)
  ]
  step-Moves has_next = elim (Bool-cases (m.next (node_of i) == null)) [
    | inl alone ↦ rw alone (rest, λ e. cc)
    | inr behind ↦ rw behind (peek (ground arith), λ e. cc)
  ]
  step-Moves clear_tail = elim (Bool-cases (m.tail == node_of i)) [
    | inl last ↦ rw last (depart (ground arith), λ e. cc)
    | inr other ↦ rw other (rest, λ e. cc)
  ]
  step-Moves wait_next = elim (Bool-cases (m.next (node_of i) == null)) [
    | inl alone ↦ rw alone (rest, λ e. cc)
    | inr behind ↦ rw behind (peek (ground arith), λ e. cc)
  ]
  step-Moves (MutexEpfl.wake q) = (wake, λ e. cc)

pub mcsepfl-Follows : Follows mcsepfl epfl_stage_of
unfolding mcsepfl
mcsepfl-Follows i y m o v l k =
    move-cases mcsepfl i y m (λ v r. v ≢ dead → Moves i y m v r) (λ p l. step-Moves i y m p)
      (λ l. (rest, λ e. cc)) (λ l. (rest, λ e. cc)) (λ l. (rest, λ e. cc)) (λ l. (rest, λ e. cc))
      (λ l. (rest, l)) (λ v l. (rest, l)) o v l
