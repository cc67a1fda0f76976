-- ===== src/Mcs/Steps.antt =====
-- Every step of mcs.c is a move of the MCS queue.
use shfllock.Base.{
  ℕ, ◌≡◌, ◌≢◌, refl, sym, ap, ◌∙◌, subst, fun_ext, Bool, true, Bool-cases, inl, inr, Option, none,
  some, arith, ◌==◌, if◌then◌else◌,
}
use shfllock.Atomic.{locked, unlocked}
use shfllock.Waiting.{
  Policy, Futex, sleep_step, wake_step, sleep_step-wait, sleep_step-return, wake_step-locked,
}
use shfllock.Waiting
use shfllock.Mcs.Memory.{Ptr, null, node_of, McsMutex, set_spin}
use shfllock.Mcs.Stage.{
  Stage, out, armed, linking, waiting, holding, sure, waking, Change, rest, arm, abandon_armed,
  take_armed, queue_armed, acquire, see, pick, depart, wake, link,
}
use shfllock.Mcs.Run.{Follows}
use shfllock.Mcs.Mutex
use shfllock.Mcs.Mutex.{
  Pc, prepare, swap_tail, sleep, try_prepare, try_swap, has_next, clear_tail, wait_next, read_next,
  step, mcs, slept,
}
use shfllock.Protocol.Cases.{move-cases}
use shfllock.Protocol.Code.{Next, released, aborted, View, outside, at, inside, dead, after}

-- The stage of a thread of mcs.c.
abbrev pub stage_of : View Pc → Stage
stage_of outside = out
stage_of (at prepare) = out
stage_of (at swap_tail) = armed
stage_of (at (Mutex.link t)) = linking t
stage_of (at (sleep p)) = waiting
stage_of (at try_prepare) = out
stage_of (at try_swap) = armed
stage_of (at has_next) = holding
stage_of (at clear_tail) = holding
stage_of (at wait_next) = holding
stage_of (at read_next) = sure
stage_of (at (Mutex.wake q)) = waking q
stage_of inside = holding
stage_of dead = out

pub set_spin-same : (m : McsMutex) (p : Ptr) → set_spin m p (m.spin p) ≡ m
set_spin-same m p = subst (λ f. record m { spin = f } ≡ m) (fun_ext (λ q. ground arith)) refl

module _ (w : Policy) (i : ℕ) (y : Futex) (m : McsMutex) where
  abbrev Moves : View Pc → McsMutex × View Pc → Type 0
  Moves v r = Change i m (stage_of v) r.0 (stage_of r.1) × (r.1 ≢ dead)

  sleep-Moves :
      (p : Waiting.Pc)
      → Moves (at (sleep p)) ((step w i y m (sleep p)).0, after (step w i y m (sleep p)).1)
  unfolding step
  sleep-Moves p = go (sleep_step y (m.spin (node_of i)) p) refl
    where
      go :
          (r : ℕ × Option Waiting.Pc)
          → sleep_step y (m.spin (node_of i)) p ≡ r
          → Moves (at (sleep p)) (set_spin m (node_of i) r.0, after (slept r.1))
      go (u, none) e = (acquire u (sleep_step-return y _ p (ap (λ r. r.1) e)), λ x. cc)
      go (u, some q) e =
          let same : u ≡ m.spin (node_of i) =
            sym (ap (λ r. r.0) e) ∙ sleep_step-wait y _ p q (ap (λ r. r.1) e) in
          rw (same, set_spin-same m (node_of i)) (rest, λ x. cc)

  abbrev ending : Bool → Next Pc
  ending b = if b then released else aborted

  woken :
      (q : Ptr) (r : ℕ × Bool)
      → r.0 ≡ unlocked
      → r.1 ≡ true
      → Moves (at (Mutex.wake q)) (set_spin m q r.0, after (ending r.1))
  woken q (u, b) eu eb = rw (eu, eb) (wake, λ e. cc)

  step-Moves :
      (p : Pc)
      → ((q : Ptr) → stage_of (at p) ≡ waking q → m.spin q ≡ locked)
      → Moves (at p) ((step w i y m p).0, after (step w i y m p).1)
  unfolding step
  step-Moves prepare k = (arm, λ e. cc)
  step-Moves swap_tail k = elim (Bool-cases (m.tail == null)) [
    | inl free ↦ rw free (take_armed (ground arith), λ e. cc)
    | inr used ↦ rw used (queue_armed (ground arith), λ e. cc)
  ]
  step-Moves (Mutex.link t) k = (link, λ e. cc)
  step-Moves (sleep p) k = sleep-Moves p
  step-Moves try_prepare k = (arm, λ e. cc)
  step-Moves try_swap k = elim (Bool-cases (m.tail == null)) [
    | inl free ↦ rw free (take_armed (ground arith), λ e. cc)
    | inr used ↦ rw used (abandon_armed, λ e. cc)
  ]
  step-Moves has_next k = elim (Bool-cases (m.next (node_of i) == null)) [
    | inl alone ↦ rw alone (rest, λ e. cc)
    | inr behind ↦ rw behind (see (ground arith), λ e. cc)
  ]
  step-Moves clear_tail k = elim (Bool-cases (m.tail == node_of i)) [
    | inl last ↦ rw last (depart (ground arith), λ e. cc)
    | inr other ↦ rw other (rest, λ e. cc)
  ]
  step-Moves wait_next k = elim (Bool-cases (m.next (node_of i) == null)) [
    | inl alone ↦ rw alone (rest, λ e. cc)
    | inr behind ↦ rw behind (see (ground arith), λ e. cc)
  ]
  step-Moves read_next k = (pick, λ e. cc)
  step-Moves (Mutex.wake q) k =
      let ok = wake_step-locked w in rw (k q refl) (woken q (wake_step w locked) ok.0 ok.1)

pub mcs-Follows : (w : Policy) → Follows (mcs w) stage_of
unfolding mcs
mcs-Follows w i y m o v =
    move-cases (mcs w) i y m
      (λ v r.
        v ≢ dead → ((q : Ptr) → stage_of v ≡ waking q → m.spin q ≡ locked) → Moves w i y m v r)
      (λ p l k. step-Moves w i y m p k) (λ l k. (rest, λ e. cc)) (λ l k. (rest, λ e. cc))
      (λ l k. (rest, λ e. cc)) (λ l k. (rest, λ e. cc)) (λ l k. (rest, l)) (λ v l k. (rest, l)) o v
