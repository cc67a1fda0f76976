-- ===== src/Clh/Steps.antt =====
-- Every step of clh.c is a move of the CLH queue.
use shfllock.Base.{
  ℕ, ◌≡◌, refl, sym, ap, ◌∙◌, subst, fun_ext, Bool, true, Option, none, some, arith, if◌then◌else◌,
}
use shfllock.Atomic.{locked, unlocked}
use shfllock.Waiting.{
  Policy, Futex, sleep_step, wake_step, sleep_step-wait, sleep_step-return, wake_step-locked,
}
use shfllock.Waiting
use shfllock.Clh.Memory.{Ptr, ClhMutex, set_spin}
use shfllock.Clh.Stage.{
  Stage, out, armed, waiting, leading, crowned, holding, waking, Change, rest, arm, queue, acquire,
  crown, inherit, see, wake,
}
use shfllock.Clh.Run.{Follows}
use shfllock.Clh.Mutex
use shfllock.Clh.Mutex.{
  Pc, lock_spin, swap_tail, sleep, store_head, take_node, try_assert, read_head, step, clh, slept,
}
use shfllock.Protocol.Cases.{move-cases}
use shfllock.Protocol.Code.{Next, released, aborted, View, outside, at, inside, dead, after}

-- The stage of a thread of clh.c.
abbrev pub stage_of : View Pc → Stage
stage_of outside = out
stage_of (at lock_spin) = out
stage_of (at swap_tail) = armed
stage_of (at (sleep q p)) = waiting q
stage_of (at (store_head q)) = leading q
stage_of (at (take_node q)) = crowned q
stage_of (at try_assert) = out
stage_of (at read_head) = holding
stage_of (at (Mutex.wake h)) = waking h
stage_of inside = holding
stage_of dead = out

pub set_spin-same : (m : ClhMutex) (p : Ptr) → set_spin m p (m.spin p) ≡ m
set_spin-same m p = subst (λ f. record m { spin = f } ≡ m) (fun_ext (λ q. ground arith)) refl

module _ (w : Policy) (i : ℕ) (y : Futex) (m : ClhMutex) where
  abbrev Moves : View Pc → ClhMutex × View Pc → Type 0
  Moves v r = Change i m (stage_of v) r.0 (stage_of r.1)

  sleep-Moves :
      (q : Ptr) (p : Waiting.Pc)
      → Moves (at (sleep q p)) ((step w i y m (sleep q p)).0, after (step w i y m (sleep q p)).1)
  unfolding step
  sleep-Moves q p = go (sleep_step y (m.spin q) p) refl
    where
      go :
          (r : ℕ × Option Waiting.Pc)
          → sleep_step y (m.spin q) p ≡ r
          → Moves (at (sleep q p)) (set_spin m q r.0, after (slept q r.1))
      go (u, none) e = acquire u (sleep_step-return y _ p (ap (λ r. r.1) e))
      go (u, some p') e =
          let same : u ≡ m.spin q =
            sym (ap (λ r. r.0) e) ∙ sleep_step-wait y _ p p' (ap (λ r. r.1) e) in
          rw (same, set_spin-same m q) rest

  abbrev ending : Bool → Next Pc
  ending b = if b then released else aborted

  woken :
      (h : Ptr) (r : ℕ × Bool)
      → r.0 ≡ unlocked
      → r.1 ≡ true
      → Moves (at (Mutex.wake h)) (set_spin m h r.0, after (ending r.1))
  woken h (u, b) eu eb = rw (eu, eb) wake

  step-Moves :
      (p : Pc)
      → ((h : Ptr) → stage_of (at p) ≡ waking h → m.spin h ≡ locked)
      → Moves (at p) ((step w i y m p).0, after (step w i y m p).1)
  unfolding step
  step-Moves lock_spin k = arm
  step-Moves swap_tail k = queue
  step-Moves (sleep q p) k = sleep-Moves q p
  step-Moves (store_head q) k = crown
  step-Moves (take_node q) k = inherit
  step-Moves try_assert k = rest
  step-Moves read_head k = see
  step-Moves (Mutex.wake h) k =
      let ok = wake_step-locked w in rw (k h refl) (woken h (wake_step w locked) ok.0 ok.1)

pub clh-Follows : (w : Policy) → Follows (clh w) stage_of
unfolding clh
clh-Follows w i y m o v t =
    move-cases (clh w) i y m
      (λ v r.
        ((h : Ptr) → stage_of v ≡ waking h → m.spin h ≡ locked)
        → Change i m (stage_of v) r.0 (stage_of r.1))
      (step-Moves w i y m) (λ k. rest) (λ k. rest) (λ k. rest) (λ k. rest) (λ k. rest) (λ v k. rest)
      o v
