-- ===== src/Mcs/Run.antt =====
-- What a lock has whose every step is a move of the MCS queue.
use shfllock.Base.{ℕ, ◌<◌, ◌≡◌, ◌≢◌, refl, sym, subst, true, List, map-assign, all-assign}
use shfllock.Atomic.{locked}
use shfllock.Mcs.Memory.{Ptr, null, node_of, McsMutex}
use shfllock.Mcs.Stage.{Stage, out, holding, waking, Change}
use shfllock.Mcs.Facts.{Inv, served}
use shfllock.Mcs.Invariant.{
  transition-Inv, waking-locked, holding-exclusive, first-served, start-Inv,
}
use shfllock.Protocol.Code.{Code, View, inside, outside, dead, Op, State, Event, move, run, start}
use shfllock.Protocol.Induct.{moved, run-keeps}

-- Every step of `c` is a move of the queue, and no assert fails, where the word of the thread that is
-- to be woken is LOCKED.
abbrev pub Follows : {P I : Type 0} → Code McsMutex P I → (View P → Stage) → Type 0
Follows {P} {I} c stage_of =
    (i : ℕ) (y : I) (m : McsMutex) (o : Op) (v : View P)
    → v ≢ dead
    → ((q : Ptr) → stage_of v ≡ waking q → m.spin q ≡ locked)
    → Change i m (stage_of v) (move c i y o m v).0 (stage_of (move c i y o m v).1)
      × ((move c i y o m v).1 ≢ dead)

pub record Sound {P : Type 0} (stage_of : View P → Stage) (n : ℕ) (s : State McsMutex P)
    : Type 0 where
  pub queue : Inv n s.mem (λ j. stage_of (s.view j))
  pub living : (j : ℕ) → s.view j ≢ dead

module _ {P I : Type 0} (c : Code McsMutex P I) (stage_of : View P → Stage)
    (follows : Follows c stage_of) (n : ℕ) where
  step-Sound :
      (i : ℕ) (y : I) (o : Op) (s : State McsMutex P)
      → i < n
      → Sound stage_of n s
      → Sound stage_of n (moved c i y o s)
  step-Sound i y o s low v =
      let (change, alive) =
        follows i y s.mem o (s.view i) (v.living i) (λ q e. waking-locked v.queue i low e) in
      record {
        queue =
            subst (Inv n (moved c i y o s).mem)
              (sym (map-assign stage_of s.view i (move c i y o s.mem (s.view i)).1))
              (transition-Inv v.queue i low refl change);
        living = all-assign (λ x. x ≢ dead) s.view i _ v.living alive;
      }

  pub run-Sound :
      (m : McsMutex)
      → m.tail ≡ null
      → stage_of outside ≡ out
      → (es : List (Event I)) → Sound stage_of n (run c n es (start m))
  run-Sound m t o es =
      run-keeps c n (Sound stage_of n) step-Sound es (start m)
        (record { queue = start-Inv n m _ t (λ j. o); living = λ j e. cc })

module _ {P : Type 0} {stage_of : View P → Stage} {n : ℕ} {s : State McsMutex P}
    (v : Sound stage_of n s) where
  pub sound-exclusive :
      stage_of inside ≡ holding
      → (i j : ℕ) → i < n
      → j < n
      → s.view i ≡ inside
      → s.view j ≡ inside
      → i ≡ j
  sound-exclusive h i j hi hj ei ej = holding-exclusive v.queue i j hi hj (cc (h, ei)) (cc (h, ej))

  pub sound-served :
      s.mem.tail ≢ null
      → (k : ℕ) × (k < n) × (served (s.mem.spin (node_of k)) (stage_of (s.view k)) ≡ true)
  sound-served = first-served v.queue
