-- ===== src/Protocol/Local.antt =====
-- Invariants of an algorithm that speak of the memory on its own and of each thread's locals on
-- their own.
use shfllock.Base.{ℕ, inl, inr, Bool-cases, List, [], ◌∷◌, ltb, all-assign}
use shfllock.Protocol.Code
use shfllock.Protocol.Code.{
  View, outside, at, inside, dead, Op, lock, trylock, unlock, release, settle, State, move, turn,
  run, after, Event,
}

abbrev pub OnView : {P : Type 0} → (P → Type 0) → View P → Type 0
OnView Q (at p) = Q p
OnView Q v = Unit {0}

-- `J` holds of the memory and `Q` of the locals of every thread that is in a call.
pub record LocalLaws {M P I : Type 0} (c : Code.Code M P I) (J : M → Type 0) (Q : P → Type 0)
    : Type 0 where
  pub lock_ok : Q c.lock_entry
  pub trylock_ok : Q c.trylock_entry
  pub unlock_ok : Q c.unlock_entry
  pub release_ok : Q c.release_entry
  pub settle_ok : (i : ℕ) (x : I) (m : M) → J m → J (c.on_locked i x m)
  pub step_ok :
      (i : ℕ) (x : I) (m : M) (p : P)
      → J m
      → Q p
      → J (c.step i x m p).0 × OnView Q (after (c.step i x m p).1)

module _ {M P I : Type 0} {c : Code.Code M P I} {J : M → Type 0} {Q : P → Type 0}
    (laws : LocalLaws c J Q) where
  move-ok :
      (i : ℕ) (x : I) (o : Op) (m : M) (v : View P)
      → J m
      → OnView Q v
      → J (move c i x o m v).0 × OnView Q (move c i x o m v).1
  unfolding move
  move-ok i x o m (at p) j q = laws.step_ok i x m p j q
  move-ok i x lock m outside j q = (j, laws.lock_ok)
  move-ok i x trylock m outside j q = (j, laws.trylock_ok)
  move-ok i x unlock m inside j q = (j, laws.unlock_ok)
  move-ok i x release m inside j q = (j, laws.release_ok)
  move-ok i x settle m inside j q = (laws.settle_ok i x m j, tt)
  move-ok i x lock m inside j q = (j, q)
  move-ok i x trylock m inside j q = (j, q)
  move-ok i x unlock m outside j q = (j, q)
  move-ok i x release m outside j q = (j, q)
  move-ok i x settle m outside j q = (j, q)
  move-ok i x o m dead j q = (j, q)

  abbrev Holds : State M P → Type 0
  Holds s = J s.mem × ((i : ℕ) → OnView Q (s.view i))

  turn-ok : (n : ℕ) (e : Event I) (s : State M P) → Holds s → Holds (turn c n e s)
  unfolding turn
  turn-ok n e s (j, q) = elim (Bool-cases (ltb e.tid n)) [
    | inr out ↦ rw out (j, q)
    | inl real ↦
        let kept = move-ok e.tid e.input e.op s.mem (s.view e.tid) j (q e.tid) in
        rw real (kept.0, all-assign (OnView Q) s.view e.tid _ q kept.1)
  ]

  -- Every schedule keeps both.
  pub run-ok :
      (n : ℕ) (es : List (Event I)) (s : State M P)
      → J s.mem
      → ((i : ℕ) → OnView Q (s.view i))
      → J (run c n es s).mem × ((i : ℕ) → OnView Q ((run c n es s).view i))
  unfolding run
  run-ok n [] s j q = (j, q)
  run-ok n (e ∷ es) s j q =
      let kept = turn-ok n e s (j, q) in run-ok n es (turn c n e s) kept.0 kept.1
