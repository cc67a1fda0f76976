-- ===== src/Protocol/Refinement.antt =====
-- The wrapped lock runs the algorithm of `Protocol.Code`: each of its steps is one step of that,
-- with the POSIX calls left out.
use shfllock.Base.{
  ℕ, length, suc, ◌≡◌, refl, sym, ap, subst, ◌∙◌, inl, inr, Bool, true, false, Bool-cases, List, [],
  ◌∷◌, arith, ltb, ◌==◌, if◌then◌else◌, map-assign, ◌<◌, ◌≢◌,
}
use shfllock.Protocol.Code
use shfllock.Protocol.Code.{
  Next, go, acquired, busy, released, aborted, View, outside, at, inside, dead, Op, settle, release,
}
use shfllock.Protocol.Wrapper
use shfllock.Protocol.Wrapper.{
  Call, returned, blocked, Posix, Frame, locking, trying, unlocking, releasing, relocking, Thread,
  idle, call, posix_lock, posix_trylock, locked_exit, critical, posix_unlock, waiting, wait_unlock,
  failed, crashed, Request, lock, trylock, unlock, none, wait, Event, Result, step, turn, run,
  resume,
}
use shfllock.Protocol.Local.{LocalLaws, OnView, run-ok}
use shfllock.Protocol.Word.{WordLaws, exclusive, never_dead}

-- Where the algorithm sees a thread of the wrapped lock.
abbrev pub view_of : {P : Type 0} → Thread P → View P
view_of (idle r) = outside
view_of (call f p) = at p
view_of (posix_lock r) = inside
view_of posix_trylock = inside
view_of (locked_exit r) = inside
view_of (critical r) = inside
view_of posix_unlock = inside
view_of (waiting b) = outside
view_of (wait_unlock r) = outside
view_of (failed true) = inside
view_of (failed false) = outside
view_of crashed = dead

abbrev succeeded : {X : Type 0} → Call X → Bool
succeeded (returned r x) = r == 0
succeeded (blocked x) = false

abbrev pub project : {M P X : Type 0} → Wrapper.State M P X → Code.State M P
project s = record { mem = s.mem; view = λ j. view_of (s.thread j) }

module _ {M P I X : Type 0} (c : Code.Code M P I) (px : Posix X) where
  -- What the algorithm's client does in a step of the wrapped lock. `Op.lock` inside and `settle`
  -- outside do nothing.
  shadow : ℕ → Request → X → Thread P → Op
  shadow i lock x (idle r) = Op.lock
  shadow i trylock x (idle r) = Op.trylock
  shadow i (wait b) x (critical r) = release
  shadow i q x (locked_exit r) = settle
  shadow i q x posix_unlock = if succeeded (px.mutex_unlock i x) then Op.unlock else Op.lock
  shadow i q x (wait_unlock r) = if succeeded (px.mutex_unlock i x) then Op.lock else settle
  shadow i q x (posix_lock r) = Op.lock
  shadow i q x posix_trylock = Op.lock
  shadow i q x (failed true) = Op.lock
  shadow i q x (critical r) = Op.lock
  shadow i q x t = settle

  abbrev Agrees : M × View P → Result M P X → Type 0
  Agrees a r = (a.0 ≡ r.mem) × (a.1 ≡ view_of r.thread)

  resume-after : (f : Frame) (x : Next P) → Code.after x ≡ view_of (resume f x)
  resume-after locking x = ground arith
  resume-after f x = ground arith

  step-Agrees :
      (i : ℕ) (y : I) (q : Request) (m : M) (x : X) (t : Thread P)
      → Agrees (Code.move c i y (shadow i q x t) m (view_of t)) (step c px i y q m x t)
  unfolding step shadow Code.move
  step-Agrees i y q m x (call f p) = (refl, resume-after f _)
  step-Agrees i y lock m x (idle r) = (refl, refl)
  step-Agrees i y q m x t = ground arith

  shadow_event : Event I → Wrapper.State M P X → Code.Event I
  shadow_event e s = record {
    tid = e.tid;
    op = shadow e.tid e.request s.posix (s.thread e.tid);
    input = e.input;
  }

  -- The schedule of the algorithm's clients that a schedule of the wrapped lock amounts to.
  pub shadows : ℕ → List (Event I) → Wrapper.State M P X → List (Code.Event I)
  shadows n [] s = []
  shadows n (e ∷ es) s = shadow_event e s ∷ shadows n es (turn c px n e s)

  pub length-shadows :
      (n : ℕ) (es : List (Event I)) (s : Wrapper.State M P X) → length (shadows n es s) ≡ length es
  unfolding shadows length
  length-shadows n [] s = refl
  length-shadows n (e ∷ es) s = ap suc (length-shadows n es (turn c px n e s))

  turn-project :
      (n : ℕ) (e : Event I) (s : Wrapper.State M P X)
      → project (turn c px n e s) ≡ Code.turn c n (shadow_event e s) (project s)
  unfolding turn Code.turn shadow_event
  turn-project n e s =
      let r = step c px e.tid e.input e.request s.mem s.posix (s.thread e.tid) in
      let (em, ev) = step-Agrees e.tid e.input e.request s.mem s.posix (s.thread e.tid) in
      elim (Bool-cases (ltb e.tid n)) [
        | inr out ↦ rw out
        | inl real ↦
            rw (real, em, ev)
              (ap (λ v. record { mem = r.mem; view = v })
                (map-assign view_of s.thread e.tid r.thread))
      ]

  -- Every run of a lock with its POSIX mutex and condition variables, from any state, is a run of
  -- its algorithm alone, for the schedule `shadows`: the memory at the end is the same, and each
  -- thread stands where the algorithm sees it.
  pub run-project :
      (n : ℕ) (es : List (Event I)) (s : Wrapper.State M P X)
      → project (run c px n es s) ≡ Code.run c n (shadows n es s) (project s)
  unfolding run Code.run shadows
  run-project n [] s = refl
  run-project n (e ∷ es) s =
      run-project n es (turn c px n e s)
      ∙ ap (Code.run c n (shadows n es (turn c px n e s))) (turn-project n e s)

module _ {M P I X : Type 0} {c : Code.Code M P I} {taken : M → ℕ} {has : P → ℕ}
    (laws : WordLaws c taken has) (px : Posix X) (n : ℕ) (m : M) (free : taken m ≡ 0)
    (es : List (Event I)) where
  abbrev last : Wrapper.State M P X
  last = run c px n es (Wrapper.start m px)

  view-last :
      (i : ℕ)
      → view_of (last.thread i)
        ≡ (Code.run c n (shadows c px n es (Wrapper.start m px)) (Code.start m)).view i
  view-last i = ap (λ (s : Code.State M P). s.view i) (run-project c px n es (Wrapper.start m px))

  -- Of the wrapped lock too, two threads never hold it together.
  pub wrapped-exclusive :
      (i j : ℕ)
      → i < n
      → j < n
      → view_of ((run c px n es (Wrapper.start m px)).thread i) ≡ inside
      → view_of ((run c px n es (Wrapper.start m px)).thread j) ≡ inside
      → i ≡ j
  wrapped-exclusive i j hi hj ei ej =
      exclusive laws n m free (shadows c px n es (Wrapper.start m px)) i j hi hj (cc (view-last i))
        (cc (view-last j))

  pub wrapped-never_crashed : (i : ℕ) → (run c px n es (Wrapper.start m px)).thread i ≢ crashed
  wrapped-never_crashed i e =
      never_dead laws n m free (shadows c px n es (Wrapper.start m px)) i (cc (view-last i))

module _ {M P I X : Type 0} {c : Code.Code M P I} {J : M → Type 0} {Q : P → Type 0}
    (laws : LocalLaws c J Q) (px : Posix X) (n : ℕ) (m : M) (j : J m) (es : List (Event I)) where
  -- What the algorithm keeps of its memory and its locals, the wrapped lock keeps.
  pub wrapped-ok :
      J (run c px n es (Wrapper.start m px)).mem
      × ((i : ℕ) → OnView Q (view_of ((run c px n es (Wrapper.start m px)).thread i)))
  wrapped-ok =
      subst (λ (s : Code.State M P). J s.mem × ((i : ℕ) → OnView Q (s.view i)))
        (sym (run-project c px n es (Wrapper.start m px)))
        (run-ok laws n (shadows c px n es (Wrapper.start m px)) (Code.start m) j (λ i. tt))

-- What every run of the algorithm ends in, every run of the wrapped lock ends in.
pub wrapped-all :
    {M P I X : Type 0} (c : Code.Code M P I) (px : Posix X) (n : ℕ) (m : M)
    (Φ : Code.State M P → Type 0)
    → ((es : List (Code.Event I)) → Φ (Code.run c n es (Code.start m)))
    → (es : List (Event I)) → Φ (project (run c px n es (Wrapper.start m px)))
wrapped-all c px n m Φ all es =
    subst Φ (sym (run-project c px n es (Wrapper.start m px)))
      (all (shadows c px n es (Wrapper.start m px)))
