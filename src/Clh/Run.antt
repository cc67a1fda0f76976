-- ===== src/Clh/Run.antt =====
-- The queue of a CLH lock stays as it must be in every run of a lock whose every step is one of its
-- moves.
use shfllock.Base.{
  ℕ, ◌-◌, ◌<◌, ◌≡◌, ◌≢◌, refl, sym, ap, subst, true, false, inl, inr, Bool-cases, List, arith, ◌==◌,
  assign, map-assign,
}
use shfllock.Atomic.{locked}
use shfllock.Clh.Memory.{Ptr, null, ClhMutex, set_spin, set_head, create}
use shfllock.Mcs.Line.{same_place}
use shfllock.Clh.Stage.{
  Stage, out, armed, waiting, leading, crowned, holding, waking, within, took, Change, rest, arm,
  queue, acquire, crown, inherit, see, wake,
}
use shfllock.Clh.Facts.{node_of, is_first, Inv, Fact-locked}
use shfllock.Clh.Moves.{fact, heads-alone, steady, nodes-apart}
use shfllock.Clh.Turns.{took-heads, queue-Inv}
use shfllock.Clh.Inherit.{inherit-Inv}
use shfllock.Clh.Wake.{wake-Inv}
use shfllock.Protocol.Code.{Code, View, outside, Op, State, Event, move, run, start}
use shfllock.Protocol.Induct.{moved, run-keeps}

module _ {n : ℕ} {m : ClhMutex} {stage : ℕ → Stage} (v : Inv n m stage) (i : ℕ) (low : i < n) where
  -- A wait ends for the first thread of the line alone.
  acquire-first :
      (q : Ptr)
      → stage i ≡ waiting q
      → m.spin q ≢ locked
      → is_first m v.places v.spare stage i ≡ true
  acquire-first q e free = elim (Bool-cases (is_first m v.places v.spare stage i)) [
    | inl first ↦ first
    | inr later ↦
        let f = fact v i low e in
        let p = v.places in
        let at = v.line.placed i low (ap within e) in
        let k = p.owner (p.place i - 1) in
        let there = v.line.owned (p.place i - 1) (ground (arith, at, later)) (omega (arith, at)) in
        let shut = Fact-locked _ _ _ _ _ (stage k) there.1 (v.each k there.0) in
        absurd (free (ground (arith, f, later, shut)))
  ]

  -- The node of another thread is not the spare one, where this thread is the first one.
  spare-apart :
      (j : ℕ)
      → j < n
      → (i == j) ≡ false
      → within (stage i) ≡ true
      → is_first m v.places v.spare stage i ≡ true
      → node_of m v.places v.spare stage j ≢ v.spare
  spare-apart j hj ne w first =
      let t = took-heads (stage j) (heads-alone v i low j hj ne w first) in rw t (v.apart j)

  acquire-Inv :
      (q : Ptr) (u : ℕ)
      → stage i ≡ waiting q
      → m.spin q ≢ locked
      → Inv n (set_spin m q u) (assign stage i (leading q))
  acquire-Inv q u e free =
      let first = acquire-first q e free in
      let f = fact v i low e in
      let q_is : q ≡ v.spare = ground (arith, f, first) in
      let mine = v.apart i in
      steady v i low _ (leading q) refl (λ k. refl) (ap within e) (ap took e)
        (λ j hj ne.
          let other = spare-apart j hj ne (ap within e) first in ground (arith, q_is, other))
        (λ j hj ne h. refl) (ground (arith, f, e, q_is, mine), f.1, first)

  arm-Inv : stage i ≡ out → Inv n (set_spin m (m.current i) locked) (assign stage i armed)
  arm-Inv e =
      steady v i low _ armed refl (λ k. refl) (ap within e) (ap took e)
        (λ j hj ne. let other = nodes-apart v i low j ne (ap took e) in ground (arith, other))
        (λ j hj ne h. refl) (ground (arith, e))

  crown-Inv :
      (q : Ptr)
      → stage i ≡ leading q
      → Inv n (set_head m (m.current i)) (assign stage i (crowned q))
  crown-Inv q e =
      let f = fact v i low e in
      steady v i low _ (crowned q) refl (λ k. refl) (ap within e) (ap took e) (λ j hj ne. refl)
        (λ j hj ne h. absurd (ground (arith, heads-alone v i low j hj ne (ap within e) f.2, h)))
        (f.0, f.1, f.2, ground (arith, e))

  pub transition-Inv :
      {s s' : Stage} {m' : ClhMutex}
      → stage i ≡ s
      → Change i m s m' s'
      → Inv n m' (assign stage i s')
  transition-Inv {s} e rest =
      steady v i low m s refl (λ k. refl) (ap within e) (ap took e) (λ j hj ne. refl)
        (λ j hj ne h. refl) (fact v i low e)
  transition-Inv e arm = arm-Inv e
  transition-Inv e queue = queue-Inv v i low e
  transition-Inv e (acquire {q} u free) = acquire-Inv q u e free
  transition-Inv e (crown {q}) = crown-Inv q e
  transition-Inv e (inherit {q}) = inherit-Inv v i low q e
  transition-Inv e see =
      let f = fact v i low e in
      steady v i low m (waking m.head) refl (λ k. refl) (ap within e) (ap took e) (λ j hj ne. refl)
        (λ j hj ne h. refl) (f.0, f.1, f.2, f.2)
  transition-Inv e (wake {h}) = wake-Inv v i low h e

  -- The word that is to be woken is LOCKED.
  pub waking-locked : {h : Ptr} → stage i ≡ waking h → m.spin h ≡ locked
  waking-locked e = let f = fact v i low e in ground (arith, f)

-- The tail is never NULL.
pub tail-real : {n : ℕ} {m : ClhMutex} {stage : ℕ → Stage} → Inv n m stage → m.tail ≢ null
tail-real {m} {stage} v =
    let last = v.places.owner (v.places.back - 1) in
    ground (arith, v.tail, v.real_spare, v.real last)

pub holding-exclusive :
    {n : ℕ} {m : ClhMutex} {stage : ℕ → Stage}
    → Inv n m stage
    → (i j : ℕ) → i < n
    → j < n
    → stage i ≡ holding
    → stage j ≡ holding
    → i ≡ j
holding-exclusive v i j hi hj ei ej =
    let fi = fact v i hi ei in
    let fj = fact v j hj ej in
    same_place v.line i j hi hj (ap within ei) (ap within ej) (ground (arith, fi, fj))

start-Inv : (n : ℕ) (stage : ℕ → Stage) → ((j : ℕ) → stage j ≡ out) → Inv n create stage
unfolding create
start-Inv n stage o = record {
  places = record { front = 0; back = 0; place = λ j. 0; owner = λ k. 0 };
  spare = 1;
  line = record {
    order = omega arith;
    placed = λ j h e. absurd (ground (arith, o j, e));
    owned = λ k a b. absurd (omega arith);
  };
  distinct = λ j k e. omega (arith, e);
  apart = λ j e. omega (arith, e);
  real = λ j e. omega (arith, e);
  real_spare = λ e. omega (arith, e);
  tail = refl;
  each = λ j h. rw (o j) tt;
}

-- Every step of `c` is a move of the queue, where the tail is not NULL and the word that is to be woken
-- is LOCKED.
abbrev pub Follows : {P I : Type 0} → Code ClhMutex P I → (View P → Stage) → Type 0
Follows {P} {I} c stage_of =
    (i : ℕ) (y : I) (m : ClhMutex) (o : Op) (v : View P)
    → m.tail ≢ null
    → ((h : Ptr) → stage_of v ≡ waking h → m.spin h ≡ locked)
    → Change i m (stage_of v) (move c i y o m v).0 (stage_of (move c i y o m v).1)

module _ {P I : Type 0} (c : Code ClhMutex P I) (stage_of : View P → Stage)
    (follows : Follows c stage_of) (n : ℕ) where
  abbrev Queued : State ClhMutex P → Type 0
  Queued s = Inv n s.mem (λ j. stage_of (s.view j))

  step-Queued :
      (i : ℕ) (y : I) (o : Op) (s : State ClhMutex P) → i < n → Queued s → Queued (moved c i y o s)
  step-Queued i y o s low v =
      subst (Inv n (moved c i y o s).mem)
        (sym (map-assign stage_of s.view i (move c i y o s.mem (s.view i)).1))
        (transition-Inv v i low refl
          (follows i y s.mem o (s.view i) (tail-real v) (λ h e. waking-locked v i low e)))

  pub run-Queued :
      stage_of outside ≡ out
      → (es : List (Event I))
      → Inv n (run c n es (start create)).mem (λ j. stage_of ((run c n es (start create)).view j))
  run-Queued o es = run-keeps c n Queued step-Queued es (start create) (start-Inv n _ (λ j. o))
