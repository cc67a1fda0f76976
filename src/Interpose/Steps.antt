-- ===== src/Interpose/Steps.antt =====
-- Every step of every call keeps the invariant, as long as no mutex is destroyed.
use shfllock.Base.{
  ℕ, ◌≡◌, refl, sym, ap, ◌∙◌, subst, Bool, true, false, inl, inr, Bool-cases, List, [], ◌∷◌, arith,
  ltb, ◌&&◌, assign,
}
use shfllock.Protocol.Code.{Code}
use shfllock.Protocol.Wrapper
use shfllock.Protocol.Wrapper.{Posix, Thread, idle, critical}
use shfllock.Protocol.Refinement.{view_of}
use shfllock.Interpose.Table.{Ptr, Table, TableLaws}
use shfllock.Interpose.Calls.{
  Op, init, unlock, Request, call, destroy, none, Event, Stage, returned, get, create, put,
  get_again, calling, remove, fault, State, conclude, ask, allowed, answer, request_of, step, turn,
  run, start,
}
use shfllock.Interpose.Locks.{Locks-turn, Locks-drop, Locks-hold}
use shfllock.Interpose.Invariant.{StageOk, Stages-move}
use shfllock.Interpose.Lookup.{Inv, to-Inv, get-Inv, create-Inv, put-Inv, get_again-Inv}

abbrev pub keeps : Request → Bool
keeps (destroy k) = false
keeps q = true

-- No event of the schedule destroys a mutex.
unfoldable pub undestroyed : {I : Type 0} → List (Event I) → Bool
undestroyed [] = true
undestroyed (e ∷ es) = keeps e.request && undestroyed es

module _ {T M P I X : Type 0} {b : Table T} (laws : TableLaws b) (c : Code M P I) (px : Posix X)
    (n : ℕ) (m : M) where
  conclude-Inv :
      (i : ℕ) (s : State T M P X) (op : Op) (k : ℕ) (p : Ptr) (t : Thread P)
      → s.stage i ≡ calling op k p
      → Inv laws c px n m s
      → (s.heap p).thread i ≡ t
      → Inv laws c px n m (conclude s i op k p t)
  conclude-Inv i s op k p (idle r) e v is =
      to-Inv laws c px n m s i (returned (answer op r)) v tt (λ j a. cc) refl
  conclude-Inv i s unlock k p (critical r) e v is =
      to-Inv laws c px n m s i (returned (answer unlock r)) v tt (λ j a. cc) refl
  conclude-Inv i s op k p (critical r) e v is =
      let mine : StageOk (b.clht_get s.table) s.next (calling op k p) =
        subst (StageOk (b.clht_get s.table) s.next) e (v.stages.ok i) in
      let here : b.clht_get s.table k ≡ p = mine.0 in
      record {
        locks = Locks-hold c px n m v.locks i k (rw here mine.1) (rw here (ap view_of is));
        stages =
            Stages-move v.stages (b.clht_get s.table) s.next
              (assign s.held i (assign (s.held i) k true)) i (returned (answer op r))
              (λ j ne. v.stages.ok j) (λ j l ne. ground arith) tt (λ l a. cc)
              (λ ne. absurd (ne refl));
      }
  conclude-Inv i s op k p t e v is =
      to-Inv laws c px n m s i (calling op k p) v
        (subst (StageOk (b.clht_get s.table) s.next) e (v.stages.ok i)) (λ j a. rw e a) refl

  calling-Inv :
      (i : ℕ) (y : I) (q : Request) (s : State T M P X) (op : Op) (k : ℕ) (p : Ptr)
      → s.stage i ≡ calling op k p
      → Inv laws c px n m s
      → Inv laws c px n m (step b c px n m i y q s (calling op k p))
  unfolding step
  calling-Inv i y q s op k p e v =
      let mine : StageOk (b.clht_get s.table) s.next (calling op k p) =
        subst (StageOk (b.clht_get s.table) s.next) e (v.stages.ok i) in
      let ev : Wrapper.Event I = record { tid = i; request = request_of op; input = y } in
      let off : (l : ℕ) → b.clht_get s.table l ≡ p → s.held i l ≡ false = λ l f. v.stages.away i l (
        rw (e, v.locks.apart k l (rw (mine.0) mine.1) (mine.0 ∙ sym f)) (ground (arith, mine.2))) in
      conclude-Inv i (record s { heap = assign s.heap p (Wrapper.turn c px n ev (s.heap p)) }) op k
        p ((Wrapper.turn c px n ev (s.heap p)).thread i) e
        (record { locks = Locks-turn c px n m v.locks p ev off; stages = v.stages }) (ground arith)

  ask-Inv :
      (i : ℕ) (s : State T M P X) (op : Op) (k r : ℕ)
      → s.stage i ≡ returned r
      → Inv laws c px n m s
      → Inv laws c px n m (ask s i op k)
  ask-Inv i s init k r e v =
      to-Inv laws c px n m s i (create init k) v tt (λ j a. ground arith) refl
  ask-Inv i s op k r e v = record {
    locks =
        Locks-drop c px n m v.locks (assign s.held i (assign (s.held i) k false))
          (λ j l h. ground arith);
    stages =
        Stages-move v.stages (b.clht_get s.table) s.next
          (assign s.held i (assign (s.held i) k false)) i (get op k) (λ j ne. v.stages.ok j)
          (λ j l ne. ground arith) tt (λ l a. ground arith) (λ ne. absurd (ne refl));
  }

  step-Inv :
      (i : ℕ) (y : I) (q : Request) (s : State T M P X) (g : Stage)
      → keeps q ≡ true
      → s.stage i ≡ g
      → Inv laws c px n m s
      → Inv laws c px n m (step b c px n m i y q s g)
  unfolding step
  step-Inv i y q s (get op k) h e v = get-Inv laws c px n m i y q s op k e v
  step-Inv i y q s (create op k) h e v = create-Inv laws c px n m i y q s op k e v
  step-Inv i y q s (put op k p) h e v = put-Inv laws c px n m i y q s op k p e v
  step-Inv i y q s (get_again op k) h e v = get_again-Inv laws c px n m i y q s op k e v
  step-Inv i y q s (calling op k p) h e v = calling-Inv i y q s op k p e v
  step-Inv i y q s (remove k) h e v =
      absurd (subst (StageOk (b.clht_get s.table) s.next) e (v.stages.ok i))
  step-Inv i y q s fault h e v = v
  step-Inv i y (call op k) s (returned r) h e v = elim (Bool-cases (allowed op (s.held i k))) [
    | inl may ↦ rw may (ask-Inv i s op k r e v)
    | inr not ↦ rw not v
  ]
  step-Inv i y (destroy k) s (returned r) h e v = absurd (ground arith)
  step-Inv i y none s (returned r) h e v = v

  pub turn-Inv :
      (e : Event I) (s : State T M P X)
      → keeps e.request ≡ true
      → Inv laws c px n m s
      → Inv laws c px n m (turn b c px n m e s)
  unfolding turn
  turn-Inv e s h v = elim (Bool-cases (ltb e.tid n)) [
    | inr out ↦ rw out v
    | inl real ↦ rw real (step-Inv e.tid e.input e.request s (s.stage e.tid) h refl v)
  ]

  pub run-Inv :
      (es : List (Event I)) (s : State T M P X)
      → undestroyed es ≡ true
      → Inv laws c px n m s
      → Inv laws c px n m (run b c px n m es s)
  unfolding run undestroyed
  run-Inv [] s h v = v
  run-Inv (e ∷ es) s h v =
      let both : (keeps e.request ≡ true) × (undestroyed es ≡ true) = ground arith in
      run-Inv es (turn b c px n m e s) both.1 (turn-Inv e s both.0 v)

  pub start-Inv : Inv laws c px n m (start b c px n m)
  unfolding Wrapper.run
  start-Inv = record {
    locks = record {
      small = λ k. omega (arith, laws.get-create k);
      apart = λ j k ne e. absurd (ne (laws.get-create j));
      runs = λ p. ([], refl);
      holding = λ i k h. cc;
    };
    stages = record { ok = λ i. tt; away = λ i k a. cc; single = λ i j ne e. absurd (ne refl) };
  }
