-- ===== src/Interpose/Held.antt =====
-- Every step of every call keeps what the client knows in line with what the locks say.
use shfllock.Base.{
  ℕ, ◌≡◌, ◌≢◌, refl, sym, ◌∙◌, subst, Bool, true, false, inl, inr, Bool-cases, List, [], ◌∷◌, arith,
  ◌==◌, ltb, assign,
}
use shfllock.Protocol.Code.{Code}
use shfllock.Protocol.Wrapper
use shfllock.Protocol.Wrapper.{Posix, Thread, idle, critical}
use shfllock.Interpose.Table.{Ptr, null, Table, TableLaws}
use shfllock.Interpose.Calls.{
  Op, init, unlock, Request, call, destroy, none, Event, Stage, returned, get, create, put,
  get_again, calling, remove, fault, State, conclude, ask, allowed, answer, request_of, step, turn,
  run, start,
}
use shfllock.Interpose.Invariant.{aims, pending}
use shfllock.Interpose.Faithful.{
  Faithful, Fit, Stand, Leaving, drops, unlocks, Faithful-to, Faithful-ask, Faithful-turn,
}
use shfllock.Interpose.Leave.{Left, turn-Left}
use shfllock.Interpose.Lookup.{Inv}
use shfllock.Interpose.Arrive.{
  Agreed, pending-new, own, get-Agreed, create-Agreed, put-Agreed, get_again-Agreed,
}
use shfllock.Interpose.Steps.{keeps, undestroyed, turn-Inv}

Stand-Leaving : {P : Type 0} (t : Thread P) → Stand true t → Leaving t
Stand-Leaving (critical r) f = tt
Stand-Leaving t f = ground arith

module _ {T M P I X : Type 0} {b : Table T} (laws : TableLaws b) (c : Code M P I) (px : Posix X)
    (n : ℕ) (m : M) where
  module _ (i : ℕ) (y : I) (q : Request) (s : State T M P X) (v : Inv laws c px n m s)
      (w : Agreed laws c px n m s) (real : ltb i n ≡ true) where
    -- A step in the lock, which leaves the thread at `g` in its call.
    turned-Agreed :
        (op : Op) (k : ℕ) (p : Ptr) (g : Stage) (held' : ℕ → ℕ → Bool)
        → s.stage i ≡ calling op k p
        → ((j l : ℕ) → (i == j) ≡ false → held' j l ≡ s.held j l)
        → ((l : ℕ) → k ≢ l → held' i l ≡ s.held i l)
        → (let l =
              Wrapper.turn c px n
                (record { tid = i; request = request_of op; input = y })
                (s.heap p) in
            ((l : ℕ) → drops g l ≡ true → k ≡ l)
            → Fit g k (held' i k) (l.thread i)
            → pending g ≡ null
            → Faithful c px n m (b.clht_get s.table) held' (assign s.heap p l) (assign s.stage i g))
    turned-Agreed op k p g held' e others rest at_k done quiet =
        let ev : Wrapper.Event I = record { tid = i; request = request_of op; input = y } in
        let mine = own laws c px n m i y q s v w (calling op k p) e in
        let apart : (l : ℕ) → b.clht_get s.table l ≡ p → k ≡ l =
          λ l f. v.locks.apart k l (λ z. mine.1 (sym mine.0 ∙ z)) (mine.0 ∙ sym f) in
        let off : (j : ℕ) → pending (s.stage j) ≢ null → pending (s.stage j) ≢ p = λ j real z.
          (pending-new (b.clht_get s.table) s.next (s.stage j) (v.stages.ok j) real).1 k
            (mine.0 ∙ sym z) in
        Faithful-turn c px n m w p k ev g held' mine.0 mine.1 apart off others rest
          (λ l ne. rw e (ground (arith, ne))) at_k done quiet

    free : (op : Op) (k : ℕ) (p : Ptr) → s.stage i ≡ calling op k p → s.held i k ≡ false
    free op k p e =
        v.stages.away i k
          (rw e (ground (arith, (own laws c px n m i y q s v w (calling op k p) e).2)))

    left :
        (op : Op) (k : ℕ) (p : Ptr)
        → s.stage i ≡ calling op k p
        → unlocks op ≡ true
        → Left (
            (Wrapper.turn c px n
                (record { tid = i; request = request_of op; input = y })
                (s.heap p)).thread
              i)
    left op k p e u =
        let mine = own laws c px n m i y q s v w (calling op k p) e in
        let d : drops (s.stage i) k ≡ true = rw e (ground (arith, u)) in
        let leaving = (w.settled i k (w.known i k d)).1 d in
        turn-Left c px n i y op (s.heap p) real u
          (subst (λ q. Leaving ((s.heap q).thread i)) mine.0 leaving)

    ready :
        (op : Op) (k r : ℕ)
        → s.stage i ≡ returned r
        → drops (get op k) k ≡ true
        → allowed op (s.held i k) ≡ true
        → (b.clht_get s.table k ≢ null) × Leaving ((s.heap (b.clht_get s.table k)).thread i)
    ready unlock k r e d may =
        let there = (v.locks.holding i k may).0 in
        let stands = (w.settled i k there).0 (rw e refl) in
        (
          there,
          Stand-Leaving ((s.heap (b.clht_get s.table k)).thread i)
              (subst (λ h. Stand h ((s.heap (b.clht_get s.table k)).thread i)) may stands),
        )
    ready op k r e d may = cc

    -- The lock's own function has returned, or not, where the thread stands at `t` behind the step.
    conclude-Agreed :
        (op : Op) (k : ℕ) (p : Ptr) (t : Thread P)
        → s.stage i ≡ calling op k p
        → (let l =
              Wrapper.turn c px n
                (record { tid = i; request = request_of op; input = y })
                (s.heap p) in
            l.thread i ≡ t
            → Agreed laws c px n m (conclude (record s { heap = assign s.heap p l }) i op k p t))
    conclude-Agreed op k p (idle r) e is =
        turned-Agreed op k p (returned (answer op r)) s.held e (λ j l ne. refl) (λ l ne. refl)
          (λ l d. cc) ((λ a. rw (is, free op k p e) tt), (λ d. cc)) refl
    conclude-Agreed unlock k p (critical r) e is = absurd (subst Left is (left unlock k p e refl))
    conclude-Agreed op k p (critical r) e is =
        let held' = assign s.held i (assign (s.held i) k true) in
        let has : held' i k ≡ true = ground arith in
        turned-Agreed op k p (returned (answer op r)) held' e (λ j l ne. ground (arith, ne))
          (λ l ne. ground (arith, ne)) (λ l d. cc) ((λ a. rw (is, has) tt), (λ d. cc)) refl
    conclude-Agreed op k p t e is =
        let on : aims (calling op k p) k ≡ true =
          ground (arith, (own laws c px n m i y q s v w (calling op k p) e).2) in
        turned-Agreed op k p (calling op k p) s.held e (λ j l ne. refl) (λ l ne. refl)
          (λ l d. ground (arith, d))
          (
            (λ a. absurd (ground (arith, on, a))),
            (λ d. rw is (subst Left is (left op k p e (ground (arith, d))))),
          )
          refl

    ask-Agreed :
        (op : Op) (k r : ℕ)
        → s.stage i ≡ returned r
        → allowed op (s.held i k) ≡ true
        → Agreed laws c px n m (ask s i op k)
    ask-Agreed init k r e may =
        Faithful-to c px n m w i (create init k) (λ l a. rw e refl) (λ l d. cc) refl
    ask-Agreed op k r e may =
        Faithful-ask c px n m w i k (get op k) (λ l a. (ground (arith, a), rw e refl))
          (λ l d. ground (arith, d)) (λ d. ready op k r e d may) refl

  step-Agreed :
      (i : ℕ) (y : I) (q : Request) (s : State T M P X) (g : Stage)
      → keeps q ≡ true
      → s.stage i ≡ g
      → Inv laws c px n m s
      → Agreed laws c px n m s
      → ltb i n ≡ true
      → Agreed laws c px n m (step b c px n m i y q s g)
  unfolding step
  step-Agreed i y q s (get op k) h e v w real = get-Agreed laws c px n m i y q s v w op k e
  step-Agreed i y q s (create op k) h e v w real = create-Agreed laws c px n m i y q s v w op k e
  step-Agreed i y q s (put op k p) h e v w real = put-Agreed laws c px n m i y q s v w op k p e
  step-Agreed i y q s (get_again op k) h e v w real =
      get_again-Agreed laws c px n m i y q s v w op k e
  step-Agreed i y q s (calling op k p) h e v w real =
      let ev : Wrapper.Event I = record { tid = i; request = request_of op; input = y } in
      conclude-Agreed i y q s v w real op k p ((Wrapper.turn c px n ev (s.heap p)).thread i) e refl
  step-Agreed i y q s (remove k) h e v w real = absurd (own laws c px n m i y q s v w (remove k) e)
  step-Agreed i y q s fault h e v w real = w
  step-Agreed i y (call op k) s (returned r) h e v w real =
      elim (Bool-cases (allowed op (s.held i k))) [
        | inl may ↦ rw may (ask-Agreed i y none s v w real op k r e may)
        | inr not ↦ rw not w
      ]
  step-Agreed i y (destroy k) s (returned r) h e v w real = absurd (ground arith)
  step-Agreed i y none s (returned r) h e v w real = w

  pub run-Agreed :
      (es : List (Event I)) (s : State T M P X)
      → undestroyed es ≡ true
      → Inv laws c px n m s
      → Agreed laws c px n m s
      → Agreed laws c px n m (run b c px n m es s)
  unfolding run undestroyed turn
  run-Agreed [] s h v w = w
  run-Agreed (e ∷ es) s h v w =
      let both : (keeps e.request ≡ true) × (undestroyed es ≡ true) = ground arith in
      let next : Agreed laws c px n m (turn b c px n m e s) = elim (Bool-cases (ltb e.tid n)) [
        | inr out ↦ rw out w
        | inl real ↦
            rw real (step-Agreed e.tid e.input e.request s (s.stage e.tid) both.0 refl v w real)
      ] in
      run-Agreed es (turn b c px n m e s) both.1 (turn-Inv laws c px n m e s both.0 v) next

  pub start-Agreed : Agreed laws c px n m (start b c px n m)
  start-Agreed = record {
    settled = λ j l real. ((λ a. tt), (λ d. cc));
    known = λ j l d. cc;
    new = λ j real. absurd (real refl);
  }
