-- ===== src/Interpose/Locks.antt =====
-- The locks behind the table: each is a run of the lock algorithm, and who holds a mutex is inside of
-- its lock.
use shfllock.Base.{
  ℕ, suc, ◌<◌, ◌≡◌, ◌≢◌, refl, sym, ap, ◌∙◌, Bool, true, false, inl, inr, Bool-cases, List, [], ◌∷◌,
  ◌++◌, arith, ◌==◌, assign,
}
use shfllock.Protocol.Code.{Code, inside}
use shfllock.Protocol.Wrapper
use shfllock.Protocol.Wrapper.{Posix, Event, run, turn}
use shfllock.Protocol.Refinement.{view_of}
use shfllock.Interpose.Table.{Ptr, null}

module _ {M P I X : Type 0} (c : Code M P I) (px : Posix X) (n : ℕ) where
  -- One more event at the end of a schedule.
  run-snoc :
      (es : List (Event I)) (e : Event I) (s : Wrapper.State M P X)
      → run c px n (es ++ (e ∷ [])) s ≡ turn c px n e (run c px n es s)
  unfolding run
  run-snoc [] e s = refl
  run-snoc (d ∷ es) e s = run-snoc es e (turn c px n d s)

  pub turn-other :
      (e : Event I) (s : Wrapper.State M P X) (j : ℕ)
      → (e.tid == j) ≡ false
      → (turn c px n e s).thread j ≡ s.thread j
  unfolding turn
  turn-other e s j ne = ground arith

module _ {M P I X : Type 0} (c : Code M P I) (px : Posix X) (n : ℕ) (m : M) where
  pub record Locks (look : ℕ → Ptr) (next : Ptr) (held : ℕ → ℕ → Bool)
      (heap : Ptr → Wrapper.State M P X) : Type 0 where
    pub small : (k : ℕ) → look k < next
    pub apart : (j k : ℕ) → look j ≢ null → look j ≡ look k → j ≡ k
    pub runs : (p : Ptr) → (es : List (Event I)) × (heap p ≡ run c px n es (Wrapper.start m px))
    pub holding :
        (i k : ℕ)
        → held i k ≡ true
        → (look k ≢ null) × (view_of ((heap (look k)).thread i) ≡ inside)

  module _ {look : ℕ → Ptr} {next : Ptr} {held : ℕ → ℕ → Bool} {heap : Ptr → Wrapper.State M P X}
      (v : Locks look next held heap) where
    -- A new lock.
    pub Locks-create : Locks look (suc next) held (assign heap next (Wrapper.start m px))
    unfolding run
    Locks-create = record {
      small = λ k. omega (arith, v.small k);
      apart = v.apart;
      runs = λ p. elim (Bool-cases (next == p)) [
        | inl own ↦ ([], rw own refl)
        | inr ne ↦ rw ne (v.runs p)
      ];
      holding = λ i k h.
          let old : (next == look k) ≡ false = ground (arith, v.small k) in
          rw old (v.holding i k h);
    }

    -- It enters the table under a new key.
    pub Locks-put :
        (look' : ℕ → Ptr) (k : ℕ) (p : Ptr)
        → look k ≡ null
        → look' k ≡ p
        → ((j : ℕ) → k ≢ j → look' j ≡ look j)
        → p ≢ null
        → p < next
        → ((j : ℕ) → look j ≢ p)
        → Locks look' next held heap
    Locks-put look' k p free here else_same real low new = record {
      small = λ j. elim (Bool-cases (k == j)) [
        | inl own ↦ ground (arith, here)
        | inr ne ↦ ground (arith, else_same j, v.small j)
      ];
      apart = λ i j. elim (Bool-cases (k == i)) [
        | inl own ↦ ground (arith, here, else_same j, new j)
        | inr ne ↦ ground (arith, here, else_same i, else_same j, new i, v.apart i j)
      ];
      runs = v.runs;
      holding = λ i j h.
          let old = v.holding i j h in
          let ne : k ≢ j = λ e. ground (arith, free, old.0, e) in rw (else_same j ne) old;
    }

    -- A step of thread `i` in the lock at `p`, of which it holds no mutex.
    pub Locks-turn :
        (p : Ptr) (e : Event I)
        → ((k : ℕ) → look k ≡ p → held e.tid k ≡ false)
        → Locks look next held (assign heap p (turn c px n e (heap p)))
    Locks-turn p e off = record {
      small = v.small;
      apart = v.apart;
      runs = λ q. elim (Bool-cases (p == q)) [
        | inl own ↦
            let r = v.runs p in
            (
              r.0 ++ (e ∷ []),
              rw own (ap (turn c px n e) r.1 ∙ sym (run-snoc c px n r.0 e (Wrapper.start m px))),
            )
        | inr ne ↦ rw ne (v.runs q)
      ];
      holding = λ i k h.
          let old = v.holding i k h in
          (
            old.0,
            elim (Bool-cases (p == look k)) [
              | inr ne ↦ rw ne old.1
              | inl own ↦
                  let here : look k ≡ p = ground arith in
                  let ne : (e.tid == i) ≡ false = ground (arith, off k here, h) in
                  rw (own, turn-other c px n e (heap p) i ne)
                    (ap (λ q. view_of ((heap q).thread i)) (sym here) ∙ old.1)
            ],
          );
    }

    -- A mutex is not held any more.
    pub Locks-drop :
        (held' : ℕ → ℕ → Bool)
        → ((i k : ℕ) → held' i k ≡ true → held i k ≡ true)
        → Locks look next held' heap
    Locks-drop held' sub = record {
      small = v.small;
      apart = v.apart;
      runs = v.runs;
      holding = λ i k h. v.holding i k (sub i k h);
    }

    -- A mutex is held.
    pub Locks-hold :
        (i k : ℕ)
        → look k ≢ null
        → view_of ((heap (look k)).thread i) ≡ inside
        → Locks look next (assign held i (assign (held i) k true)) heap
    Locks-hold i k real in_it = record {
      small = v.small;
      apart = v.apart;
      runs = v.runs;
      holding = λ j l. elim (Bool-cases (i == j)) [
        | inr ne ↦ rw ne (v.holding j l)
        | inl own ↦ elim (Bool-cases (k == l)) [
          | inr ne ↦
              let same : i ≡ j = ground arith in rw (own, ne) (λ h. v.holding j l (rw (sym same) h))
          | inl own' ↦
              let same : i ≡ j = ground arith in
              let same' : k ≡ l = ground arith in λ h. rw (sym same, sym same') (real, in_it)
        ]
      ];
    }
