-- ===== src/Interpose/Faithful.antt =====
-- What the client knows of a mutex, and what its lock says: a thread that is not on its way to the lock
-- has it where the client holds the mutex, and is outside of it otherwise.
use shfllock.Base.{
  ℕ, ◌<◌, ◌≡◌, ◌≢◌, sym, ◌∙◌, subst, Bool, true, false, inl, inr, Bool-cases, arith, ◌==◌, ◌&&◌,
  assign,
}
use shfllock.Protocol.Code.{Code}
use shfllock.Protocol.Wrapper
use shfllock.Protocol.Wrapper.{
  Posix, Event, turn, Thread, idle, call, critical, posix_unlock, failed, crashed, unlocking,
}
use shfllock.Interpose.Table.{Ptr, null}
use shfllock.Interpose.Calls.{Op, unlock, Stage, get, create, put, get_again, calling}
use shfllock.Interpose.Invariant.{aims, pending}
use shfllock.Interpose.Locks.{turn-other}

-- The thread has the lock, or is outside of it, and in no call.
abbrev pub Stand : {P : Type 0} → Bool → Thread P → Type 0
Stand true (critical r) = Unit {0}
Stand false (idle r) = Unit {0}
Stand h t = ⊥

-- The thread has the lock and is about to give it back, or on its way.
abbrev pub Leaving : {P : Type 0} → Thread P → Type 0
Leaving (critical r) = Unit {0}
Leaving posix_unlock = Unit {0}
Leaving (call unlocking p) = Unit {0}
Leaving (failed h) = Unit {0}
Leaving crashed = Unit {0}
Leaving t = ⊥

abbrev pub unlocks : Op → Bool
unlocks unlock = true
unlocks op = false

-- Whether a call is to unlock the mutex `j`.
abbrev pub drops : Stage → ℕ → Bool
drops (get op k) j = unlocks op && (k == j)
drops (create op k) j = unlocks op && (k == j)
drops (put op k p) j = unlocks op && (k == j)
drops (get_again op k) j = unlocks op && (k == j)
drops (calling op k p) j = unlocks op && (k == j)
drops g j = false

abbrev pub Fit : {P : Type 0} → Stage → ℕ → Bool → Thread P → Type 0
Fit g k h t = (aims g k ≡ false → Stand h t) × (drops g k ≡ true → Leaving t)

module _ {M P I X : Type 0} (c : Code M P I) (px : Posix X) (n : ℕ) (m : M) where
  pub record Faithful (look : ℕ → Ptr) (held : ℕ → ℕ → Bool) (heap : Ptr → Wrapper.State M P X)
      (stage : ℕ → Stage) : Type 0 where
    pub settled : (i k : ℕ) → look k ≢ null → Fit (stage i) k (held i k) ((heap (look k)).thread i)
    pub known : (i k : ℕ) → drops (stage i) k ≡ true → look k ≢ null
    pub new : (i : ℕ) → pending (stage i) ≢ null → heap (pending (stage i)) ≡ Wrapper.start m px

  module _ {look : ℕ → Ptr} {held : ℕ → ℕ → Bool} {heap : Ptr → Wrapper.State M P X}
      {stage : ℕ → Stage} (v : Faithful look held heap stage) where
    -- One thread moves, and the table, the locks and what is held change with it.
    Faithful-move :
        (look' : ℕ → Ptr) (held' : ℕ → ℕ → Bool) (heap' : Ptr → Wrapper.State M P X) (i : ℕ)
        (g : Stage)
        → ((j k : ℕ)
            → (i == j) ≡ false
            → look' k ≢ null
            → Fit (stage j) k (held' j k) ((heap' (look' k)).thread j))
        → ((k : ℕ) → look' k ≢ null → Fit g k (held' i k) ((heap' (look' k)).thread i))
        → ((k : ℕ) → look k ≢ null → look' k ≢ null)
        → ((k : ℕ) → drops g k ≡ true → look k ≢ null)
        → ((j : ℕ)
            → (i == j) ≡ false
            → pending (stage j) ≢ null
            → heap' (pending (stage j)) ≡ Wrapper.start m px)
        → (pending g ≢ null → heap' (pending g) ≡ Wrapper.start m px)
        → Faithful look' held' heap' (assign stage i g)
    Faithful-move look' held' heap' i g others mine more there old own = record {
      settled = λ j k. elim (Bool-cases (i == j)) [
        | inl e ↦
            let same : i ≡ j = ground arith in
            rw e (λ real.
              subst (λ l. Fit g k (held' l k) ((heap' (look' k)).thread l)) same (mine k real))
        | inr ne ↦ rw ne (others j k ne)
      ];
      known = λ j k. elim (Bool-cases (i == j)) [
        | inl e ↦ rw e (λ d. more k (there k d))
        | inr ne ↦ rw ne (λ d. more k (v.known j k d))
      ];
      new = λ j. elim (Bool-cases (i == j)) [ inl e ↦ rw e own | inr ne ↦ rw ne (old j ne) ];
    }

    -- It moves on, and nothing else changes.
    pub Faithful-to :
        (i : ℕ) (g : Stage)
        → ((k : ℕ) → aims g k ≡ false → aims (stage i) k ≡ false)
        → ((k : ℕ) → drops g k ≡ true → drops (stage i) k ≡ true)
        → pending g ≡ null
        → Faithful look held heap (assign stage i g)
    Faithful-to i g sub sub' quiet =
        Faithful-move look held heap i g (λ j k ne real. v.settled j k real)
          (λ k real. let f = v.settled i k real in ((λ a. f.0 (sub k a)), (λ d. f.1 (sub' k d))))
          (λ k real. real) (λ k d. v.known i k (sub' k d)) (λ j ne real. v.new j real)
          (λ real. absurd (real quiet))

    -- It makes a new lock.
    pub Faithful-create :
        (next : Ptr) (i : ℕ) (op : Op) (k : ℕ)
        → ((l : ℕ) → look l < next)
        → ((j : ℕ) → pending (stage j) ≢ next)
        → ((l : ℕ) → aims (put op k next) l ≡ false → aims (stage i) l ≡ false)
        → ((l : ℕ) → drops (put op k next) l ≡ true → drops (stage i) l ≡ true)
        → Faithful look held
            (assign heap next (Wrapper.start m px))
            (assign stage i (put op k next))
    Faithful-create next i op k small apart sub sub' =
        let heap' = assign heap next (Wrapper.start m px) in
        let off : (l : ℕ) → (next == look l) ≡ false = λ l. ground (arith, small l) in
        Faithful-move look held heap' i (put op k next)
          (λ j l ne real. rw (off l) (v.settled j l real))
          (λ l real.
            let f = v.settled i l real in rw (off l) ((λ a. f.0 (sub l a)), (λ d. f.1 (sub' l d))))
          (λ l real. real) (λ l d. v.known i l (sub' l d))
          (λ j ne real.
            let other : (next == pending (stage j)) ≡ false = ground (arith, apart j) in
            rw other (v.new j real))
          (λ real. ground arith)

    -- Its new lock enters the table.
    pub Faithful-put :
        (look' : ℕ → Ptr) (i : ℕ) (op : Op) (k : ℕ) (p : Ptr) (g : Stage)
        → stage i ≡ put op k p
        → p ≢ null
        → look k ≡ null
        → look' k ≡ p
        → ((l : ℕ) → k ≢ l → look' l ≡ look l)
        → ((j : ℕ) → held j k ≡ false)
        → ((l : ℕ) → aims g l ≡ false → aims (put op k p) l ≡ false)
        → ((l : ℕ) → drops g l ≡ true → drops (put op k p) l ≡ true)
        → pending g ≡ null
        → Faithful look' held heap (assign stage i g)
    Faithful-put look' i op k p g e real missing here else_same free sub sub' quiet =
        let made : heap p ≡ Wrapper.start m px =
          subst (λ (t : Stage). pending t ≢ null → heap (pending t) ≡ Wrapper.start m px) e
            (v.new i) real in
        let seen : (j l : ℕ)
            → look' l ≢ null
            → Fit (stage j) l (held j l) ((heap (look' l)).thread j) =
          λ j l there. elim (Bool-cases (k == l)) [
            | inl own ↦
                let same : k ≡ l = ground arith in
                subst (λ q. Fit (stage j) q (held j q) ((heap (look' q)).thread j)) same
                  (rw (here, made, free j) ((λ a. tt), (λ d. absurd (v.known j k d missing))))
            | inr ne ↦
                let same = else_same l (λ z. ground (arith, z)) in
                rw same (v.settled j l (λ z. there (same ∙ z)))
          ] in
        let kept : (l : ℕ) → look l ≢ null → look' l ≢ null = λ l old. elim (Bool-cases (k == l)) [
          | inl own ↦ absurd (old (ground (arith, missing)))
          | inr ne ↦ λ z. old (sym (else_same l (λ x. ground (arith, x))) ∙ z)
        ] in
        Faithful-move look' held heap i g (λ j l ne there. seen j l there)
          (λ l there.
            let f = seen i l there in ((λ a. f.0 (rw e (sub l a))), (λ d. f.1 (rw e (sub' l d)))))
          kept (λ l d. v.known i l (rw e (sub' l d))) (λ j ne there. v.new j there)
          (λ there. absurd (there quiet))

    -- It sets out for a mutex.
    pub Faithful-ask :
        (i k : ℕ) (g : Stage)
        → ((l : ℕ) → aims g l ≡ false → (k ≢ l) × (aims (stage i) l ≡ false))
        → ((l : ℕ) → drops g l ≡ true → k ≡ l)
        → (drops g k ≡ true → (look k ≢ null) × Leaving ((heap (look k)).thread i))
        → pending g ≡ null
        → Faithful look (assign held i (assign (held i) k false)) heap (assign stage i g)
    Faithful-ask i k g sub at_k ready quiet =
        let is : (l : ℕ) → drops g l ≡ true → (look l ≢ null) × Leaving ((heap (look l)).thread i) =
          λ l d.
            let same = at_k l d in
            subst (λ q. (look q ≢ null) × Leaving ((heap (look q)).thread i)) same
              (ready (subst (λ q. drops g q ≡ true) (sym same) d)) in
        Faithful-move look (assign held i (assign (held i) k false)) heap i g
          (λ j l ne real. rw ne (v.settled j l real))
          (λ l real. (
            λ a.
                let away : (k == l) ≡ false = ground (arith, (sub l a).0) in
                let own : (i == i) ≡ true = ground arith in
                rw (own, away) ((v.settled i l real).0 (sub l a).1),
            λ d. (is l d).1,
          ))
          (λ l real. real) (λ l d. (is l d).0) (λ j ne real. v.new j real)
          (λ real. absurd (real quiet))

    -- It makes a step in the lock behind the mutex `k`.
    pub Faithful-turn :
        (p k : ℕ) (e : Event I) (g : Stage) (held' : ℕ → ℕ → Bool)
        → look k ≡ p
        → p ≢ null
        → ((l : ℕ) → look l ≡ p → k ≡ l)
        → ((j : ℕ) → pending (stage j) ≢ null → pending (stage j) ≢ p)
        → ((j l : ℕ) → (e.tid == j) ≡ false → held' j l ≡ held j l)
        → ((l : ℕ) → k ≢ l → held' e.tid l ≡ held e.tid l)
        → ((l : ℕ) → k ≢ l → aims (stage e.tid) l ≡ false)
        → ((l : ℕ) → drops g l ≡ true → k ≡ l)
        → Fit g k (held' e.tid k) ((turn c px n e (heap p)).thread e.tid)
        → pending g ≡ null
        → Faithful look held' (assign heap p (turn c px n e (heap p))) (assign stage e.tid g)
    Faithful-turn p k e g held' here real_p apart off others mine sub at_k done quiet =
        let heap' = assign heap p (turn c px n e (heap p)) in
        Faithful-move look held' heap' e.tid g
          (λ j l ne real. elim (Bool-cases (p == look l)) [
            | inr away ↦ rw (away, others j l ne) (v.settled j l real)
            | inl own ↦
                let is : look l ≡ p = ground arith in
                rw (own, turn-other c px n e (heap p) j ne, others j l ne)
                  (subst (λ q. Fit (stage j) l (held j l) ((heap q).thread j)) is
                    (v.settled j l real))
          ])
          (λ l real. elim (Bool-cases (p == look l)) [
            | inr away ↦
                let ne : k ≢ l = λ z. ground (arith, here, z, away) in
                rw (away, mine l ne)
                  ((λ a. (v.settled e.tid l real).0 (sub l ne)), (λ d. absurd (ne (at_k l d))))
            | inl own ↦
                let is : look l ≡ p = ground arith in
                let same = apart l is in
                rw own (
                  subst (λ q. Fit g q (held' e.tid q) ((turn c px n e (heap p)).thread e.tid)) same
                    done)
          ])
          (λ l real. real)
          (λ l d z. real_p (sym here ∙ (subst (λ q. look q ≡ null) (sym (at_k l d)) z)))
          (λ j ne real.
            let other : (p == pending (stage j)) ≡ false = ground (arith, off j real) in
            rw other (v.new j real))
          (λ real. absurd (real quiet))
