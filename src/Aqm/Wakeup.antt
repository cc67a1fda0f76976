-- ===== src/Aqm/Wakeup.antt =====
-- A waiter that sleeps in `park_waiter` is woken once its status is no longer PARKED.
use shfllock.Base.{ℕ, subst, sym, ◌<◌, ◌≡◌, ◌≢◌, inl, inr, ◌⊎◌, true, Bool-cases, List, arith, ◌==◌}
use shfllock.Protocol.Code.{Op, State, move, start}
use shfllock.Aqs.Memory.{Ptr, node_of}
use shfllock.Protocol.Induct.{moved, run-keeps}
use shfllock.Aqm.Cares.{wakes, sleeps, asleep-idle, move-Cares, move-own}
use shfllock.Protocol.Wrapper
use shfllock.Protocol.Wrapper.{Posix}
use shfllock.Protocol.Refinement.{view_of, wrapped-all}
use shfllock.Aqm.Memory.{AqmMutex, parked}
use shfllock.Aqm.Mutex.{Pc, Input, aqm, create, mutex}

-- Whether the waiter of node `q` is still PARKED, has been woken, or is about to be.
abbrev pub Minded : ℕ → State AqmMutex Pc → Ptr → Type 0
Minded n s q =
    ((s.mem.node q).lstatus ≡ parked)
    ⊎ (((s.mem.node q).pstate ≡ 1) ⊎ ((k : ℕ) × (k < n) × (wakes q (s.view k) ≡ true)))

module _ (cpus nodes : ℕ) where
  abbrev Inv : ℕ → State AqmMutex Pc → Type 0
  Inv n s = (j : ℕ) → j < n → sleeps (s.view j) ≡ true → Minded n s (node_of j)

  -- The step of another thread.
  moved-other :
      (n i : ℕ) (x : Input) (o : Op) (s : State AqmMutex Pc) (q : Ptr)
      → i < n
      → q ≢ node_of i
      → Minded n s q
      → Minded n (moved (aqm cpus nodes) i x o s) q
  moved-other n i x o s q low ne (inl e) =
      elim ((move-Cares cpus nodes i x o s.mem (s.view i) q ne).marked e) [
        | inl still ↦ inl still
        | inr waker ↦ inr (inr (i, low, ground arith))
      ]
  moved-other n i x o s q low ne (inr (inl e)) =
      inr (inl ((move-Cares cpus nodes i x o s.mem (s.view i) q ne).stays e))
  moved-other n i x o s q low ne (inr (inr (k, lk, e))) = elim (Bool-cases (i == k)) [
    | inl own ↦
        let same : i ≡ k = ground arith in
        inr (inl ((move-Cares cpus nodes i x o s.mem (s.view i) q ne).done (rw same e)))
    | inr apart ↦ inr (inr (k, lk, rw apart e))
  ]

  -- The step of the waiter itself.
  moved-own :
      (n i : ℕ) (x : Input) (o : Op) (s : State AqmMutex Pc)
      → Inv n s
      → i < n
      → sleeps (move (aqm cpus nodes) i x o s.mem (s.view i)).1 ≡ true
      → Minded n (moved (aqm cpus nodes) i x o s) (node_of i)
  moved-own n i x o s v low e = elim (move-own cpus nodes i x o s.mem (s.view i) e) [
    | inl parks ↦ inl parks
    | inr (was, same_pstate, same_lstatus) ↦ elim (v i low was) [
      | inl e1 ↦ inl (cc (same_lstatus, e1))
      | inr (inl e2) ↦ inr (inl (cc (same_pstate, e2)))
      | inr (inr (k, lk, e3)) ↦ elim (Bool-cases (i == k)) [
        | inl own ↦
            let same : i ≡ k = ground arith in
            let self : wakes (node_of i) (s.view i) ≡ true =
              subst (λ w. wakes (node_of i) (s.view w) ≡ true) (sym same) e3 in
            absurd (cc (asleep-idle (node_of i) (s.view i) was, self))
        | inr apart ↦ inr (inr (k, lk, rw apart e3))
      ]
    ]
  ]

  moved-Inv :
      (n i : ℕ) (x : Input) (o : Op) (s : State AqmMutex Pc)
      → i < n
      → Inv n s
      → Inv n (moved (aqm cpus nodes) i x o s)
  moved-Inv n i x o s low v j hj e = elim (Bool-cases (i == j)) [
    | inl own ↦
        let same : i ≡ j = ground arith in
        subst (λ w. Minded n (moved (aqm cpus nodes) i x o s) (node_of w)) same
          (moved-own n i x o s v low (ground arith))
    | inr apart ↦
        let old : sleeps (s.view j) ≡ true = rw apart at e in
        moved-other n i x o s (node_of j) low (ground arith) (v j hj old)
  ]

  start-Inv : (n : ℕ) (m : AqmMutex) → Inv n (start m)
  start-Inv n m j hj e = absurd (cc e)

  -- Whatever the schedule, the kernel and the POSIX library do: where a thread has parked itself and
  -- its status is no longer PARKED, because it was handed the lock or a shuffler marked it, either
  -- its futex word is 1 already or another thread is at the point of waking it.
  pub aqm_wakeup_not_lost :
      {X : Type 0} (px : Posix X) (n : ℕ) (es : List (Wrapper.Event Input)) (j : ℕ)
      → j < n
      → sleeps (view_of ((mutex cpus nodes px n es).thread j)) ≡ true
      → ((mutex cpus nodes px n es).mem.node (node_of j)).lstatus ≢ parked
      → (((mutex cpus nodes px n es).mem.node (node_of j)).pstate ≡ 1)
        ⊎ ((k : ℕ) × (k < n)
            × (wakes (node_of j) (view_of ((mutex cpus nodes px n es).thread k)) ≡ true))
  unfolding mutex create
  aqm_wakeup_not_lost px n es j hj e awake =
      elim (wrapped-all (aqm cpus nodes) px n create (Inv n)
        (λ fs.
          run-keeps (aqm cpus nodes) n (Inv n) (moved-Inv n) fs (start create) (start-Inv n create))
        es j hj e) [ inl still ↦ absurd (awake still) | inr rest ↦ rest ]
