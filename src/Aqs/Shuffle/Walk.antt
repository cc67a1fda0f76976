-- ===== src/Aqs/Shuffle/Walk.antt =====
-- An uninterrupted call of `shuffle_waiters` returns, and reorders the queue as it should.
use shfllock.Base.{
  ℕ, ◌≡◌, refl, sym, subst, ◌∙◌, fun_ext, inl, inr, true, false, Bool-cases, List, [], ◌∷◌, ◌++◌,
  arith, ◌==◌, ◌&&◌, not, assign,
}
use shfllock.Aqs.Memory.{Ptr, null, AqsMutex, set_next, set_waitcount}
use shfllock.Aqs.Shuffle.{Pc, Locals, step, loop, ready, status, out, leave}
use shfllock.Aqs.Shuffle.Solo.{more, links, Leads, out-Leads, links-waitcount}
use shfllock.Aqs.Queue.{count, Linked, ending, ending-append}
use shfllock.Aqs.Queue.Walk.{
  prev-ne-last, whole, count-mark, count-skip, count-move, Walk, Walk-Linked, Walk-mark, Walk-skip,
  Walk-move,
}
use shfllock.Aqs.Queue.Reorder.{
  Reordered, Reordered-trans, mark-Reordered, skip-Reordered, move-Reordered,
}

module _ (i : ℕ) (G : (Ptr → Ptr) → Type 0) (m : AqsMutex) (l : Locals) (g : G (links m)) where
  pub leave-Leads : (p : Pc) → (step i m p).1 ≡ leave l → (step i m p).0 ≡ m → Leads i G m p
  leave-Leads p e same = more {p = p} (out l.is_next_waiter l.last l.prev) e (
      subst (λ x. Leads i G x (out l.is_next_waiter l.last l.prev)) (sym same)
        (out-Leads i G m l.is_next_waiter l.last l.prev g))

  -- The tests at the end of a round: the loop is left, or goes on.
  pub ready-Leads : Leads i G m (loop l) → Leads i G m (ready l)
  unfolding step
  ready-Leads on = elim (Bool-cases (l.one_shuffle && l.is_next_waiter && (m.locked == 0))) [
    | inl stop ↦ leave-Leads (ready l) (rw stop) refl
    | inr stay ↦ elim (Bool-cases (l.one_shuffle && not l.is_next_waiter)) [
      | inr other ↦ more {p = ready l} (loop l) (rw (stay, other)) on
      | inl own ↦
          more {p = ready l} (status l) (rw (stay, own))
            (elim (Bool-cases ((m.node l.node).lstatus == 0)) [
              | inl waits ↦ more {p = status l} (loop l) (rw waits) on
              | inr first ↦ leave-Leads (status l) (rw first) refl
            ])
    ]
  ]

module _ (i : ℕ) (node : Ptr) (nid_of : Ptr → ℕ) (nid : ℕ) (old : List Ptr) where
  -- The pointers lead through a lawful reordering of the queue.
  abbrev pub Good : (Ptr → Ptr) → Type 0
  Good f = (new : List Ptr) × Linked f node new null × Reordered nid_of nid node old new

  -- What holds at the head of the loop, with `gap` between `last` and `prev` and `cs` ahead.
  pub record At (m : AqsMutex) (l : Locals) (pre gap cs : List Ptr) : Type 0 where
    pub nids : (p : Ptr) → (m.node p).nid ≡ nid_of p
    pub own : l.nid ≡ nid
    pub here : nid_of l.last ≡ nid
    pub prev : l.prev ≡ ending l.last gap
    pub walk : Walk (links m) node null pre l.last gap cs
    pub real : count null (whole pre l.last gap cs) ≡ 0
    pub order : Reordered nid_of nid node old (whole pre l.last gap cs)

  pub At-Good :
      {m : AqsMutex} {l : Locals} {pre gap cs : List Ptr} → At m l pre gap cs → Good (links m)
  At-Good {l} {pre} {gap} {cs} a = (whole pre l.last gap cs, Walk-Linked a.walk, a.order)

  pub skip-At :
      {m : AqsMutex} {l : Locals} {pre gap cs : List Ptr} (c : Ptr)
      → At m l pre gap (c ∷ cs)
      → At m (record l { prev = c }) pre (gap ++ c ∷ []) cs
  skip-At {l} {pre} {gap} {cs} c a = record {
    nids = a.nids;
    own = a.own;
    here = a.here;
    prev = sym (ending-append l.last gap c []);
    walk = Walk-skip a.walk;
    real = count-skip null pre l.last gap c cs ∙ a.real;
    order =
        Reordered-trans nid_of nid node _ _ _ a.order
          (skip-Reordered nid_of nid node pre l.last gap c cs);
  }

  pub mark-At :
      {m : AqsMutex} {l : Locals} {pre gap cs : List Ptr} (c v : ℕ)
      → At m l pre gap (c ∷ cs)
      → nid_of c ≡ nid
      → At
          (set_waitcount m c v)
          (record l { last = c; prev = c; one_shuffle = true })
          (pre ++ (l.last ∷ gap))
          []
          cs
  mark-At {m} {l} {pre} {gap} {cs} c v a same = record {
    nids = λ p. ground (arith, a.nids p, a.nids c);
    own = a.own;
    here = same;
    prev = refl;
    walk =
        subst (λ f. Walk f node null (pre ++ (l.last ∷ gap)) c [] cs) (sym (links-waitcount m c v))
          (Walk-mark a.walk);
    real = count-mark null pre l.last gap c cs ∙ a.real;
    order =
        Reordered-trans nid_of nid node _ _ _ a.order
          (mark-Reordered nid_of nid node pre l.last gap c cs);
  }

  -- The memory behind the stores of a move.
  abbrev pub shifted : AqsMutex → (prev last c d v : ℕ) → AqsMutex
  shifted m prev last c d v =
      let m2 = set_next (set_waitcount m c v) prev d in
      set_next (set_next m2 c (m2.node last).next) last c

  links-shifted :
      (m : AqsMutex) (prev last c d v : ℕ)
      → (prev == last) ≡ false
      → links (shifted m prev last c d v)
        ≡ assign (assign (assign (links m) prev d) c (links m last)) last c
  links-shifted m prev last c d v apart = fun_ext (λ q. ground arith)

  pub move-At :
      {m : AqsMutex} {l : Locals} {pre : List Ptr} {g : Ptr} {gap cs : List Ptr} (c d v : ℕ)
      → At m l pre (g ∷ gap) (c ∷ d ∷ cs)
      → nid_of c ≡ nid
      → At
          (shifted m l.prev l.last c d v)
          (record l { last = c; one_shuffle = true })
          (pre ++ l.last ∷ [])
          (g ∷ gap)
          (d ∷ cs)
  move-At {m} {l} {pre} {g} {gap} {cs} c d v a same = record {
    nids = λ p. ground (arith, a.nids p, a.nids c, a.nids l.prev, a.nids l.last);
    own = a.own;
    here = same;
    prev = a.prev;
    walk =
        subst (λ f. Walk f node null (pre ++ l.last ∷ []) c (g ∷ gap) (d ∷ cs))
          (sym (rw a.prev (links-shifted m (ending g gap) l.last c d v (prev-ne-last a.walk))))
          (Walk-move a.walk);
    real = count-move null pre l.last (g ∷ gap) c (d ∷ cs) ∙ a.real;
    order =
        Reordered-trans nid_of nid node _ _ _ a.order
          (move-Reordered nid_of nid node pre l.last (g ∷ gap) c d cs same);
  }
