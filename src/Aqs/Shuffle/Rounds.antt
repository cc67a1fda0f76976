-- ===== src/Aqs/Shuffle/Rounds.antt =====
-- The rounds of the loop of `shuffle_waiters`, by induction on the waiters that are ahead.
use shfllock.Base.{
  ℕ, ◌≡◌, ◌≢◌, refl, sym, ap, subst, ◌∙◌, inl, inr, true, false, Bool-cases, List, [], ◌∷◌, arith,
  ◌==◌,
}
use shfllock.Aqs.Memory.{Ptr, null, AqsMutex, set_next, set_waitcount}
use shfllock.Aqs.Shuffle.{
  Pc, Locals, leave, step, loop, at_end, compare, mark, after_curr, mark_moved, unlink, behind_last,
  splice, insert, ready,
}
use shfllock.Aqs.Shuffle.Solo.{more, links, Leads}
use shfllock.Aqs.Shuffle.Walk.{
  leave-Leads, ready-Leads, Good, At, At-Good, skip-At, mark-At, move-At, shifted,
}
use shfllock.Aqs.Queue.Walk.{count-whole}

module _ (i : ℕ) (node : Ptr) (nid_of : Ptr → ℕ) (nid : ℕ) (old : List Ptr) where
  abbrev Goes : AqsMutex → Pc → Type 0
  Goes = Leads i (Good i node nid_of nid old)

  abbrev Ahead : AqsMutex → Locals → List Ptr → List Ptr → List Ptr → Type 0
  Ahead = At i node nid_of nid old

  module _ {m : AqsMutex} {l : Locals} {pre gap cs : List Ptr} (a : Ahead m l pre gap cs) where
    stop : (p : Pc) → (step i m p).1 ≡ leave l → (step i m p).0 ≡ m → Goes m p
    stop = leave-Leads i (Good i node nid_of nid old) m l (At-Good i node nid_of nid old a)

    test : Goes m (loop l) → Goes m (ready l)
    test = ready-Leads i (Good i node nid_of nid old) m l (At-Good i node nid_of nid old a)

  module _ {m : AqsMutex} {l : Locals} {pre gap : List Ptr} {c : Ptr} {cs : List Ptr}
      (a : Ahead m l pre gap (c ∷ cs)) where
    c-ne-null : (c == null) ≡ false
    c-ne-null = ground (arith, a.real, count-whole null pre l.last gap (c ∷ cs))

    next_is_c : links m l.prev ≡ c
    next_is_c = ap (links m) a.prev ∙ a.walk.back.0

    -- One round, given how the loop goes on behind each of its three outcomes.
    round :
        Goes m (loop (record l { prev = c }))
        → (nid_of c ≡ nid
            → Goes
                (set_waitcount m c l.curr_locked_count)
                (loop (record l { last = c; prev = c; one_shuffle = true })))
        → (nid_of c ≡ nid → nid_of l.prev ≢ nid → Goes m (after_curr l c))
        → Goes m (loop l)
    unfolding step
    round skipped marked shift = more {p = loop l} (at_end l (links m l.prev)) refl (
        subst (λ z. Goes m (at_end l z)) (sym next_is_c)
          (elim (Bool-cases (c == m.tail)) [
            | inl last ↦ stop a (at_end l c) (rw (c-ne-null, last)) refl
            | inr inner ↦ more {p = at_end l c} (compare l c) (rw (c-ne-null, inner)) compared
          ]))
      where
        local : ((m.node c).nid == l.nid) ≡ true → nid_of c ≡ nid
        local e = ground (arith, a.nids c, a.own)

        compared : Goes m (compare l c)
        compared = elim (Bool-cases ((m.node c).nid == l.nid)) [
          | inr far ↦
              more {p = compare l c} (ready (record l { prev = c })) (rw far)
                (test (skip-At i node nid_of nid old c a) skipped)
          | inl near ↦ elim (Bool-cases ((m.node l.prev).nid == l.nid)) [
            | inl next ↦ more {p = compare l c} (mark l c) (rw (near, next)) (
                more {p = mark l c} (ready (record l { last = c; prev = c; one_shuffle = true }))
                  refl
                  (test (mark-At i node nid_of nid old c l.curr_locked_count a (local near))
                    (marked (local near))))
            | inr off ↦
                more {p = compare l c} (after_curr l c) (rw (near, off))
                  (shift (local near) (λ e. ground (arith, a.nids l.prev, a.own)))
          ]
        ]

  -- Behind the loop's last waiter there is nothing to relink with.
  no_next :
      {m : AqsMutex} {l : Locals} {pre gap : List Ptr} {c : Ptr}
      → Ahead m l pre gap (c ∷ [])
      → Goes m (after_curr l c)
  unfolding step
  no_next {l} {c} a = stop a (after_curr l c) (rw a.walk.back.1) refl

  -- The stores of a move, and the loop behind them.
  shift :
      {m : AqsMutex} {l : Locals} {pre : List Ptr} {g : Ptr} {gap : List Ptr} {c d : Ptr}
      {cs : List Ptr}
      → Ahead m l pre (g ∷ gap) (c ∷ d ∷ cs)
      → nid_of c ≡ nid
      → Goes
          (shifted i node nid_of nid old m l.prev l.last c d l.curr_locked_count)
          (loop (record l { last = c; one_shuffle = true }))
      → Goes m (after_curr l c)
  unfolding step
  shift {m} {l} {pre} {g} {gap} {c} {d} {cs} a same on =
      let d-ne-null : (d == null) ≡ false =
        ground (arith, a.real, count-whole null pre l.last (g ∷ gap) (c ∷ d ∷ cs)) in
      let m1 = set_waitcount m c l.curr_locked_count in
      let m2 = set_next m1 l.prev d in
      let behind = links m2 l.last in
      more {p = after_curr l c} (mark_moved l c d) (rw (a.walk.back.1.0, d-ne-null)) (
        more {p = mark_moved l c d} (unlink l c d) refl (
          more {p = unlink l c d} (behind_last l c) refl (
            more {p = behind_last l c} (splice l c behind) refl (
              more {p = splice l c behind} (insert l c) refl (
                more {p = insert l c} (ready (record l { last = c; one_shuffle = true })) refl
                  (test (move-At i node nid_of nid old c d l.curr_locked_count a same) on))))))

  -- From the head of the loop the call returns, with the queue reordered.
  pub walk :
      (cs : List Ptr) (m : AqsMutex) (l : Locals) (pre gap : List Ptr)
      → Ahead m l pre gap cs
      → Goes m (loop l)
  unfolding step
  walk [] m l pre gap a =
      let at_null : links m l.prev ≡ null = ap (links m) a.prev ∙ a.walk.back in
      more {p = loop l} (at_end l (links m l.prev)) refl
        (stop a (at_end l (links m l.prev)) (rw at_null) refl)
  walk (c ∷ []) m l pre gap a =
      round a (walk [] m _ _ _ (skip-At i node nid_of nid old c a))
        (λ e. walk [] _ _ _ _ (mark-At i node nid_of nid old c l.curr_locked_count a e))
        (λ e ne. no_next a)
  walk (c ∷ d ∷ cs) m l pre [] a =
      round a (walk (d ∷ cs) m _ _ _ (skip-At i node nid_of nid old c a))
        (λ e. walk (d ∷ cs) _ _ _ _ (mark-At i node nid_of nid old c l.curr_locked_count a e))
        (λ e ne. absurd (ne (ap nid_of a.prev ∙ a.here)))
  walk (c ∷ d ∷ cs) m l pre (g ∷ gap) a =
      round a (walk (d ∷ cs) m _ _ _ (skip-At i node nid_of nid old c a))
        (λ e. walk (d ∷ cs) _ _ _ _ (mark-At i node nid_of nid old c l.curr_locked_count a e))
        (λ e ne.
          shift a e
            (walk (d ∷ cs) _ _ _ _ (move-At i node nid_of nid old c d l.curr_locked_count a e)))
