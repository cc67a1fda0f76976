-- ===== src/Aqs/Queue/Reorder.antt =====
-- What a shuffler may do to the order of the queue.
use mathlib.Core.List.{append_assoc}
use mathlib.Core.Path.{◌≡⟨◌⟩◌, ◌∎}
use shfllock.Base.{ℕ, ◌≡◌, refl, sym, ap, ◌∙◌, List, [], ◌∷◌, ◌++◌, arith, ◌==◌, if◌then◌else◌}
use shfllock.Aqs.Memory.{Ptr}
use shfllock.Aqs.Queue.{count, ending, ending-append}
use shfllock.Aqs.Queue.Walk.{whole, count-move}

module _ (nid_of : Ptr → ℕ) (nid : ℕ) where
  -- The waiters of the other NUMA nodes, in order.
  pub remote : List Ptr → List Ptr
  remote [] = []
  remote (p ∷ ps) = if nid_of p == nid then remote ps else p ∷ remote ps

  -- The queue `new` has the waiters of `old`, ends with the same one, and has those of the other
  -- NUMA nodes in the same order.
  pub record Reordered (node : Ptr) (old new : List Ptr) : Type 0 where
    pub same : (p : Ptr) → count p new ≡ count p old
    pub order : remote new ≡ remote old
    pub end : ending node new ≡ ending node old

  pub Reordered-refl : (node : Ptr) (ps : List Ptr) → Reordered node ps ps
  Reordered-refl node ps = record { same = λ p. refl; order = refl; end = refl }

  pub Reordered-trans :
      (node : Ptr) (a b c : List Ptr) → Reordered node a b → Reordered node b c → Reordered node a c
  Reordered-trans node a b c r s = record {
    same = λ p. s.same p ∙ r.same p;
    order = s.order ∙ r.order;
    end = s.end ∙ r.end;
  }

  remote-append : (ps qs : List Ptr) → remote (ps ++ qs) ≡ remote ps ++ remote qs
  unfolding remote
  remote-append [] qs = refl
  remote-append (p ∷ ps) qs = ground (arith, remote-append ps qs)

  remote-local : (c : Ptr) (ps : List Ptr) → nid_of c ≡ nid → remote (c ∷ ps) ≡ remote ps
  unfolding remote
  remote-local c ps e = ground arith

  module _ (node : Ptr) (pre : List Ptr) (last : Ptr) (gap : List Ptr) (c : Ptr)
      (cs : List Ptr) where
    pub mark-Reordered :
        Reordered node (whole pre last gap (c ∷ cs)) (whole (pre ++ (last ∷ gap)) c [] cs)
    mark-Reordered = rw (append_assoc) (Reordered-refl node (whole pre last gap (c ∷ cs)))

    pub skip-Reordered :
        Reordered node (whole pre last gap (c ∷ cs)) (whole pre last (gap ++ c ∷ []) cs)
    skip-Reordered = rw (append_assoc) (Reordered-refl node (whole pre last gap (c ∷ cs)))

  order-move :
      (ps gap : List Ptr) (c : Ptr) (ds : List Ptr)
      → nid_of c ≡ nid
      → remote (ps ++ (c ∷ (gap ++ ds))) ≡ remote (ps ++ (gap ++ c ∷ ds))
  order-move ps gap c ds here =
      remote (ps ++ (c ∷ (gap ++ ds)))
      ≡⟨ remote-append ps (c ∷ (gap ++ ds)) ⟩ remote ps ++ remote (c ∷ (gap ++ ds))
      ≡⟨ ap (λ x. remote ps ++ x) (remote-local c (gap ++ ds) here ∙ remote-append gap ds) ⟩
        remote ps ++ (remote gap ++ remote ds)
      ≡⟨ ap (λ x. remote ps ++ (remote gap ++ x)) (sym (remote-local c ds here)) ⟩
        remote ps ++ (remote gap ++ remote (c ∷ ds))
      ≡⟨ ap (λ x. remote ps ++ x) (sym (remote-append gap (c ∷ ds)))
        ∙ sym (remote-append ps (gap ++ c ∷ ds)) ⟩
        remote (ps ++ (gap ++ c ∷ ds)) ∎

  -- Moving a waiter of the shuffler's own NUMA node forward is allowed, unless it is the last one.
  pub move-Reordered :
      (node : Ptr) (pre : List Ptr) (last : Ptr) (gap : List Ptr) (c d : Ptr) (cs : List Ptr)
      → nid_of c ≡ nid
      → Reordered node (whole pre last gap (c ∷ d ∷ cs)) (whole (pre ++ last ∷ []) c gap (d ∷ cs))
  move-Reordered node pre last gap c d cs here = record {
    same = λ p. count-move p pre last gap c (d ∷ cs);
    order =
        order-move (pre ++ last ∷ []) gap c (d ∷ cs) here
        ∙ ap remote (append_assoc pre (last ∷ []) (gap ++ c ∷ d ∷ cs));
    end =
        ending-append node (pre ++ last ∷ []) c (gap ++ d ∷ cs)
        ∙ ending-append c gap d cs
        ∙ sym (ending-append node pre last (gap ++ c ∷ d ∷ cs) ∙ ending-append last gap c (d ∷ cs));
  }
