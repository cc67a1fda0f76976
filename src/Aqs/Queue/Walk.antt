-- ===== src/Aqs/Queue/Walk.antt =====
-- Where a shuffler stands in the queue: the chain up to its last marked waiter, the waiters between
-- that one and the one it looked at last, and the rest.
use shfllock.Base.{◌+◌, ◌≤◌, ◌≡◌, refl, subst, List, [], ◌∷◌, ◌++◌, false, arith, ◌==◌, assign}
use shfllock.Aqs.Memory.{Ptr}
use shfllock.Aqs.Queue.{
  count, IsDistinct, Linked, ending, count-append, ending-append, count-ending, Linked-append,
  Linked-assign, Linked-relink,
}

abbrev pub whole : List Ptr → Ptr → List Ptr → List Ptr → List Ptr
whole pre last gap cs = pre ++ (last ∷ (gap ++ cs))

-- `prev` of the source is the last node of `last ∷ gap`.
pub record Walk (f : Ptr → Ptr) (node stop : Ptr) (pre : List Ptr) (last : Ptr) (gap cs : List Ptr)
    : Type 0 where
  pub front : Linked f node pre last
  pub middle : Linked f (f last) gap (f (ending last gap))
  pub back : Linked f (f (ending last gap)) cs stop
  pub distinct : IsDistinct (whole pre last gap cs)

pub count-whole :
    (p : Ptr) (pre : List Ptr) (last : Ptr) (gap cs : List Ptr)
    → count p (whole pre last gap cs) ≡ count p pre + count p (last ∷ []) + count p gap + count p cs
count-whole p pre last gap cs =
    ground (arith, count-append p pre (last ∷ (gap ++ cs)), count-append p gap cs)

pub count-mark :
    (p : Ptr) (pre : List Ptr) (last : Ptr) (gap : List Ptr) (c : Ptr) (cs : List Ptr)
    → count p (whole (pre ++ (last ∷ gap)) c [] cs) ≡ count p (whole pre last gap (c ∷ cs))
count-mark p pre last gap c cs = ground (
  arith,
  count-whole p pre last gap (c ∷ cs),
  count-whole p (pre ++ (last ∷ gap)) c [] cs,
  count-append p pre (last ∷ gap),
)

pub count-skip :
    (p : Ptr) (pre : List Ptr) (last : Ptr) (gap : List Ptr) (c : Ptr) (cs : List Ptr)
    → count p (whole pre last (gap ++ c ∷ []) cs) ≡ count p (whole pre last gap (c ∷ cs))
count-skip p pre last gap c cs = ground (
  arith,
  count-whole p pre last gap (c ∷ cs),
  count-whole p pre last (gap ++ c ∷ []) cs,
  count-append p gap (c ∷ []),
)

pub count-move :
    (p : Ptr) (pre : List Ptr) (last : Ptr) (gap : List Ptr) (c : Ptr) (cs : List Ptr)
    → count p (whole (pre ++ last ∷ []) c gap cs) ≡ count p (whole pre last gap (c ∷ cs))
count-move p pre last gap c cs = ground (
  arith,
  count-whole p pre last gap (c ∷ cs),
  count-whole p (pre ++ last ∷ []) c gap cs,
  count-append p pre (last ∷ []),
)

module _ {f : Ptr → Ptr} {node stop : Ptr} {pre : List Ptr} {last : Ptr} {gap : List Ptr} where
  -- All of it is one chain.
  pub Walk-Linked :
      {cs : List Ptr}
      → Walk f node stop pre last gap cs
      → Linked f node (whole pre last gap cs) stop
  Walk-Linked {cs} w =
      Linked-append f node pre last (last ∷ (gap ++ cs)) stop w.front
        (refl, Linked-append f (f last) gap (f (ending last gap)) cs stop w.middle w.back)

  -- The next waiter is marked where it stands.
  pub Walk-mark :
      {c : Ptr} {cs : List Ptr}
      → Walk f node stop pre last gap (c ∷ cs)
      → Walk f node stop (pre ++ (last ∷ gap)) c [] cs
  Walk-mark {c} {cs} w = record {
    front =
        Linked-append f node pre last (last ∷ gap) c w.front
          (refl, subst (λ z. Linked f (f last) gap z) w.back.0 w.middle);
    middle = refl;
    back = w.back.1;
    distinct = λ p. ground (arith, w.distinct p, count-mark p pre last gap c cs);
  }

  -- The next waiter is passed over.
  pub Walk-skip :
      {c : Ptr} {cs : List Ptr}
      → Walk f node stop pre last gap (c ∷ cs)
      → Walk f node stop pre last (gap ++ c ∷ []) cs
  Walk-skip {c} {cs} w = record {
    front = w.front;
    middle = rw (ending-append last gap c []) (
        Linked-append f (f last) gap (f (ending last gap)) (c ∷ []) (f c) w.middle
          (w.back.0, refl));
    back = rw (ending-append last gap c []) w.back.1;
    distinct = λ p. ground (arith, w.distinct p, count-skip p pre last gap c cs);
  }

module _ {f : Ptr → Ptr} {node stop : Ptr} {pre : List Ptr} {last g : Ptr} {gap : List Ptr}
    {c d : Ptr} {cs : List Ptr} (w : Walk f node stop pre last (g ∷ gap) (c ∷ d ∷ cs)) where
  abbrev pub prev : Ptr
  prev = ending g gap

  -- The three stores of a move: `prev->next = next; curr->next = last->next; last->next = curr`.
  abbrev pub moved : Ptr → Ptr
  moved = assign (assign (assign f prev d) c (f last)) last c

  -- What the three nodes are not.
  record Apart : Type 0 where
    prev_last : (prev == last) ≡ false
    prev_c : (prev == c) ≡ false
    c_last : (c == last) ≡ false
    prev_pre : count prev pre ≡ 0
    c_pre : count c pre ≡ 0
    last_pre : count last pre ≡ 0
    c_gap : count c (g ∷ gap) ≡ 0
    last_gap : count last (g ∷ gap) ≡ 0
    prev_rest : count prev (d ∷ cs) ≡ 0
    c_rest : count c (d ∷ cs) ≡ 0
    last_rest : count last (d ∷ cs) ≡ 0

  apart : Apart
  apart =
      let n = count-whole in
      let i : 1 ≤ count prev (g ∷ gap) = count-ending g gap in
      let at_prev = count-whole prev pre last (g ∷ gap) (c ∷ d ∷ cs) in
      let at_c = count-whole c pre last (g ∷ gap) (c ∷ d ∷ cs) in
      let at_last = count-whole last pre last (g ∷ gap) (c ∷ d ∷ cs) in
      record {
        prev_last = ground (arith, w.distinct prev, at_prev, i);
        prev_c = ground (arith, w.distinct prev, at_prev, i);
        c_last = ground (arith, w.distinct c, at_c);
        prev_pre = ground (arith, w.distinct prev, at_prev, i);
        c_pre = ground (arith, w.distinct c, at_c);
        last_pre = ground (arith, w.distinct last, at_last);
        c_gap = ground (arith, w.distinct c, at_c);
        last_gap = ground (arith, w.distinct last, at_last);
        prev_rest = ground (arith, w.distinct prev, at_prev, i);
        c_rest = ground (arith, w.distinct c, at_c);
        last_rest = ground (arith, w.distinct last, at_last);
      }

  pub prev-ne-last : (prev == last) ≡ false
  prev-ne-last = apart.prev_last

  moved_last : moved last ≡ c
  moved_last = ground arith

  moved_c : moved c ≡ f last
  moved_c = ground (arith, apart.c_last)

  moved_prev : moved prev ≡ d
  moved_prev = ground (arith, apart.prev_last, apart.prev_c)

  gap-IsDistinct : IsDistinct (g ∷ gap)
  gap-IsDistinct p = ground (arith, w.distinct p, count-whole p pre last (g ∷ gap) (c ∷ d ∷ cs))

  -- The three stores do nothing to a chain that has none of the three nodes.
  Linked-moved :
      (x : Ptr) (ps : List Ptr) (y : Ptr)
      → count prev ps ≡ 0
      → count c ps ≡ 0
      → count last ps ≡ 0
      → Linked f x ps y
      → Linked moved x ps y
  Linked-moved x ps y np nc nl l =
      Linked-assign (assign (assign f prev d) c (f last)) x ps y last c nl
        (Linked-assign (assign f prev d) x ps y c (f last) nc (Linked-assign f x ps y prev d np l))

  -- The next waiter is moved behind the last marked one.
  pub Walk-move : Walk moved node stop (pre ++ last ∷ []) c (g ∷ gap) (d ∷ cs)
  Walk-move = record {
    front =
        Linked-append moved node pre last (last ∷ []) c
          (Linked-moved node pre last apart.prev_pre apart.c_pre apart.last_pre w.front)
          (refl, moved_last);
    middle =
        rw (moved_c, moved_prev)
          (Linked-assign (assign (assign f prev d) c (f last)) (f last) (g ∷ gap) d last c
            apart.last_gap
            (Linked-assign (assign f prev d) (f last) (g ∷ gap) d c (f last) apart.c_gap
              (Linked-relink f (f last) g gap (f prev) d gap-IsDistinct w.middle)));
    back = rw moved_prev (
        Linked-moved d (d ∷ cs) stop apart.prev_rest apart.c_rest apart.last_rest
          (refl, w.back.1.1));
    distinct = λ p. ground (arith, w.distinct p, count-move p pre last (g ∷ gap) c (d ∷ cs));
  }
