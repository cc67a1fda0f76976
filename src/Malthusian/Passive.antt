-- ===== src/Malthusian/Passive.antt =====
-- The passive set of malthusian.c is a list: the abstract view of its doubly linked nodes, and what
-- each operation does to it.
use shfllock.Base.{
  ◌≡◌, ◌≢◌, refl, sym, false, List, [], ◌∷◌, ◌++◌, arith, ◌==◌, assign_other, subst,
}
use shfllock.Malthusian.Memory.{
  Ptr, null, MalthusianMutex, set_next, set_prev, detach, passive_set_pop_back,
  passive_set_pop_front, passive_set_push_front,
}
use shfllock.Malthusian.Chain.{
  Fresh, Distinct, Chain, Chain-frame, Chain-tail, last, Chain-last, last-real, Chain-init,
  Distinct-snoc,
}

-- The passive set holds these nodes, the head first.
pub record Passive (m : MalthusianMutex) (xs : List Ptr) : Type 0 where
  pub chain : Chain m m.passive_set_head null xs
  pub distinct : Distinct xs

-- What the operations leave where the set is not empty, or does not become so.
abbrev pushed : MalthusianMutex → (elem head : Ptr) → MalthusianMutex
pushed m elem head =
    set_prev (record (set_prev (set_next m elem head) elem null) { passive_set_head = elem }) head
      elem

push_front-pushed :
    (m : MalthusianMutex) (elem x : Ptr)
    → m.passive_set_head ≡ x
    → x ≢ null
    → m.passive_set_tail ≢ null
    → passive_set_push_front m elem ≡ pushed m elem x
unfolding passive_set_push_front
push_front-pushed m elem x e ne full =
    let head : x == null ≡ false = ground (arith, ne) in
    let tail : m.passive_set_tail == null ≡ false = ground (arith, full) in rw (e, head, tail)

push_front-Chain :
    (m : MalthusianMutex) (elem : Ptr) (xs : List Ptr)
    → elem ≢ null
    → Fresh elem xs
    → Distinct xs
    → Chain m m.passive_set_head null xs
    → Chain
        (passive_set_push_front m elem)
        (passive_set_push_front m elem).passive_set_head
        null
        (elem ∷ xs)
unfolding passive_set_push_front
push_front-Chain m elem [] ne fresh d c = ground (arith, ne, c)
push_front-Chain m elem (x ∷ xs) ne fresh d c =
    let m' = pushed m elem x in
    let below = assign_other m.next elem x x fresh.0 in
    let rest =
      Chain-frame m m' elem x (m.next x) x xs refl (λ y ny nx. (ground arith, ground arith)) fresh.1
        d.0 c.3 in
    let pushes = push_front-pushed m elem x c.0 c.1 (Chain-tail m (m.next x) x xs c.1 c.3) in
    subst (λ (r : MalthusianMutex). Chain r r.passive_set_head null (elem ∷ x ∷ xs)) (sym pushes)
      (refl, ne, ground (arith, fresh.0), (ground arith, c.1, ground arith, rw below rest))

abbrev popped_front : MalthusianMutex → (x y : Ptr) → MalthusianMutex
popped_front m x y = detach (set_prev (record m { passive_set_head = y }) y null) x

pop_front-popped :
    (m : MalthusianMutex) (x y : Ptr)
    → m.passive_set_head ≡ x
    → x ≢ null
    → m.next x ≡ y
    → y ≢ null
    → passive_set_pop_front m ≡ (popped_front m x y, x)
unfolding passive_set_pop_front
pop_front-popped m x y e nx f ny =
    let head : x == null ≡ false = ground (arith, nx) in
    let front : y == null ≡ false = ground (arith, ny) in rw (e, head, f, front)

pop_front-Chain :
    (m : MalthusianMutex) (x : Ptr) (xs : List Ptr)
    → Distinct (x ∷ xs)
    → Chain m m.passive_set_head null (x ∷ xs)
    → ((passive_set_pop_front m).1 ≡ x)
      × Chain (passive_set_pop_front m).0 (passive_set_pop_front m).0.passive_set_head null xs
unfolding passive_set_pop_front
pop_front-Chain m x [] d c = ground (arith, c)
pop_front-Chain m x (y ∷ ys) d c =
    let m' = popped_front m x y in
    let below = assign_other m.next x null y d.0.0 in
    let rest =
      Chain-frame m m' x y (m.next y) y ys refl (λ z nx ny. (ground arith, ground arith)) d.0.1
        d.1.0 c.3.3 in
    let pops = pop_front-popped m x y c.0 c.1 c.3.0 c.3.1 in
    subst (λ (r : MalthusianMutex × Ptr). (r.1 ≡ x) × Chain r.0 r.0.passive_set_head null (y ∷ ys))
      (sym pops) (refl, (refl, c.3.1, ground (arith, d.0.0), rw below rest))

abbrev popped_back : MalthusianMutex → (x y : Ptr) → MalthusianMutex
popped_back m x y = detach (set_next (record m { passive_set_tail = y }) y null) x

pop_back-popped :
    (m : MalthusianMutex) (x y : Ptr)
    → m.passive_set_tail ≡ x
    → x ≢ null
    → m.prev x ≡ y
    → y ≢ null
    → passive_set_pop_back m ≡ (popped_back m x y, x)
unfolding passive_set_pop_back
pop_back-popped m x y e nx f ny =
    let tail : x == null ≡ false = ground (arith, nx) in
    let back : y == null ≡ false = ground (arith, ny) in rw (e, tail, f, back)

pop_back-Chain :
    (m : MalthusianMutex) (xs : List Ptr) (x : Ptr)
    → Distinct (xs ++ x ∷ [])
    → Chain m m.passive_set_head null (xs ++ x ∷ [])
    → ((passive_set_pop_back m).1 ≡ x)
      × Chain (passive_set_pop_back m).0 (passive_set_pop_back m).0.passive_set_head null xs
unfolding passive_set_pop_back
pop_back-Chain m [] x d c = ground (arith, c)
pop_back-Chain m (y ∷ ys) x d c =
    let l = last y ys in
    let m' = popped_back m x l in
    let ends = Chain-last m m.passive_set_head null x (y ∷ ys) c in
    let real = last-real m (m.next y) y x ys c.1 c.3 in
    let rest =
      Chain-init m m' x m.passive_set_head null y ys refl (ground arith) (λ z nx nl. ground arith)
        (λ z nx. ground arith) d c in
    let pops = pop_back-popped m x l ends.0 ends.1 ends.2 real in
    subst (λ (r : MalthusianMutex × Ptr). (r.1 ≡ x) × Chain r.0 r.0.passive_set_head null (y ∷ ys))
      (sym pops) (refl, rest)

push_front-Passive :
    (m : MalthusianMutex) (elem : Ptr) (xs : List Ptr)
    → Passive m xs
    → elem ≢ null
    → Fresh elem xs
    → Passive (passive_set_push_front m elem) (elem ∷ xs)
push_front-Passive m elem xs v ne fresh = record {
  chain = push_front-Chain m elem xs ne fresh v.distinct v.chain;
  distinct = (fresh, v.distinct);
}

pop_front-Passive :
    (m : MalthusianMutex) (x : Ptr) (xs : List Ptr)
    → Passive m (x ∷ xs)
    → ((passive_set_pop_front m).1 ≡ x) × Passive (passive_set_pop_front m).0 xs
pop_front-Passive m x xs v =
    let (e, c) = pop_front-Chain m x xs v.distinct v.chain in
    (e, record { chain = c; distinct = v.distinct.1 })

-- Where the passive set holds the nodes of a list, and a node that is not NULL and not among them is
-- pushed to its front: the set then holds that node and the list, and `passive_set_pop_front` returns
-- the node and leaves a set that holds the list.
pub pop_front-push_front :
    (m : MalthusianMutex) (elem : Ptr) (xs : List Ptr)
    → Passive m xs
    → elem ≢ null
    → Fresh elem xs
    → Passive (passive_set_push_front m elem) (elem ∷ xs)
      × ((passive_set_pop_front (passive_set_push_front m elem)).1 ≡ elem)
      × Passive (passive_set_pop_front (passive_set_push_front m elem)).0 xs
pop_front-push_front m elem xs v ne fresh =
    let v' = push_front-Passive m elem xs v ne fresh in
    let (e, rest) = pop_front-Passive (passive_set_push_front m elem) elem xs v' in (v', e, rest)

-- Where the passive set holds a list with the node `x` at its end, `passive_set_pop_back` returns
-- `x` and leaves a set that holds the rest of the list.
pub pop_back-Passive :
    (m : MalthusianMutex) (xs : List Ptr) (x : Ptr)
    → Passive m (xs ++ x ∷ [])
    → ((passive_set_pop_back m).1 ≡ x) × Passive (passive_set_pop_back m).0 xs
pop_back-Passive m xs x v =
    let (e, c) = pop_back-Chain m xs x v.distinct v.chain in
    (e, record { chain = c; distinct = Distinct-snoc xs x v.distinct })
