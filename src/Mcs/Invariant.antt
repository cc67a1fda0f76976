-- ===== src/Mcs/Invariant.antt =====
-- The queue stays as it must be behind every move of every thread.
use shfllock.Base.{ℕ, suc, ◌<◌, ◌≡◌, ◌≢◌, refl, ap, ◌∙◌, subst, true, false, arith, assign}
use shfllock.Atomic.{locked}
use shfllock.Mcs.Memory.{Ptr, null, node_of, McsMutex, set_tail}
use shfllock.Mcs.Line.{same_place}
use shfllock.Mcs.Stage.{
  Stage, out, ready, armed, arriving, linking, holding, sure, waking, within, late, Change, rest,
  clear, arm, abandon, abandon_armed, take, take_armed, queue, queue_armed, arm_late, link, acquire,
  see, pick, peek, depart, wake,
}
use shfllock.Mcs.Facts.{
  is_first, follower, before, Fact, FactOf, Fact-second, Fact-served, served, Inv,
}
use shfllock.Mcs.Moves.{steady, link-Inv, enter-Inv, depart-Inv, wake-Inv}

module _ {n : ℕ} {m : McsMutex} {stage : ℕ → Stage} (v : Inv n m stage) (i : ℕ) (low : i < n) where
  -- What the invariant says of thread `i`, where its stage is known.
  fact : {s : Stage} → stage i ≡ s → FactOf m v.places stage i s
  fact e = subst (FactOf m v.places stage i) e (v.each i low)

  -- A thread takes the lock or queues.
  first-Inv :
      {s : Stage}
      → stage i ≡ s
      → within s ≡ false
      → m.next (node_of i) ≡ null
      → m.tail ≡ null
      → Inv n (set_tail m (node_of i)) (assign stage i holding)
  first-Inv e w nx t =
      enter-Inv v i low holding (ap within e ∙ w) refl (λ x. ground (arith, v.tail, t, x))
        (ground (arith, nx, v.tail, t, v.line.order))

  pub transition-Inv :
      {s s' : Stage} {m' : McsMutex}
      → stage i ≡ s
      → Change i m s m' s'
      → Inv n m' (assign stage i s')
  transition-Inv {s} e rest =
      steady v i low m s refl (λ j ne. (refl, refl)) (ap within e) (ap late e) (fact e)
  transition-Inv e clear =
      steady v i low _ ready refl (λ j ne. (ground (arith, ne), refl)) (ap within e) (ap late e)
        (ground arith)
  transition-Inv e arm =
      steady v i low _ armed refl (λ j ne. (ground (arith, ne), ground (arith, ne))) (ap within e)
        (ap late e) (ground arith)
  transition-Inv e abandon =
      steady v i low m out refl (λ j ne. (refl, refl)) (ap within e) (ap late e) tt
  transition-Inv e abandon_armed =
      steady v i low m out refl (λ j ne. (refl, refl)) (ap within e) (ap late e) tt
  transition-Inv e (take t) = first-Inv e refl (fact e) t
  transition-Inv e (take_armed t) = first-Inv e refl (fact e).0 t
  transition-Inv e (queue t) =
      enter-Inv v i low (arriving m.tail) (ap within e) refl (λ x. refl)
        (let nx : m.next (node_of i) ≡ null = fact e in ground (arith, nx, v.tail, t, v.line.order))
  transition-Inv e (queue_armed t) =
      enter-Inv v i low (linking m.tail) (ap within e) refl (λ x. refl)
        (let f = fact e in ground (arith, f, v.tail, t, v.line.order))
  transition-Inv e (arm_late {p}) =
      let f = fact e in
      steady v i low _ (linking p) refl (λ j ne. (refl, ground (arith, ne))) (ap within e)
        (ap late e) (ground (arith, f))
  transition-Inv e (link {p}) = link-Inv v i low p e
  transition-Inv e (acquire w t) =
      let f = fact e in
      steady v i low _ holding refl (λ j ne. (refl, ground (arith, ne))) (ap within e) (ap late e)
        (ground (arith, f, t))
  transition-Inv e (see t) =
      let f = fact e in
      steady v i low m sure refl (λ j ne. (refl, refl)) (ap within e) (ap late e) ((f.0, f.1, t))
  transition-Inv e pick =
      let f = fact e in
      steady v i low m (waking (m.next (node_of i))) refl (λ j ne. (refl, refl)) (ap within e)
        (ap late e) ((f.0, f.1, f.2, refl))
  transition-Inv e (peek t) =
      let f = fact e in
      steady v i low m (waking (m.next (node_of i))) refl (λ j ne. (refl, refl)) (ap within e)
        (ap late e) ((f.0, f.1, t, refl))
  transition-Inv e (depart t) =
      depart-Inv v i low (ap within e) (let f = fact e in ground (arith, f)) t
  transition-Inv e (wake {q}) =
      let f = fact e in wake-Inv v i low (ap within e) (ground (arith, f)) q f.0 f.2 f.3

  -- The thread that is to be woken has found its word LOCKED.
  pub waking-locked : {q : Ptr} → stage i ≡ waking q → m.spin q ≡ locked
  waking-locked {q} e =
      let f = fact e in
      let p = v.places in
      let k = p.owner (suc (p.place i)) in
      let here = v.line.placed i low (ap within e) in
      let inner : suc (p.place i) < p.back = ground (arith, f) in
      let there = v.line.owned (suc (p.place i)) (omega (arith, here)) inner in
      let on_time : late (stage k) ≡ false = ground (arith, f) in
      let later : is_first p stage k ≡ false = ground (arith, f, there) in
      let q_is : q ≡ node_of k = ground (arith, f) in
      let second =
        subst
          (λ b.
            Fact (m.next (node_of k)) (m.spin (node_of k)) (follower p stage k) b (before p stage k)
              (stage k))
          later (v.each k there.0) in
      rw q_is (Fact-second _ _ _ _ (stage k) on_time there.1 second)

-- Two threads do not hold the lock together.
pub holding-exclusive :
    {n : ℕ} {m : McsMutex} {stage : ℕ → Stage}
    → Inv n m stage
    → (i j : ℕ) → i < n
    → j < n
    → stage i ≡ holding
    → stage j ≡ holding
    → i ≡ j
holding-exclusive v i j hi hj ei ej =
    let fi = fact v i hi ei in
    let fj = fact v j hj ej in
    same_place v.line i j hi hj (ap within ei) (ap within ej) (ground (arith, fi, fj))

-- Where the queue is not empty, it is its first thread's turn.
pub first-served :
    {n : ℕ} {m : McsMutex} {stage : ℕ → Stage}
    → Inv n m stage
    → m.tail ≢ null
    → (k : ℕ) × (k < n) × (served (m.spin (node_of k)) (stage k) ≡ true)
first-served {m} {stage} v t =
    let p = v.places in
    let k = p.owner p.front in
    let there = v.line.owned p.front (omega arith) (ground (arith, v.tail, t, v.line.order)) in
    let first : is_first p stage k ≡ true = ground (arith, there) in
    (
      k,
      there.0,
      Fact-served _ _ _ _ (stage k) there.1 (
          subst
            (λ b.
              Fact (m.next (node_of k)) (m.spin (node_of k)) (follower p stage k) b
                (before p stage k) (stage k))
            first (v.each k there.0)),
    )

-- Nobody is in the line of a new lock.
pub start-Inv :
    (n : ℕ) (m : McsMutex) (stage : ℕ → Stage)
    → m.tail ≡ null
    → ((j : ℕ) → stage j ≡ out)
    → Inv n m stage
start-Inv n m stage t o = record {
  places = record { front = 0; back = 0; place = λ j. 0; owner = λ k. 0 };
  line = record {
    order = omega arith;
    placed = λ j h e. absurd (ground (arith, o j, e));
    owned = λ k a b. absurd (omega arith);
  };
  tail = t;
  each = λ j h. rw (o j) tt;
}
