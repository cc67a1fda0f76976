-- ===== src/Malthusian/Steps.antt =====
-- Every step of malthusian.c moves the token as it must, whatever stands in the queue and in the
-- passive set.
use shfllock.Base.{
  ℕ, ◌≡◌, ◌≢◌, refl, inl, inr, Bool-cases, Option, none, some, List, ◌<◌, arith, ◌==◌, assign,
}
use shfllock.Aqs.Memory.{xor_random}
use shfllock.Atomic.{locked}
use shfllock.Waiting.{
  Policy, Futex, entry, sleep_step, wake_step, sleep_step-wait, sleep_step-return,
}
use shfllock.Waiting
use shfllock.Malthusian.Memory.{
  Ptr, null, node_of, MalthusianMutex, set_tail, set_next, set_spin, passive_set_pop_back,
  passive_set_pop_front, passive_set_push_front, create,
}
use shfllock.Malthusian.Mutex.{
  Pc, prepare, swap_tail, link, sleep, try_prepare, try_swap, random, pop_back, insert_tail,
  insert_last, insert_wait, insert_next, has_next, pop_front, clear_tail, wait_next, surplus,
  wait_second, push_front, relink, read_next, wake, slept, step, malthusian, mutex,
}
use shfllock.Protocol.Code.{outside, at, inside, dead, after}
use shfllock.Protocol.Cases.{move-cases}
use shfllock.Protocol.Token.{leave}
use shfllock.Protocol.Handover.{Moves, HandoverLaws, handover-exclusive}
use shfllock.Protocol.Wrapper
use shfllock.Protocol.Wrapper.{Posix}
use shfllock.Protocol.Refinement.{view_of}
use shfllock.Malthusian.Moves.{
  holds, vacant, Fact, Fact-keeps, reads, writes, own_spin, enters, hands, pop_back_spares,
  pop_front_spares, push_front_spares,
}

module _ (w : Policy) (i : ℕ) (y : Futex) (m : MalthusianMutex) where
  abbrev Goal : Pc → Type 0
  Goal q =
      Fact i m (at q)
      → Moves holds vacant Fact i m (at q) (step w i y m q).0 (after (step w i y m q).1)

  swap_tail-Moves : Goal swap_tail
  unfolding step
  swap_tail-Moves f = elim (Bool-cases (m.tail == null)) [
    | inl e ↦
        rw e (enters i m (at swap_tail) (set_tail m (node_of i)) (ground arith) (omega arith) refl)
    | inr e ↦ rw e (
        writes i m (at swap_tail) (set_tail m (node_of i)) (at (link m.tail)) refl
          (λ z. ground arith) (omega arith) tt)
  ]

  try_swap-Moves : Goal try_swap
  unfolding step
  try_swap-Moves f = elim (Bool-cases (m.tail == null)) [
    | inl e ↦
        rw e (enters i m (at try_swap) (set_tail m (node_of i)) (ground arith) (omega arith) refl)
    | inr e ↦ rw e (reads i m (at try_swap) outside (omega arith) tt)
  ]

  slept-Moves :
      (p : Waiting.Pc) (r : ℕ × Option Waiting.Pc)
      → (r.1 ≡ none → m.spin (node_of i) ≢ locked)
      → ((q : Waiting.Pc) → r.1 ≡ some q → r.0 ≡ m.spin (node_of i))
      → Moves holds vacant Fact i m (at (sleep p)) (set_spin m (node_of i) r.0) (after (slept r.1))
  slept-Moves p (value, none) done waits =
      own_spin i m (at (sleep p)) (set_spin m (node_of i) value) value inside refl refl
        (ground (arith, done refl)) tt
  slept-Moves p (value, some q) done waits =
      own_spin i m (at (sleep p)) (set_spin m (node_of i) value) value (at (sleep q)) refl refl
        (ground (arith, waits q refl)) tt

  sleep-Moves : (p : Waiting.Pc) → Goal (sleep p)
  unfolding step
  sleep-Moves p f =
      let var = m.spin (node_of i) in
      slept-Moves p (sleep_step y var p) (sleep_step-return y var p)
        (λ q. sleep_step-wait y var p q)

  insert_tail-Moves : (elem : Ptr) → Goal (insert_tail elem)
  unfolding step
  insert_tail-Moves elem f = elim (Bool-cases (m.tail == node_of i)) [
    | inl e ↦ rw e (
        writes i m (at (insert_tail elem)) (set_tail m elem) (at (insert_last elem)) refl
          (λ z. ground (arith, f)) (omega arith) tt)
    | inr e ↦ rw e (reads i m (at (insert_tail elem)) (at (insert_wait elem)) (omega arith) tt)
  ]

  insert_wait-Moves : (elem : Ptr) → Goal (insert_wait elem)
  unfolding step
  insert_wait-Moves elem f = elim (Bool-cases (m.next (node_of i) == null)) [
    | inl e ↦ rw e (reads i m (at (insert_wait elem)) (at (insert_wait elem)) (omega arith) tt)
    | inr e ↦ rw e (
        writes i m (at (insert_wait elem)) (set_next m elem (m.next (node_of i)))
          (at (insert_next elem)) refl (λ z. z) (omega arith) tt)
  ]

  clear_tail-Moves : Goal clear_tail
  unfolding step
  clear_tail-Moves f = elim (Bool-cases (m.tail == node_of i)) [
    | inl e ↦ rw e (record {
      change = leave (λ j ne w. refl) refl refl;
      own = tt;
      others = λ j ne w only g. Fact-keeps j m (set_tail m null) w g;
    })
    | inr e ↦ rw e (reads i m (at clear_tail) (at wait_next) (omega arith) tt)
  ]

  wake-Moves : (p : Ptr) → Goal (wake p)
  unfolding step
  wake-Moves p f = elim (Bool-cases (wake_step w (m.spin p)).1) [
    | inl e ↦
        rw e (hands i m (at (wake p)) p (wake_step w (m.spin p)).0 outside refl (λ b. refl) tt)
    | inr e ↦ rw e (hands i m (at (wake p)) p (wake_step w (m.spin p)).0 dead refl (λ b. refl) tt)
  ]

  step-Moves : (q : Pc) → Goal q
  unfolding step
  step-Moves prepare f =
      own_spin i m (at prepare) (set_spin (set_next m (node_of i) null) (node_of i) locked) locked
        (at swap_tail) refl refl (omega arith) tt
  step-Moves try_prepare f =
      own_spin i m (at try_prepare) (set_spin (set_next m (node_of i) null) (node_of i) locked)
        locked (at try_swap) refl refl (omega arith) tt
  step-Moves swap_tail f = swap_tail-Moves f
  step-Moves try_swap f = try_swap-Moves f
  step-Moves (link t) f =
      writes i m (at (link t)) (set_next m t (node_of i)) (at (sleep (entry w))) refl (λ e. e)
        (omega arith) tt
  step-Moves (sleep p) f = sleep-Moves p f
  step-Moves random f = elim (Bool-cases ((xor_random i (m.rv i)).1 == 0)) [
    | inl e ↦ rw e (
        writes i m (at random) (record m { rv = assign m.rv i (xor_random i (m.rv i)).0 })
          (at pop_back) refl (λ z. z) (omega arith) tt)
    | inr e ↦ rw e (
        writes i m (at random) (record m { rv = assign m.rv i (xor_random i (m.rv i)).0 })
          (at has_next) refl (λ z. z) (omega arith) tt)
  ]
  step-Moves pop_back f =
      let r = passive_set_pop_back m in
      let (spins, tails) = pop_back_spares m in
      elim (Bool-cases (r.1 == null)) [
        | inl e ↦ rw e (
            writes i m (at pop_back) r.0 (at has_next) spins (λ z. rw (← tails) z) (omega arith) tt)
        | inr e ↦ rw e (
            writes i m (at pop_back) r.0 (at (insert_tail r.1)) spins (λ z. rw (← tails) z)
              (omega arith) (ground arith))
      ]
  step-Moves pop_front f =
      let r = passive_set_pop_front m in
      let (spins, tails) = pop_front_spares m in
      elim (Bool-cases (r.1 == null)) [
        | inl e ↦ rw e (
            writes i m (at pop_front) r.0 (at clear_tail) spins (λ z. rw (← tails) z) (omega arith)
              tt)
        | inr e ↦ rw e (
            writes i m (at pop_front) r.0 (at (insert_tail r.1)) spins (λ z. rw (← tails) z)
              (omega arith) (ground arith))
      ]
  step-Moves (insert_tail elem) f = insert_tail-Moves elem f
  step-Moves (insert_last elem) f =
      writes i m (at (insert_last elem)) (set_next m (node_of i) elem) (at read_next) refl (λ z. z)
        (omega arith) tt
  step-Moves (insert_wait elem) f = insert_wait-Moves elem f
  step-Moves (insert_next elem) f =
      writes i m (at (insert_next elem)) (set_next m (node_of i) elem) (at read_next) refl (λ z. z)
        (omega arith) tt
  step-Moves has_next f = elim (Bool-cases (m.next (node_of i) == null)) [
    | inl e ↦ rw e (reads i m (at has_next) (at pop_front) (omega arith) tt)
    | inr e ↦ rw e (reads i m (at has_next) (at surplus) (omega arith) tt)
  ]
  step-Moves clear_tail f = clear_tail-Moves f
  step-Moves wait_next f = elim (Bool-cases (m.next (node_of i) == null)) [
    | inl e ↦ rw e (reads i m (at wait_next) (at wait_next) (omega arith) tt)
    | inr e ↦ rw e (reads i m (at wait_next) (at read_next) (omega arith) tt)
  ]
  step-Moves surplus f = elim (Bool-cases (m.next (node_of i) == m.tail)) [
    | inl e ↦ rw e (reads i m (at surplus) (at read_next) (omega arith) tt)
    | inr e ↦ rw e (reads i m (at surplus) (at wait_second) (omega arith) tt)
  ]
  step-Moves wait_second f = elim (Bool-cases (m.next (m.next (node_of i)) == null)) [
    | inl e ↦ rw e (reads i m (at wait_second) (at wait_second) (omega arith) tt)
    | inr e ↦ rw e (reads i m (at wait_second) (at push_front) (omega arith) tt)
  ]
  step-Moves push_front f =
      let (spins, tails) = push_front_spares m (m.next (node_of i)) in
      writes i m (at push_front) (passive_set_push_front m (m.next (node_of i)))
        (at (relink (m.next (m.next (node_of i))))) spins (λ z. rw (← tails) z) (omega arith) tt
  step-Moves (relink q) f =
      writes i m (at (relink q)) (set_next m (node_of i) q) (at read_next) refl (λ z. z)
        (omega arith) tt
  step-Moves read_next f =
      reads i m (at read_next) (at (wake (m.next (node_of i)))) (omega arith) tt
  step-Moves (wake p) f = wake-Moves p f

laws : (w : Policy) → HandoverLaws holds vacant Fact (malthusian w) create
unfolding malthusian
laws w = record {
  moves = λ i y o m v f.
      move-cases (malthusian w) i y m (λ v r. Fact i m v → Moves holds vacant Fact i m v r.0 r.1)
        (λ q. step-Moves w i y m q) (λ f. reads i m outside (at prepare) (omega arith) tt)
        (λ f. reads i m outside (at try_prepare) (omega arith) tt)
        (λ f. reads i m inside (at random) (omega arith) tt)
        (λ f. reads i m inside (at random) (omega arith) tt)
        (λ f. reads i m inside inside (omega arith) tt) (λ v f. reads i m v v (omega arith) f) o v
        f;
  inside_holds = λ i m. refl;
  outside_holds = λ i m. refl;
  outside_fact = λ i. tt;
}

-- In every schedule, under each waiting policy, two threads never hold a malthusian mutex together,
-- whatever the passive set holds and the POSIX library does.
pub malthusian_exclusive :
    (w : Policy) {X : Type 0} (px : Posix X) (n : ℕ) (es : List (Wrapper.Event Futex)) (i j : ℕ)
    → i < n
    → j < n
    → view_of ((mutex w px n es).thread i) ≡ inside
    → view_of ((mutex w px n es).thread j) ≡ inside
    → i ≡ j
unfolding mutex
malthusian_exclusive w px n es = handover-exclusive holds vacant Fact (laws w) n px es
