-- ===== src/Cna/Steps.antt =====
-- Every step of cna.c keeps the facts of its threads and moves the token as it must.
use shfllock.Base.{ℕ, refl, ap, inl, inr, Bool-cases, arith, ◌==◌, ltb, assign}
use shfllock.Aqs.Memory.{keep_lock_local, current_numa_node}
use shfllock.Cna.Memory.{
  Ptr, null, node_of, no_socket, CnaMutex, set_tail, set_next, set_sec_tail, set_spin, set_socket,
  create,
}
use shfllock.Cna.Mutex.{
  Pc, prepare, swap_tail, set_node, link, sleep, try_prepare, try_swap, has_next, has_second,
  clear_tail, read_tail, splice, wait_next, keep_local, find, own_node, compare, after_first, scan,
  follow, skip, append, append_at, cut, set_last, pass, pass_value, second, last_of, read_next,
  join, wake, first, sleeps, step, cna,
}
use shfllock.Cna.Facts.{weight, holds, vacant, Fact}
use shfllock.Protocol.Code.{View, outside, at, inside, after, Op, move}
use shfllock.Protocol.Cases.{move-cases}
use shfllock.Protocol.Token.{keep, leave}
use shfllock.Protocol.Handover.{HandoverLaws}
use shfllock.Cna.Moves.{
  CnaMoves, milds, reads, writes, rewires, hands, prepares, enters, spin_apart,
}

module _ (cpus nodes i reg : ℕ) (m : CnaMutex) where
  abbrev Goal : Pc → Type 0
  Goal q =
      Fact i m (at q)
      → CnaMoves i m (at q) (step cpus nodes i reg m q).0 (after (step cpus nodes i reg m q).1)

  swap_tail-Moves : Goal swap_tail
  unfolding step
  swap_tail-Moves f = elim (Bool-cases (m.tail == null)) [
    | inl e ↦ rw e (
        enters i m (at swap_tail) (set_tail m (node_of i)) (ground arith) (omega arith) refl refl
          refl f)
    | inr e ↦ rw e (
        writes i m (at swap_tail) (set_tail m (node_of i)) (at (set_node m.tail)) refl refl
          (λ j ne h. h) (λ z. ground arith) (omega arith) (f, ground arith))
  ]

  try_swap-Moves : Goal try_swap
  unfolding step
  try_swap-Moves f = elim (Bool-cases (m.tail == null)) [
    | inl e ↦ rw e (
        enters i m (at try_swap) (set_tail m (node_of i)) (ground arith) (omega arith) refl refl
          refl f)
    | inr e ↦ rw e (reads i m (at try_swap) outside (omega arith) tt)
  ]

  sleep-Moves : Goal sleep
  unfolding step
  sleep-Moves f = elim (Bool-cases (sleeps (m.spin (node_of i)))) [
    | inl e ↦ rw e (reads i m (at sleep) (at sleep) (omega arith) f)
    | inr e ↦ rw e (reads i m (at sleep) inside (rw e (omega arith)) f)
  ]

  clear_tail-Moves : Goal clear_tail
  unfolding step
  clear_tail-Moves f = elim (Bool-cases (m.tail == node_of i)) [
    | inl e ↦ rw e (record {
      change = leave (λ j ne w. refl) refl refl;
      own = tt;
      others = milds i m m (at clear_tail) (λ j ne. (refl, λ h. h, λ p h. h));
    })
    | inr e ↦ rw e (reads i m (at clear_tail) (at wait_next) (omega arith) f)
  ]

  splice-Moves : (h t : Ptr) → Goal (splice h t)
  unfolding step
  splice-Moves h t f = elim (Bool-cases (m.tail == node_of i)) [
    | inl e ↦ rw e (
        writes i m (at (splice h t)) (set_tail m t) (at (wake h)) refl refl (λ j ne h. h)
          (λ z. ground (arith, f.1)) (omega arith) f.2)
    | inr e ↦ rw e (reads i m (at (splice h t)) (at wait_next) (omega arith) f.0)
  ]

  skip-Moves : (h t c : Ptr) → Goal (skip h t c)
  unfolding step
  skip-Moves h t c f = elim (Bool-cases (ltb 1 (m.spin (node_of i)))) [
    | inl e ↦ rw e (
        reads i m (at (skip h t c)) (at (append h t c)) (omega arith)
          (f.0, f.1, f.2, f.0 (ground arith)))
    | inr e ↦ rw e (record {
      change =
          keep
            (λ j ne w.
              ap (λ b. weight (sleeps b) w)
                (spin_apart m (node_of i) h j (λ z. ne (omega (arith, z)))))
            (omega arith) (λ z. z);
      own = (f.1, f.2);
      others =
          milds i m (set_spin m (node_of i) h) (at (skip h t c))
            (λ j ne. (spin_apart m (node_of i) h j (λ z. ne (omega (arith, z))), λ z. z, λ p z. z));
    })
  ]

  step-Moves : (q : Pc) → Goal q
  unfolding step
  step-Moves prepare f =
      prepares i m (at prepare) (at swap_tail)
        (set_socket (set_spin (set_next m (node_of i) 0) (node_of i) 0) (node_of i) no_socket) refl
        refl refl (λ j ne h. ground arith) refl (λ h. h)
  step-Moves try_prepare f =
      prepares i m (at try_prepare) (at try_swap)
        (set_spin (set_next m (node_of i) null) (node_of i) 0) refl refl refl
        (λ j ne h. ground arith) refl (λ h. h)
  step-Moves swap_tail f = swap_tail-Moves f
  step-Moves try_swap f = try_swap-Moves f
  step-Moves sleep f = sleep-Moves f
  step-Moves (set_node t) f =
      writes i m (at (set_node t)) (set_socket m (node_of i) (current_numa_node cpus nodes reg))
        (at (link t)) refl refl (λ j ne h. h) (λ e. e) (omega arith) f
  step-Moves (link t) f =
      writes i m (at (link t)) (set_next m t (node_of i)) (at sleep) refl refl
        (λ j ne h. ground arith) (λ e. e) (omega arith) f.0
  step-Moves has_next f = elim (Bool-cases (m.next (node_of i) == null)) [
    | inl e ↦ rw e (reads i m (at has_next) (at has_second) (omega arith) f)
    | inr e ↦ rw e (reads i m (at has_next) (at keep_local) (omega arith) (f, ground arith))
  ]
  step-Moves wait_next f = elim (Bool-cases (m.next (node_of i) == null)) [
    | inl e ↦ rw e (reads i m (at wait_next) (at wait_next) (omega arith) f)
    | inr e ↦ rw e (reads i m (at wait_next) (at keep_local) (omega arith) (f, ground arith))
  ]
  step-Moves has_second f = elim (Bool-cases (ltb 1 (m.spin (node_of i)))) [
    | inl e ↦ rw e (
        reads i m (at has_second) (at (read_tail (m.spin (node_of i)))) (omega arith)
          (f, f (ground arith), ground arith))
    | inr e ↦ rw e (reads i m (at has_second) (at clear_tail) (omega arith) f)
  ]
  step-Moves clear_tail f = clear_tail-Moves f
  step-Moves (read_tail h) f = reads i m _ (at (splice h (m.sec_tail h))) (omega arith) f
  step-Moves (splice h t) f = splice-Moves h t f
  step-Moves keep_local f = elim (Bool-cases (keep_lock_local i (m.rv i)).1) [
    | inl e ↦ rw e (
        writes i m (at keep_local) (record m { rv = assign m.rv i (keep_lock_local i (m.rv i)).0 })
          (at find) refl refl (λ j ne h. h) (λ z. z) (omega arith) f)
    | inr e ↦ rw e (
        writes i m (at keep_local) (record m { rv = assign m.rv i (keep_lock_local i (m.rv i)).0 })
          (at second) refl refl (λ j ne h. h) (λ z. z) (omega arith) f)
  ]
  step-Moves find f =
      reads i m (at find) (at (own_node (m.next (node_of i)))) (omega arith) (f.0, f.1, f.1)
  step-Moves (own_node h) f = reads i m (at (own_node h)) _ (omega arith) f
  step-Moves (compare h s) f = elim (Bool-cases (m.socket h == s)) [
    | inl e ↦ rw e (reads i m (at (compare h s)) (at (pass h)) (omega arith) (f.0, f.2))
    | inr e ↦ rw e (reads i m (at (compare h s)) (at (after_first h s)) (omega arith) f)
  ]
  step-Moves (after_first h s) f =
      reads i m (at (after_first h s)) (at (scan h h (m.next h) s)) (omega arith) f
  step-Moves (scan h t c s) f = elim (Bool-cases (c == null)) [
    | inl e ↦ rw e (reads i m (at (scan h t c s)) (at second) (omega arith) (f.0, f.1))
    | inr e ↦ elim (Bool-cases (m.socket c == s)) [
      | inl k ↦
          rw (e, k)
            (reads i m (at (scan h t c s)) (at (skip h t c)) (omega arith) (f.0, f.2, ground arith))
      | inr k ↦
          rw (e, k)
            (reads i m (at (scan h t c s)) (at (follow h c s)) (omega arith)
              (f.0, f.1, ground arith))
    ]
  ]
  step-Moves (follow h c s) f =
      reads i m (at (follow h c s)) (at (scan h c (m.next c) s)) (omega arith) f
  step-Moves (skip h t c) f = skip-Moves h t c f
  step-Moves (append h t c) f =
      reads i m (at (append h t c)) (at (append_at (m.sec_tail (m.spin (node_of i))) h t c))
        (omega arith) f
  step-Moves (append_at l h t c) f =
      rewires i m (at (append_at l h t c)) (set_next m l h) (at (cut t c)) refl (λ p z. z) (λ z. z)
        refl (omega arith) (f.1, f.2)
  step-Moves (cut t c) f =
      rewires i m (at (cut t c)) (set_next m t null) (at (set_last t c)) refl (λ p z. z) (λ z. z)
        refl (omega arith) f
  step-Moves (set_last t c) f =
      rewires i m (at (set_last t c)) (set_sec_tail m (m.spin (node_of i)) t) (at (pass c)) refl
        (λ p z. ground (arith, f.0)) (λ z. z) refl (omega arith) (λ z. ground (arith, f.0), f.1)
  step-Moves (pass c) f = elim (Bool-cases (m.spin (node_of i) == 0)) [
    | inl e ↦ rw e (
        reads i m (at (pass c)) (at (pass_value c 1)) (omega arith)
          (λ z. absurd (omega arith), f.1))
    | inr e ↦
        rw e (reads i m (at (pass c)) (at (pass_value c (m.spin (node_of i)))) (omega arith) f)
  ]
  step-Moves (pass_value c v) f = hands i m (at (pass_value c v)) c v refl f.0
  step-Moves second f = elim (Bool-cases (ltb 1 (m.spin (node_of i)))) [
    | inl e ↦ rw e (
        reads i m (at second) (at (last_of (m.spin (node_of i)))) (omega arith)
          (f.0 (ground arith), ground arith))
    | inr e ↦ rw e (reads i m (at second) (at first) (omega arith) f.1)
  ]
  step-Moves (last_of c) f =
      reads i m (at (last_of c)) (at (read_next c (m.sec_tail c))) (omega arith) f
  step-Moves (read_next c l) f =
      reads i m (at (read_next c l)) (at (join c l (m.next (node_of i)))) (omega arith) f
  step-Moves (join c l q) f =
      rewires i m (at (join c l q)) (set_next m l q) (at (wake c)) refl (λ p z. z) (λ z. z) refl
        (omega arith) f.1
  step-Moves (wake c) f = hands i m (at (wake c)) c 1 refl (λ z. absurd (omega arith))
  step-Moves first f = reads i m (at first) (at (wake (m.next (node_of i)))) (omega arith) f

  pub cna-Moves :
      (o : Op) (v : View Pc)
      → Fact i m v
      → CnaMoves i m v (move (cna cpus nodes) i reg o m v).0 (move (cna cpus nodes) i reg o m v).1
  unfolding cna
  cna-Moves o v =
      move-cases (cna cpus nodes) i reg m (λ v r. Fact i m v → CnaMoves i m v r.0 r.1)
        (λ q. step-Moves q) (λ f. reads i m outside (at prepare) (omega arith) tt)
        (λ f. reads i m outside (at try_prepare) (omega arith) tt)
        (λ f. reads i m inside (at has_next) (omega arith) f)
        (λ f. reads i m inside (at has_next) (omega arith) f)
        (λ f. reads i m inside inside (omega arith) f) (λ v f. reads i m v v (omega arith) f) o v

pub laws : (cpus nodes : ℕ) → HandoverLaws holds vacant Fact (cna cpus nodes) create
laws cpus nodes = record {
  moves = λ i reg o m v f. cna-Moves cpus nodes i reg m o v f;
  inside_holds = λ i m. refl;
  outside_holds = λ i m. refl;
  outside_fact = λ i. tt;
}
