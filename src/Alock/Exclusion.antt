-- ===== src/Alock/Exclusion.antt =====
-- The array lock in every run.
use shfllock.Base.{
  ℕ, length, suc, ◌+◌, ◌%◌, ◌^◌, ◌≤◌, ◌<◌, ◌≡◌, refl, sym, ap, ◌∙◌, subst, false, inl, inr,
  Bool-cases, List, arith, ◌==◌, assign, tally, tally-const,
}
use shfllock.Atomic.{locked, unlocked}
use shfllock.Mcs.Line.{same_place}
use shfllock.Protocol.Cases.{move-cases}
use shfllock.Protocol.Induct.{moved, run-spends}
use shfllock.Protocol.Code.{View, outside, at, inside, Op, State, start, after}
use shfllock.Protocol.Wrapper
use shfllock.Protocol.Wrapper.{Posix}
use shfllock.Protocol.Refinement.{view_of, project, shadows, length-shadows, run-project}
use shfllock.Alock.Mutex.{
  slots, AlockMutex, Pc, fetch, spin, try_read, try_look, try_swap, shut, open_next, step,
  alockepfl, create, mutex,
}
use shfllock.Alock.Facts.{within, counts, FactIn, Inv}
use shfllock.Alock.Moves.{room, window, stay-Inv, enter-Inv, shut-Inv, leave-Inv}

module _ {n k : ℕ} (few : n ≤ slots) (s : State AlockMutex Pc) (v : Inv n (suc k) s) (i : ℕ)
    (low : i < n) where
  -- The state behind a step of thread `i` that leaves `r`.
  abbrev Leads : View Pc → AlockMutex × View Pc → Type 0
  Leads w r = s.view i ≡ w → Inv n k (record { mem = r.0; view = assign s.view i r.1 })

  own : (w : View Pc) → s.view i ≡ w → FactIn v.places s.mem i w
  own w e = subst (FactIn v.places s.mem i) e (v.each i low)

  stays : (w w' : View Pc) → within w ≡ within w' → FactIn v.places s.mem i w' → Leads w (s.mem, w')
  stays w w' same f e = stay-Inv few s v i low w' (ap within e ∙ same) f

  -- A wait ends for the first thread alone.
  spin-Inv :
      (slot : ℕ)
      → Leads
          (at (spin slot))
          ((step i tt s.mem (spin slot)).0, after (step i tt s.mem (spin slot)).1)
  unfolding step
  spin-Inv slot e =
      let f = own (at (spin slot)) e in
      let here = v.line.placed i low (ap within e) in
      let most = window few s v i low in
      elim (Bool-cases (s.mem.flags slot == locked)) [
        | inl busy ↦ rw busy (stays _ (at (spin slot)) refl f e)
        | inr free ↦
            let top = v.opened slot (omega (arith, f)) (ground arith) in
            rw free (stays _ inside refl (f.1, omega (arith, f, top, here, most)) e)
      ]

  look-Inv :
      (t : ℕ)
      → Leads
          (at (try_look t))
          ((step i tt s.mem (try_look t)).0, after (step i tt s.mem (try_look t)).1)
  unfolding step
  look-Inv t e =
      let f : t ≤ v.places.back = own (at (try_look t)) e in
      let left = room few s v i low (ap within e) in
      let order = v.line.order in
      elim (Bool-cases (s.mem.flags (t % slots) == unlocked)) [
        | inr closed ↦ rw closed (stays _ outside refl tt e)
        | inl free ↦
            let top = v.opened (t % slots) (omega arith) (ground arith) in
            rw free
              (stays _ (at (try_swap t)) refl (f, λ z. omega (arith, f, top, left, z, order)) e)
      ]

  swap-Inv :
      (t : ℕ)
      → Leads
          (at (try_swap t))
          ((step i tt s.mem (try_swap t)).0, after (step i tt s.mem (try_swap t)).1)
  unfolding step
  swap-Inv t e =
      let f = own (at (try_swap t)) e in
      elim (Bool-cases (s.mem.tail == t)) [
        | inr late ↦ rw late (stays _ outside refl tt e)
        | inl same ↦
            let t_is : t ≡ v.places.back = ground (arith, v.tail) in
            let next : (v.places.back + 1) % 2 ^ 32 ≡ suc v.places.back = omega (arith, v.bound) in
            rw (same, t_is, next)
              (enter-Inv few s v i low inside (ap within e) refl (refl, sym (f.1 t_is)))
      ]

  fetch-Inv : Leads (at fetch) ((step i tt s.mem fetch).0, after (step i tt s.mem fetch).1)
  unfolding step
  fetch-Inv e =
      let next : (v.places.back + 1) % 2 ^ 32 ≡ suc v.places.back = omega (arith, v.bound) in
      rw (v.tail, next)
        (enter-Inv few s v i low (at (spin (v.places.back % slots))) (ap within e) refl
          (refl, refl))

  step-Leads : (q : Pc) → Leads (at q) ((step i tt s.mem q).0, after (step i tt s.mem q).1)
  unfolding step
  step-Leads fetch e = fetch-Inv e
  step-Leads (spin slot) e = spin-Inv slot e
  step-Leads try_read e = stays _ (at (try_look s.mem.tail)) refl (omega (arith, v.tail)) e
  step-Leads (try_look t) e = look-Inv t e
  step-Leads (try_swap t) e = swap-Inv t e
  step-Leads shut e = shut-Inv few s v i low e
  step-Leads (open_next slot) e = leave-Inv few s v i low slot e

  pub moved-Inv : (x : Unit {0}) (o : Op) → Inv n k (moved alockepfl i x o s)
  unfolding alockepfl
  moved-Inv x o =
      move-cases alockepfl i x s.mem Leads (λ q. step-Leads q) (λ e. stays _ (at fetch) refl tt e)
        (λ e. stays _ (at try_read) refl tt e) (λ e. stays _ (at shut) refl (own inside e) e)
        (λ e. stays _ (at shut) refl (own inside e) e) (λ e. stays _ inside refl (own inside e) e)
        (λ w e. stays w w refl (own w e) e) o (s.view i) refl

idle-Inv : (n k : ℕ) (s : State AlockMutex Pc) → Inv n (suc k) s → Inv n k s
idle-Inv n k s v = record {
  places = v.places;
  line = v.line;
  count = v.count;
  tail = v.tail;
  bound = omega (arith, v.bound);
  opened = v.opened;
  each = v.each;
}

start-Inv :
    (n k : ℕ) (stale : ℕ → ℕ)
    → k < 2 ^ 32
    → ((r : ℕ) → stale r ≡ locked)
    → Inv n k (start (create stale))
unfolding create
start-Inv n k stale small zeroed =
    let nobody : tally counts n (λ j. false) ≡ 0 = tally-const counts n false refl in
    record {
      places = record { front = 0; back = 0; place = λ j. 0; owner = λ q. 0 };
      line = record {
        order = omega arith;
        placed = λ j h e. cc;
        owned = λ q a b. absurd (omega arith);
      };
      count = omega (arith, nobody);
      tail = refl;
      bound = omega (arith, small);
      opened = λ r h o. ground (arith, zeroed r);
      each = λ j h. tt;
    }

module _ {X : Type 0} (px : Posix X) (n : ℕ) (few : n ≤ slots) (stale : ℕ → ℕ)
    (zeroed : (r : ℕ) → stale r ≡ locked) (es : List (Wrapper.Event (Unit {0})))
    (short : length es < 2 ^ 32) where
  final : Inv n 0 (project (mutex stale px n es))
  unfolding mutex
  final =
      let s = Wrapper.start (create stale) px in
      let events = shadows alockepfl px n es s in
      let small : length events < 2 ^ 32 = rw (length-shadows alockepfl px n es s) short in
      subst (Inv n 0) (sym (run-project alockepfl px n es s)) (
        run-spends alockepfl n (Inv n) (idle-Inv n) (λ k i x o t low v. moved-Inv few t v i low x o)
          events (start (create stale)) (start-Inv n (length events) stale small zeroed))

  -- With at most 512 threads, in memory that was all locked flags, and over fewer than 2 ^ 32
  -- steps, whatever the schedule and the POSIX library do: two threads never hold an alockepfl
  -- mutex together.
  pub alockepfl_exclusive :
      (i j : ℕ)
      → i < n
      → j < n
      → view_of ((mutex stale px n es).thread i) ≡ inside
      → view_of ((mutex stale px n es).thread j) ≡ inside
      → i ≡ j
  alockepfl_exclusive i j hi hj ei ej =
      let v = final in
      let fact = FactIn v.places (mutex stale px n es).mem in
      let fi = subst (fact i) ei (v.each i hi) in
      let fj = subst (fact j) ej (v.each j hj) in
      same_place v.line i j hi hj (ap within ei) (ap within ej) (fi.1 ∙ sym fj.1)
