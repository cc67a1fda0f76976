-- ===== src/Interpose/Numbers.antt =====
-- The library is loaded once, and threads have numbers of their own.
use shfllock.Base.{
  ℕ, suc, ◌+◌, ◌^◌, ◌≤◌, ◌<◌, ◌≡◌, ◌≢◌, ◌⊎◌, refl, sym, ◌∙◌, inl, inr, subst, Bool, true, false,
  Bool-cases, List, [], ◌∷◌, length, arith, assign, each-assign, pairs-assign,
}
use shfllock.Interpose.Start.{
  Library, Stage, fresh, swap, wait, make_table, number, check, load, publish, start_check, running,
  guest, Thread, step, turn, Request, proceed, Event, State, run, image, max_threads,
}

abbrev initialising : Stage → Bool
initialising make_table = true
initialising number = true
initialising check = true
initialising load = true
initialising publish = true
initialising p = false

abbrev numbered : Stage → Bool
numbered check = true
numbered load = true
numbered publish = true
numbered start_check = true
numbered running = true
numbered p = false

abbrev Fact : Library → ℕ → Stage → Type 0
Fact m c make_table = m.init_spinlock ≡ 1
Fact m c number = (m.init_spinlock ≡ 1) × (m.pthread_to_lock ≡ true)
Fact m c check = (m.init_spinlock ≡ 1) × (m.pthread_to_lock ≡ true) × (c < m.last_thread_id)
Fact m c load =
    (m.init_spinlock ≡ 1) × (m.pthread_to_lock ≡ true) × (c < m.last_thread_id) × (c < max_threads)
Fact m c publish =
    (m.init_spinlock ≡ 1)
    × (m.pthread_to_lock ≡ true)
    × (c < m.last_thread_id)
    × (c < max_threads)
    × (m.loaded ≡ true)
Fact m c start_check = c < m.last_thread_id
Fact m c running = (c < m.last_thread_id) × (c < max_threads)
Fact m c wait = 1 ≤ m.init_spinlock
Fact m c guest = m.init_spinlock ≡ 2
Fact m c p = Unit {0}

abbrev Ready : Library → Type 0
Ready m =
    (m.init_spinlock ≤ 2) × (m.init_spinlock ≡ 2 → (m.pthread_to_lock ≡ true) × (m.loaded ≡ true))

-- What one turn of a thread may do.
record Change (m : Library) (c : ℕ) (p : Stage) (m' : Library) (c' : ℕ) (p' : Stage) : Type 0 where
  last : (m.last_thread_id ≤ m'.last_thread_id) × (m'.last_thread_id ≤ m.last_thread_id + 1)
  table : m.pthread_to_lock ≡ true → m'.pthread_to_lock ≡ true
  kept : m.loaded ≡ true → m'.loaded ≡ true
  fact : Fact m' c' p'
  up : m.init_spinlock ≤ m'.init_spinlock
  one : m.init_spinlock ≡ 1 → initialising p ≡ false → m'.init_spinlock ≡ 1
  begins : initialising p' ≡ true → (initialising p ≡ true) ⊎ (m.init_spinlock ≡ 0)
  numbers :
      numbered p' ≡ true
      → ((numbered p ≡ true) × (c' ≡ c))
        ⊎ ((c' ≡ m.last_thread_id) × (m'.last_thread_id ≡ m.last_thread_id + 1))
  ready : Ready m'

step-Change :
    (m : Library) (c : ℕ) (p : Stage)
    → Ready m
    → m.last_thread_id + 1 < 2 ^ 32
    → Fact m c p
    → (let r = step m (record { stage = p; cur_thread_id = c }) in
        Change m c p r.0 r.1.cur_thread_id r.1.stage)
unfolding step
step-Change m c fresh ok room fact = ground arith
step-Change m c swap ok room fact = ground arith
step-Change m c wait ok room fact = ground arith
step-Change m c p ok room fact = ground arith

turn-Change :
    (q : Request) (m : Library) (c : ℕ) (p : Stage)
    → Ready m
    → m.last_thread_id + 1 < 2 ^ 32
    → Fact m c p
    → (let r = turn q m (record { stage = p; cur_thread_id = c }) in
        Change m c p r.0 r.1.cur_thread_id r.1.stage)
unfolding turn
turn-Change proceed m c p ok room fact = step-Change m c p ok room fact
turn-Change q m c fresh ok room fact = ground arith
turn-Change q m c running ok room fact = ground arith
turn-Change q m c guest ok room fact = ground arith
turn-Change q m c p ok room fact = ground arith

-- A fact of another thread stands behind a change.
others-Fact :
    (m : Library) (c : ℕ) (p : Stage) (m' : Library) (c' : ℕ) (p' : Stage) (d : ℕ) (q : Stage)
    → Change m c p m' c' p'
    → (initialising q ≡ true → initialising p ≡ false)
    → Fact m d q
    → Fact m' d q
others-Fact m c p m' c' p' d make_table ch only f = ch.one f (only refl)
others-Fact m c p m' c' p' d number ch only f = (ch.one f.0 (only refl), ch.table f.1)
others-Fact m c p m' c' p' d check ch only f =
    (ch.one f.0 (only refl), ch.table f.1, omega (arith, ch.last.0, f.2))
others-Fact m c p m' c' p' d load ch only f =
    (ch.one f.0 (only refl), ch.table f.1, omega (arith, ch.last.0, f.2), f.3)
others-Fact m c p m' c' p' d publish ch only f =
    (ch.one f.0 (only refl), ch.table f.1, omega (arith, ch.last.0, f.2), f.3, ch.kept f.4)
others-Fact m c p m' c' p' d start_check ch only f = omega (arith, ch.last.0, f)
others-Fact m c p m' c' p' d running ch only f = (omega (arith, ch.last.0, f.0), f.1)
others-Fact m c p m' c' p' d wait ch only f = omega (arith, ch.up, f)
others-Fact m c p m' c' p' d guest ch only f = omega (arith, ch.up, f, ch.ready.0)
others-Fact m c p m' c' p' d q ch only f = tt

-- `k` events are left.
record Inv (k : ℕ) (s : State) : Type 0 where
  ready : Ready s.mem
  room : s.mem.last_thread_id + k < 2 ^ 32
  each : (i : ℕ) → Fact s.mem (s.thread i).cur_thread_id (s.thread i).stage
  alone :
      (i j : ℕ)
      → initialising (s.thread i).stage ≡ true
      → initialising (s.thread j).stage ≡ true
      → i ≡ j
  apart :
      (i j : ℕ)
      → numbered (s.thread i).stage ≡ true
      → numbered (s.thread j).stage ≡ true
      → (s.thread i).cur_thread_id ≡ (s.thread j).cur_thread_id
      → i ≡ j

initialising-Fact :
    (m : Library) (c : ℕ) (p : Stage) → initialising p ≡ true → Fact m c p → m.init_spinlock ≡ 1
initialising-Fact m c make_table w f = f
initialising-Fact m c number w f = f.0
initialising-Fact m c check w f = f.0
initialising-Fact m c load w f = f.0
initialising-Fact m c publish w f = f.0
initialising-Fact m c p w f = cc

numbered-Fact :
    (m : Library) (c : ℕ) (p : Stage) → numbered p ≡ true → Fact m c p → c < m.last_thread_id
numbered-Fact m c check w f = f.2
numbered-Fact m c load w f = f.2
numbered-Fact m c publish w f = f.2
numbered-Fact m c start_check w f = f
numbered-Fact m c running w f = f.0
numbered-Fact m c p w f = cc

abbrev Both : Thread → Thread → Type 0
Both t u = (initialising t.stage ≡ true) × (initialising u.stage ≡ true)

abbrev Clash : Thread → Thread → Type 0
Clash t u =
    (numbered t.stage ≡ true) × (numbered u.stage ≡ true) × (t.cur_thread_id ≡ u.cur_thread_id)

module _ (k : ℕ) (s : State) (v : Inv (suc k) s) (i : ℕ) (m' : Library) (t' : Thread)
    (ch : Change s.mem
      (s.thread i).cur_thread_id
      (s.thread i).stage
      m'
      t'.cur_thread_id
      t'.stage) where
  -- Another thread that initialises the library keeps this one from it.
  other_initialises :
      (j : ℕ) → j ≢ i → initialising (s.thread j).stage ≡ true → initialising t'.stage ≢ true
  other_initialises j ne w w' =
      let t = s.thread j in
      let set = initialising-Fact s.mem t.cur_thread_id t.stage w (v.each j) in
      elim (ch.begins w') [ inl was ↦ ne (v.alone j i w was) | inr free ↦ omega (arith, set, free) ]

  other_clashes : (j : ℕ) → j ≢ i → ¬ Clash t' (s.thread j)
  other_clashes j ne (w', w, e) =
      let t = s.thread j in
      let below = numbered-Fact s.mem t.cur_thread_id t.stage w (v.each j) in
      elim (ch.numbers w') [
        | inl was ↦ ne (v.apart j i w was.0 (sym e ∙ was.1))
        | inr new ↦ omega (arith, new.0, e, below)
      ]

  only :
      (j : ℕ)
      → j ≢ i
      → initialising (s.thread j).stage ≡ true
      → initialising (s.thread i).stage ≡ false
  only j ne w = elim (Bool-cases (initialising (s.thread i).stage)) [
    | inl was ↦ absurd (ne (v.alone j i w was))
    | inr free ↦ free
  ]

  changed-Inv : Inv k (record { mem = m'; thread = assign s.thread i t' })
  changed-Inv = record {
    ready = ch.ready;
    room = omega (arith, v.room, ch.last.1);
    each =
        each-assign (λ j t. Fact m' t.cur_thread_id t.stage) s.thread i t' ch.fact
          (λ j ne.
            let t = s.thread j in
            others-Fact s.mem (s.thread i).cur_thread_id (s.thread i).stage m' t'.cur_thread_id
              t'.stage t.cur_thread_id t.stage ch (only j ne) (v.each j));
    alone = λ j l a b.
        pairs-assign Both s.thread i t' (λ j l h. v.alone j l h.0 h.1)
          (λ j ne h. other_initialises j ne h.1 h.0) (λ j ne h. other_initialises j ne h.0 h.1) j l
          (a, b);
    apart = λ j l a b e.
        pairs-assign Clash s.thread i t' (λ j l h. v.apart j l h.0 h.1 h.2) other_clashes
          (λ j ne h. other_clashes j ne (h.1, h.0, sym h.2)) j l (a, b, e);
  }

run-Inv : (es : List Event) (s : State) → Inv (length es) s → Inv 0 (run es s)
unfolding run length
run-Inv [] s v = v
run-Inv (e ∷ es) s v =
    let t = s.thread e.tid in
    let r = turn e.request s.mem t in
    let ch =
      turn-Change e.request s.mem t.cur_thread_id t.stage v.ready (omega (arith, v.room))
        (v.each e.tid) in
    run-Inv es (record { mem = r.0; thread = assign s.thread e.tid r.1 })
      (changed-Inv (length es) s v e.tid r.0 r.1 ch)

image-Inv : (k : ℕ) → k < 2 ^ 32 → Inv k image
unfolding image
image-Inv k small = record {
  ready = (omega arith, λ e. absurd (omega (arith, e)));
  room = omega (arith, small);
  each = λ i. tt;
  alone = λ i j w x. cc;
  apart = λ i j w x e. cc;
}

module _ (es : List Event) (short : length es < 2 ^ 32) where
  final : Inv 0 (run es image)
  final = run-Inv es image (image-Inv (length es) short)

  -- Over fewer than 2 ^ 32 steps: a thread that runs with a number of its own has one below
  -- MAX_THREADS, and no other such thread has the same.
  pub numbers_differ :
      (i j : ℕ)
      → ((run es image).thread i).stage ≡ running
      → ((run es image).thread j).stage ≡ running
      → (((run es image).thread i).cur_thread_id < max_threads)
        × (((run es image).thread i).cur_thread_id ≡ ((run es image).thread j).cur_thread_id
            → i ≡ j)
  numbers_differ i j ei ej =
      let m = (run es image).mem in
      let t = (run es image).thread i in
      (
        (subst (Fact m t.cur_thread_id) ei (final.each i)).1,
        final.apart i j (rw ei refl) (rw ej refl),
      )

  -- Over fewer than 2 ^ 32 steps: two threads never run the body of `interpose_init` together.
  pub interpose_init_once :
      (i j : ℕ)
      → initialising ((run es image).thread i).stage ≡ true
      → initialising ((run es image).thread j).stage ≡ true
      → i ≡ j
  interpose_init_once = final.alone

  -- Over fewer than 2 ^ 32 steps: where `interpose_init` has returned early in a thread, the hash table
  -- is made and the functions of the C library are loaded.
  pub guest-Ready :
      (i : ℕ)
      → ((run es image).thread i).stage ≡ guest
      → ((run es image).mem.pthread_to_lock ≡ true) × ((run es image).mem.loaded ≡ true)
  guest-Ready i e =
      let m = (run es image).mem in
      let t = (run es image).thread i in
      final.ready.1 (subst (Fact m t.cur_thread_id) e (final.each i))
