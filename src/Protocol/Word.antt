-- ===== src/Protocol/Word.antt =====
-- Algorithms that guard the critical section by one word which is 0 or 1. The laws speak of one
-- step of one thread; what follows from them holds for every schedule of every number of threads.
use shfllock.Base.{
  ℕ, ◌+◌, ◌≤◌, ◌<◌, ◌≡◌, ◌≢◌, refl, sym, ap, ◌∙◌, List, arith, tally, tally-assign, le-tally,
  add-le-tally, tally-const, ℕ_discrete,
}
use shfllock.Protocol.Induct.{moved, run-keeps}
use shfllock.Protocol.Code
use shfllock.Protocol.Code.{
  Next, go, acquired, busy, released, aborted, View, outside, at, inside, dead, Op, lock, trylock,
  unlock, release, settle, State, move, turn, run, after, Event, start,
}

module _ {P : Type 0} (has : P → ℕ) where
  -- Whether a thread owns the word.
  abbrev pub owns : View P → ℕ
  owns outside = 0
  owns (at p) = has p
  owns inside = 1
  owns dead = 1

  abbrev pub Alive : Next P → Type 0
  Alive aborted = ⊥
  Alive _ = Unit {0}

-- `taken` reads the word, `has` says where a thread owns it.
pub record WordLaws {M P I : Type 0} (c : Code.Code M P I) (taken : M → ℕ) (has : P → ℕ)
    : Type 0 where
  pub lock_free : has c.lock_entry ≡ 0
  pub trylock_free : has c.trylock_entry ≡ 0
  pub unlock_owns : has c.unlock_entry ≡ 1
  pub release_owns : has c.release_entry ≡ 1
  pub settle_keeps : (i : ℕ) (x : I) (m : M) → taken (c.on_locked i x m) ≡ taken m
  pub balance :
      (i : ℕ) (x : I) (m : M) (p : P)
      → has p ≤ taken m
      → taken m ≤ 1
      → taken (c.step i x m p).0 + has p ≡ taken m + owns has (after (c.step i x m p).1)
  pub bounded :
      (i : ℕ) (x : I) (m : M) (p : P) → has p ≤ taken m → taken m ≤ 1 → taken (c.step i x m p).0 ≤ 1
  pub alive :
      (i : ℕ) (x : I) (m : M) (p : P) → has p ≤ taken m → taken m ≤ 1 → Alive has (c.step i x m p).1

-- What one step must do to the word and to the claim on it.
abbrev pub Sound : {M P : Type 0} → (M → ℕ) → (P → ℕ) → M → P → M × Next P → Type 0
Sound taken has m p r =
    (taken r.0 + has p ≡ taken m + owns has (after r.1)) × (taken r.0 ≤ 1) × Alive has r.1

module _ {M P I : Type 0} {c : Code.Code M P I} {taken : M → ℕ} {has : P → ℕ} where
  -- The laws, from those of one step.
  pub word_laws :
      has c.lock_entry ≡ 0
      → has c.trylock_entry ≡ 0
      → has c.unlock_entry ≡ 1
      → has c.release_entry ≡ 1
      → ((i : ℕ) (x : I) (m : M) → taken (c.on_locked i x m) ≡ taken m)
      → ((i : ℕ) (x : I) (m : M) (p : P)
          → has p ≤ taken m
          → taken m ≤ 1
          → Sound taken has m p (c.step i x m p))
      → WordLaws c taken has
  word_laws l t u r k sound = record {
    lock_free = l;
    trylock_free = t;
    unlock_owns = u;
    release_owns = r;
    settle_keeps = k;
    balance = λ i x m p h b. (sound i x m p h b).0;
    bounded = λ i x m p h b. (sound i x m p h b).1;
    alive = λ i x m p h b. (sound i x m p h b).2;
  }

module _ {M P I : Type 0} {c : Code.Code M P I} {taken : M → ℕ} {has : P → ℕ}
    (laws : WordLaws c taken has) where
  record Inv (n : ℕ) (s : State M P) : Type 0 where
    counted : tally (owns has) n s.view ≡ taken s.mem
    single : taken s.mem ≤ 1
    living : (j : ℕ) → s.view j ≢ dead

  record Kept (m : M) (v : View P) (r : M × View P) : Type 0 where
    balanced : taken r.0 + owns has v ≡ taken m + owns has r.1
    single : taken r.0 ≤ 1
    living : r.1 ≢ dead

  after-living : (x : Next P) → Alive has x → after x ≢ dead
  after-living (go p) a e = cc
  after-living acquired a e = cc
  after-living busy a e = cc
  after-living released a e = cc
  after-living aborted a e = a

  move-Kept :
      (i : ℕ) (x : I) (o : Op) (m : M) (v : View P)
      → owns has v ≤ taken m
      → taken m ≤ 1
      → v ≢ dead
      → Kept m v (move c i x o m v)
  unfolding move
  move-Kept i x o m dead h b l = absurd (l refl)
  move-Kept i x o m (at p) h b l = record {
    balanced = laws.balance i x m p h b;
    single = laws.bounded i x m p h b;
    living = after-living _ (laws.alive i x m p h b);
  }
  move-Kept i x lock m outside h b l = record {
    balanced = omega (arith, laws.lock_free);
    single = b;
    living = λ e. cc;
  }
  move-Kept i x trylock m outside h b l = record {
    balanced = omega (arith, laws.trylock_free);
    single = b;
    living = λ e. cc;
  }
  move-Kept i x unlock m outside h b l = record { balanced = refl; single = b; living = l }
  move-Kept i x release m outside h b l = record { balanced = refl; single = b; living = l }
  move-Kept i x settle m outside h b l = record { balanced = refl; single = b; living = l }
  move-Kept i x lock m inside h b l = record { balanced = refl; single = b; living = l }
  move-Kept i x trylock m inside h b l = record { balanced = refl; single = b; living = l }
  move-Kept i x unlock m inside h b l = record {
    balanced = omega (arith, laws.unlock_owns);
    single = b;
    living = λ e. cc;
  }
  move-Kept i x release m inside h b l = record {
    balanced = omega (arith, laws.release_owns);
    single = b;
    living = λ e. cc;
  }
  move-Kept i x settle m inside h b l = record {
    balanced = omega (arith, laws.settle_keeps i x m);
    single = omega (arith, laws.settle_keeps i x m);
    living = l;
  }

  step-Inv : (n i : ℕ) (x : I) (o : Op) (s : State M P) → i < n → Inv n s → Inv n (moved c i x o s)
  step-Inv n i x o s low v =
      let r = move c i x o s.mem (s.view i) in
      let kept =
        move-Kept i x o s.mem (s.view i)
          (omega (arith, le-tally (owns has) n s.view i low, v.counted)) v.single (v.living i) in
      record {
        counted =
            omega (arith, tally-assign (owns has) n s.view i r.1 low, kept.balanced, v.counted);
        single = kept.single;
        living = λ j. ground (arith, v.living j, kept.living);
      }

  start-Inv : (n : ℕ) (m : M) → taken m ≡ 0 → Inv n (start m)
  start-Inv n m free = record {
    counted = tally-const (owns has) n outside refl ∙ sym free;
    single = omega (arith, free);
    living = λ j e. cc;
  }

  module _ (n : ℕ) (m : M) (free : taken m ≡ 0) (es : List (Event I)) where
    last-Inv : Inv n (run c n es (start m))
    last-Inv = run-keeps c n (Inv n) (step-Inv n) es (start m) (start-Inv n m free)

    -- Two threads never stand in the critical section together.
    pub exclusive :
        (i j : ℕ)
        → i < n
        → j < n
        → (run c n es (start m)).view i ≡ inside
        → (run c n es (start m)).view j ≡ inside
        → i ≡ j
    exclusive i j hi hj ei ej = elim (ℕ_discrete i j) [
      | yes same ↦ same
      | no apart ↦
          let s = run c n es (start m) in
          let v = last-Inv in
          let two = add-le-tally (owns has) n s.view i j hi hj apart in
          absurd (omega (arith, ap (owns has) ei, ap (owns has) ej, two, v.counted, v.single))
    ]

    -- No `assert` of the algorithm fails.
    pub never_dead : (i : ℕ) → (run c n es (start m)).view i ≢ dead
    never_dead i = (last-Inv).living i

    -- The word is taken as long as a thread is in the critical section.
    pub taken_inside :
        (i : ℕ)
        → i < n
        → (run c n es (start m)).view i ≡ inside
        → taken (run c n es (start m)).mem ≡ 1
    taken_inside i hi e =
        let s = run c n es (start m) in
        let v = last-Inv in
        omega (arith, ap (owns has) e, le-tally (owns has) n s.view i hi, v.counted, v.single)
