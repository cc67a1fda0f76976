-- ===== src/Malthusian/Moves.antt =====
-- Who has the token of malthusian.c, and the kinds of step that move it.
use shfllock.Base.{ℕ, ◌-◌, ◌≤◌, ◌≡◌, ◌≢◌, ap, Bool, true, arith, ◌==◌, if◌then◌else◌, assign}
use shfllock.Atomic.{locked}
use shfllock.Malthusian.Memory.{
  Ptr, null, node_of, MalthusianMutex, set_spin, passive_set_pop_back, passive_set_pop_front,
  passive_set_push_front,
}
use shfllock.Malthusian.Mutex.{
  Pc, prepare, swap_tail, link, sleep, try_prepare, try_swap, insert_tail,
}
use shfllock.Protocol.Code.{View, outside, at, inside, dead}
use shfllock.Protocol.Token.{enter, keep, hand}
use shfllock.Protocol.Handover.{Moves, HandoverLaws, handover-exclusive}
use shfllock.Protocol.Handover

-- The token of a thread, where `asleep` says that its `spin` is LOCKED.
abbrev pub weight : (asleep : Bool) → View Pc → ℕ
weight b outside = 0
weight b (at prepare) = 0
weight b (at try_prepare) = 0
weight b (at try_swap) = 0
weight b (at swap_tail) = if b then 0 else 1
weight b (at (link t)) = if b then 0 else 1
weight b (at (sleep p)) = if b then 0 else 1
weight b dead = 0
weight b v = 1

abbrev pub holds : ℕ → MalthusianMutex → View Pc → ℕ
holds i m v = weight (m.spin (node_of i) == locked) v

abbrev pub vacant : MalthusianMutex → Bool
vacant m = m.tail == null

-- An element of the passive set that a thread is about to put at the tail.
abbrev pub Fact : ℕ → MalthusianMutex → View Pc → Type 0
Fact i m (at (insert_tail elem)) = elem ≢ null
Fact i m v = Unit {0}

pub Fact-keeps : (j : ℕ) (m m' : MalthusianMutex) (w : View Pc) → Fact j m w → Fact j m' w
Fact-keeps j m m' outside f = tt
Fact-keeps j m m' (at prepare) f = tt
Fact-keeps j m m' (at p) f = ground (arith, f)
Fact-keeps j m m' w f = tt

spin_apart :
    (m : MalthusianMutex) (p : Ptr) (value j : ℕ)
    → node_of j ≢ p
    → (set_spin m p value).spin (node_of j) ≡ m.spin (node_of j)
spin_apart m p value j apart = ground arith

spin_there : (m : MalthusianMutex) (p : Ptr) (value : ℕ) → (set_spin m p value).spin p ≡ value
spin_there m p value = ground arith

weight-le : (b : Bool) (w : View Pc) → weight b w ≤ 1
weight-le b outside = omega arith
weight-le b (at prepare) = omega arith
weight-le b (at p) = ground arith
weight-le b w = omega arith

-- The operations on the passive set leave the words of the waiters and the tail of the queue alone.
pub pop_back_spares :
    (m : MalthusianMutex)
    → ((passive_set_pop_back m).0.spin ≡ m.spin) × ((passive_set_pop_back m).0.tail ≡ m.tail)
unfolding passive_set_pop_back
pop_back_spares m = ground arith

pub pop_front_spares :
    (m : MalthusianMutex)
    → ((passive_set_pop_front m).0.spin ≡ m.spin) × ((passive_set_pop_front m).0.tail ≡ m.tail)
unfolding passive_set_pop_front
pop_front_spares m = ground arith

pub push_front_spares :
    (m : MalthusianMutex) (p : Ptr)
    → ((passive_set_push_front m p).spin ≡ m.spin) × ((passive_set_push_front m p).tail ≡ m.tail)
unfolding passive_set_push_front
push_front_spares m p = ground arith

module _ (i : ℕ) (m : MalthusianMutex) (v : View Pc) where
  abbrev pub Leads : MalthusianMutex × View Pc → Type 0
  Leads r = Moves holds vacant Fact i m v r.0 r.1

  pub reads : (v' : View Pc) → holds i m v' ≤ holds i m v → Fact i m v' → Leads (m, v')
  reads v' less f = Handover.reads holds vacant Fact i m v v' less f

  -- A step that does not write `spin`, and leaves a tail.
  pub writes :
      (m' : MalthusianMutex) (v' : View Pc)
      → m'.spin ≡ m.spin
      → (vacant m' ≡ true → vacant m ≡ true)
      → holds i m' v' ≤ holds i m v
      → Fact i m' v'
      → Leads (m', v')
  writes m' v' spins back less f = record {
    change = keep (λ j ne w. rw spins) less back;
    own = f;
    others = λ j ne w only g. Fact-keeps j m m' w g;
  }

  -- A step that writes the own `spin` alone, before the wait or in it.
  pub own_spin :
      (m' : MalthusianMutex) (value : ℕ) (v' : View Pc)
      → m'.spin ≡ assign m.spin (node_of i) value
      → m'.tail ≡ m.tail
      → weight (value == locked) v' ≤ holds i m v
      → Fact i m' v'
      → Leads (m', v')
  own_spin m' value v' spins tails less f =
      let apart : (j : ℕ) → j ≢ i → m'.spin (node_of j) ≡ m.spin (node_of j) =
        λ j ne. rw spins (spin_apart m (node_of i) value j (λ e. ne (omega (arith, e)))) in
      let there : m'.spin (node_of i) ≡ value = rw spins (spin_there m (node_of i) value) in
      record {
        change =
            keep (λ j ne w. ap (λ (k : ℕ). weight (k == locked) w) (apart j ne)) (rw there less)
              (λ e. rw (← tails) e);
        own = f;
        others = λ j ne w only g. Fact-keeps j m m' w g;
      }

  pub enters :
      (m' : MalthusianMutex)
      → m.tail ≡ null
      → m'.tail ≢ null
      → m'.spin ≡ m.spin
      → Leads (m', inside)
  enters m' was now spins = record {
    change = enter (λ j ne w. rw spins) (ground arith) (ground arith) (omega arith);
    own = tt;
    others = λ j ne w only g. Fact-keeps j m m' w g;
  }

  pub hands :
      (p : Ptr) (value : ℕ) (v' : View Pc)
      → holds i m v ≡ 1
      → ((b : Bool) → weight b v' ≡ 0)
      → Fact i (set_spin m p value) v'
      → Leads (set_spin m p value, v')
  hands p value v' had gone f = record {
    change =
        hand (p - 1)
          (λ j ne nq w.
            ap (λ (k : ℕ). weight (k == locked) w)
              (spin_apart m p value j (λ e. nq (omega (arith, e)))))
          (λ w. weight-le (assign m.spin p value (node_of (p - 1)) == locked) w) had
          (gone (assign m.spin p value (node_of i) == locked)) (λ e. e);
    own = f;
    others = λ j ne w only g. Fact-keeps j m (set_spin m p value) w g;
  }
