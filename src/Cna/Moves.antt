-- ===== src/Cna/Moves.antt =====
-- What a step of cna.c does to the token and to the facts of the threads: the kinds of step.
use shfllock.Base.{
  ℕ, ◌-◌, ◌/◌, ◌≤◌, ◌≡◌, ◌≢◌, refl, ap, inl, inr, Bool, true, arith, assign, ℕ_discrete,
}
use shfllock.Cna.Memory.{Ptr, null, node_of, CnaMutex, set_spin}
use shfllock.Cna.Mutex.{Pc, prepare, sleeps}
use shfllock.Cna.Facts.{weight, holds, vacant, HasLast, Fact, Mild, Strong, Fact-Mild, Fact-Strong}
use shfllock.Protocol.Code.{View, outside, at, inside}
use shfllock.Protocol.Token.{enter, keep, hand}
use shfllock.Protocol.Handover
use shfllock.Protocol.Handover.{Moves}

-- Steps that leave the nodes of the others alone, or of the holder.
pub milds :
    (i : ℕ) (m m' : CnaMutex) (v : View Pc)
    → ((j : ℕ) → j ≢ i → Mild j m m')
    → (j : ℕ) → j ≢ i
    → (w : View Pc) → (holds i m v ≡ 1 → holds j m w ≡ 0)
    → Fact j m w
    → Fact j m' w
milds i m m' v mild j ne w only f = Fact-Mild j m m' w (mild j ne) f

strongs :
    (i : ℕ) (m m' : CnaMutex) (v : View Pc)
    → holds i m v ≡ 1
    → ((j : ℕ) → j ≢ i → Strong j m m')
    → (j : ℕ) → j ≢ i
    → (w : View Pc) → (holds i m v ≡ 1 → holds j m w ≡ 0)
    → Fact j m w
    → Fact j m' w
strongs i m m' v had strong j ne w only f = Fact-Strong j m m' w (strong j ne) (only had) f

abbrev pub CnaMoves : ℕ → CnaMutex → View Pc → CnaMutex → View Pc → Type 0
CnaMoves = Moves holds vacant Fact

pub spin_apart :
    (m : CnaMutex) (p : Ptr) (value j : ℕ)
    → node_of j ≢ p
    → (set_spin m p value).spin (node_of j) ≡ m.spin (node_of j)
spin_apart m p value j apart = ground arith

spin_there : (m : CnaMutex) (p : Ptr) (value : ℕ) → (set_spin m p value).spin p ≡ value
spin_there m p value = ground arith

pub weight-le : (b : Bool) (w : View Pc) → weight b w ≤ 1
weight-le b outside = omega arith
weight-le b (at prepare) = omega arith
weight-le b (at p) = ground arith
weight-le b w = omega arith

module _ (i : ℕ) (m : CnaMutex) (v : View Pc) where
  abbrev pub Leads : CnaMutex × View Pc → Type 0
  Leads r = CnaMoves i m v r.0 r.1

  -- A step that writes nothing.
  pub reads : (v' : View Pc) → holds i m v' ≤ holds i m v → Fact i m v' → Leads (m, v')
  reads v' less f = Handover.reads holds vacant Fact i m v v' less f

  -- A step that writes neither `spin` nor `sec_tail`, and leaves a tail.
  pub writes :
      (m' : CnaMutex) (v' : View Pc)
      → m'.spin ≡ m.spin
      → m'.sec_tail ≡ m.sec_tail
      → ((j : ℕ) → j ≢ i → m.next (node_of j) ≢ null → m'.next (node_of j) ≢ null)
      → (vacant m' ≡ true → vacant m ≡ true)
      → holds i m' v' ≤ holds i m v
      → Fact i m' v'
      → Leads (m', v')
  writes m' v' spins lasts nexts back less f = record {
    change = keep (λ j ne w. rw spins) less back;
    own = f;
    others = milds i m m' v (λ j ne. (rw spins, nexts j ne, λ p h. rw lasts h));
  }

  -- A step of the holder that does not write `spin`, and leaves a tail.
  pub rewires :
      (m' : CnaMutex) (v' : View Pc)
      → m'.spin ≡ m.spin
      → ((p : Ptr) → m.sec_tail p ≢ null → m'.sec_tail p ≢ null)
      → (vacant m' ≡ true → vacant m ≡ true)
      → holds i m v ≡ 1
      → holds i m' v' ≤ holds i m v
      → Fact i m' v'
      → Leads (m', v')
  rewires m' v' spins stays back had less f = record {
    change = keep (λ j ne w. rw spins) less back;
    own = f;
    others = strongs i m m' v had (λ j ne. (inl (rw spins), stays));
  }

  -- The last step of an unlock: `spin` of the node at `p` becomes `value`.
  pub hands :
      (p : Ptr) (value : ℕ)
      → holds i m v ≡ 1
      → HasLast m value
      → Leads (set_spin m p value, outside)
  hands p value had last = record {
    change =
        hand (p / 64 - 1)
          (λ j ne nq w.
            let apart : node_of j ≢ p = λ e. nq (omega (arith, e)) in
            ap (λ b. weight (sleeps b) w) (spin_apart m p value j apart))
          (λ w. weight-le (sleeps (assign m.spin p value (node_of (p / 64 - 1)))) w) had refl
          (λ e. e);
    own = tt;
    others = strongs i m (set_spin m p value) v had (λ j ne. elim (ℕ_discrete (node_of j) p) [
      | yes e ↦ (inr (rw (e, spin_there m p value) last), λ q h. h)
      | no apart ↦ (inl (spin_apart m p value j apart), λ q h. h)
    ]);
  }

module _ (i : ℕ) (m : CnaMutex) where
  abbrev pub me : Ptr
  me = node_of i

  -- The stores to the own node before it is in the queue.
  pub prepares :
      (v v' : View Pc) (m' : CnaMutex)
      → m'.spin ≡ assign m.spin me 0
      → m'.sec_tail ≡ m.sec_tail
      → m'.tail ≡ m.tail
      → ((j : ℕ) → j ≢ i → m.next (node_of j) ≢ null → m'.next (node_of j) ≢ null)
      → weight true v' ≡ 0
      → (HasLast m' (m'.spin me) → Fact i m' v')
      → CnaMoves i m v m' v'
  prepares v v' m' spins lasts tails nexts none f =
      let apart : (j : ℕ) → j ≢ i → m'.spin (node_of j) ≡ m.spin (node_of j) =
        λ j ne. rw spins (spin_apart m me 0 j (λ e. ne (omega (arith, e)))) in
      let zeroed : m'.spin me ≡ 0 = rw spins (spin_there m me 0) in
      record {
        change =
            keep (λ j ne w. ap (λ b. weight (sleeps b) w) (apart j ne))
              (rw zeroed (omega (arith, none))) (λ e. rw (← tails) e);
        own = f (rw zeroed (λ h. absurd (omega arith)));
        others = milds i m m' v (λ j ne. (apart j ne, nexts j ne, λ p h. rw lasts h));
      }

  -- A step that takes the lock, where nobody is in the queue.
  pub enters :
      (v : View Pc) (m' : CnaMutex)
      → m.tail ≡ null
      → m'.tail ≢ null
      → m'.spin ≡ m.spin
      → m'.sec_tail ≡ m.sec_tail
      → m'.next ≡ m.next
      → HasLast m (m.spin me)
      → CnaMoves i m v m' inside
  enters v m' was now spins lasts nexts f = record {
    change = enter (λ j ne w. rw spins) (ground arith) (ground arith) (omega arith);
    own = rw (spins, lasts) f;
    others = milds i m m' v (λ j ne. (rw spins, rw nexts (λ h. h), rw lasts (λ p h. h)));
  }
