-- ===== src/Partitioned/Steps.antt =====
-- Every step of partitioned.c, and its beginning.
use shfllock.Base.{
  ℕ, suc, ◌+◌, ◌%◌, ◌^◌, ◌<◌, ◌≡◌, refl, ap, ◌∙◌, subst, true, inl, inr, Bool-cases, arith, ◌==◌,
  ltb, assign,
}
use shfllock.Protocol.Cases.{move-cases}
use shfllock.Protocol.Induct.{moved}
use shfllock.Protocol.Code.{View, outside, at, inside, Op, State, start, after}
use shfllock.Partitioned.Mutex.{
  PartitionedMutex, Pc, fetch, spin, own, try_index, try_grant, try_compare, read_owner, store,
  step, partitioned, create,
}
use shfllock.Partitioned.Facts.{within, Fact, Inv}
use shfllock.Partitioned.Moves.{stay-Inv, enter-Inv, leave-Inv}

module _ {slots : ℕ} (some_slot : 0 < slots) (stray : ℕ → ℕ → PartitionedMutex → PartitionedMutex)
    {n k : ℕ} (s : State PartitionedMutex Pc) (v : Inv slots n (suc k) s) (i : ℕ)
    (low : i < n) where
  -- The state behind a step of thread `i` that leaves `r`.
  abbrev Leads : View Pc → PartitionedMutex × View Pc → Type 0
  Leads w r = s.view i ≡ w → Inv slots n k (record { mem = r.0; view = assign s.view i r.1 })

  abbrev Goal : Pc → Type 0
  Goal q = Leads (at q) ((step slots stray i tt s.mem q).0, after (step slots stray i tt s.mem q).1)

  mine : (w : View Pc) → s.view i ≡ w → Fact (v.places.place i) v.places.front s.mem.owner_ticket w
  mine w e = subst (Fact (v.places.place i) v.places.front s.mem.owner_ticket) e (v.each i low)

  stays :
      (w w' : View Pc)
      → within w ≡ within w'
      → Fact (v.places.place i) v.places.front s.mem.owner_ticket w'
      → Leads w (s.mem, w')
  stays w w' same f e =
      stay-Inv some_slot s v i low s.mem.owner_ticket w' (ap within e ∙ same) (inl refl) f

  spin-Inv : (t : ℕ) → Goal (spin t)
  unfolding step
  spin-Inv t e =
      let f : t ≡ v.places.place i = mine (at (spin t)) e in
      let here = v.line.placed i low (ap within e) in
      elim (Bool-cases (s.mem.grants (t % slots) == t)) [
        | inr other ↦ rw other (stays (at (spin t)) (at (spin t)) refl f e)
        | inl granted ↦
            let le = v.passed (t % slots) (omega arith) in
            rw granted (stays (at (spin t)) (at (own t)) refl (f, ground (arith, le, here.0)) e)
      ]

  store-Inv : (new : ℕ) → Goal (store new)
  unfolding step
  store-Inv new e =
      let f = mine (at (store new)) e in
      let here = v.line.placed i low (ap within e) in
      let new_is : new ≡ suc v.places.front = omega (arith, f) in
      let small : ltb new (2 ^ 31) ≡ true = ground (arith, here.1, v.bound) in
      rw small (rw new_is (leave-Inv some_slot s v i low (ap within e) f.1))

  step-Leads : (q : Pc) → Goal q
  unfolding step
  step-Leads fetch e =
      let next : (v.places.back + 1) % 2 ^ 32 ≡ suc v.places.back = omega (arith, v.bound) in
      rw (v.request, next) (enter-Inv some_slot s v i low (ap within e))
  step-Leads (spin t) e = spin-Inv t e
  step-Leads (own t) e =
      let f = mine (at (own t)) e in
      stay-Inv some_slot s v i low t inside (ap within e) (inr (ap within e, f.1)) f
  step-Leads try_index e = stays (at try_index) (at (try_grant s.mem.request)) refl tt e
  step-Leads (try_grant r) e =
      stays (at (try_grant r)) (at (try_compare (s.mem.grants (r % slots)))) refl tt e
  step-Leads (try_compare g) e = elim (Bool-cases (g == s.mem.request)) [
    | inl same ↦ rw same (stays (at (try_compare g)) (at fetch) refl tt e)
    | inr late ↦ rw late (stays (at (try_compare g)) outside refl tt e)
  ]
  step-Leads read_owner e =
      let f = mine (at read_owner) e in
      let here = v.line.placed i low (ap within e) in
      stays (at read_owner) (at (store ((s.mem.owner_ticket + 1) % 2 ^ 32))) refl
        (omega (arith, f, here, v.bound), f.1) e
  step-Leads (store new) e = store-Inv new e

  pub moved-Inv : (x : Unit {0}) (o : Op) → Inv slots n k (moved (partitioned slots stray) i x o s)
  unfolding partitioned
  moved-Inv x o =
      move-cases (partitioned slots stray) i x s.mem Leads (λ q. step-Leads q)
        (λ e. stays outside (at fetch) refl tt e) (λ e. stays outside (at try_index) refl tt e)
        (λ e. stays inside (at read_owner) refl (mine inside e) e)
        (λ e. stays inside (at read_owner) refl (mine inside e) e)
        (λ e. stays inside inside refl (mine inside e) e) (λ w e. stays w w refl (mine w e) e) o
        (s.view i) refl

pub idle-Inv :
    (slots n k : ℕ) (s : State PartitionedMutex Pc) → Inv slots n (suc k) s → Inv slots n k s
idle-Inv slots n k s v = record {
  places = v.places;
  line = v.line;
  request = v.request;
  bound = omega (arith, v.bound);
  served = v.served;
  passed = v.passed;
  each = v.each;
}

pub start-Inv : (slots n k : ℕ) → k < 2 ^ 31 → Inv slots n k (start create)
unfolding create
start-Inv slots n k small = record {
  places = record { front = 0; back = 0; place = λ j. 0; owner = λ q. 0 };
  line = record {
    order = omega arith;
    placed = λ j h e. cc;
    owned = λ q a b. absurd (omega arith);
  };
  request = refl;
  bound = omega (arith, small);
  served = refl;
  passed = λ r h. omega arith;
  each = λ j h. tt;
}
