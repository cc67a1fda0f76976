-- ===== src/Partitioned/Exclusion.antt =====
-- The partitioned ticket lock in every run.
use shfllock.Base.{
  ℕ, length, ◌%◌, ◌^◌, ◌<◌, ◌≡◌, sym, ap, ◌∙◌, subst, true, inl, inr, ◌⊎◌, List, arith, ℕ_discrete,
}
use shfllock.Mcs.Line.{same_place}
use shfllock.Protocol.Induct.{run-spends}
use shfllock.Protocol.Code.{View, outside, at, inside, dead, start}
use shfllock.Protocol.Wrapper
use shfllock.Protocol.Wrapper.{Posix}
use shfllock.Protocol.Refinement.{view_of, project, shadows, length-shadows, run-project}
use shfllock.Partitioned.Mutex.{
  PartitionedMutex, Pc, spin, own, read_owner, store, partitioned, create, mutex,
}
use shfllock.Partitioned.Facts.{within, Fact, Inv}
use shfllock.Partitioned.Steps.{moved-Inv, idle-Inv, start-Inv}

-- Thread `v` has the lock, or waits with a ticket before `t`.
abbrev pub Before : ℕ → View Pc → Type 0
Before t outside = ⊥
Before t (at (spin u)) = u < t
Before t (at (own u)) = Unit {0}
Before t (at read_owner) = Unit {0}
Before t (at (store u)) = Unit {0}
Before t inside = Unit {0}
Before t v = ⊥

Fact-Before :
    (pl f o t : ℕ) (v : View Pc) → within v ≡ true → pl ≡ f → f < t → Fact pl f o v → Before t v
Fact-Before pl f o t outside w e h fact = cc
Fact-Before pl f o t (at (spin u)) w e h fact = omega (arith, fact, e, h)
Fact-Before pl f o t (at p) w e h fact = ground (arith, w)
Fact-Before pl f o t inside w e h fact = tt
Fact-Before pl f o t dead w e h fact = cc

module _ (slots : ℕ) (some_slot : 0 < slots) (stray : ℕ → ℕ → PartitionedMutex → PartitionedMutex)
    {X : Type 0} (px : Posix X) (n : ℕ) (es : List (Wrapper.Event (Unit {0})))
    (short : length es < 2 ^ 31) where
  final : Inv slots n 0 (project (mutex slots stray px n es))
  unfolding mutex
  final =
      let c = partitioned slots stray in
      let s = Wrapper.start create px in
      let events = shadows c px n es s in
      let small : length events < 2 ^ 31 = rw (length-shadows c px n es s) short in
      subst (Inv slots n 0) (sym (run-project c px n es s)) (
        run-spends c n (Inv slots n) (idle-Inv slots n)
          (λ k i x o t low v. moved-Inv some_slot stray t v i low x o) events (start create)
          (start-Inv slots n (length events) small))

  fact :
      (i : ℕ) (w : View Pc)
      → i < n
      → view_of ((mutex slots stray px n es).thread i) ≡ w
      → Fact
          (final.places.place i)
          final.places.front
          (mutex slots stray px n es).mem.owner_ticket
          w
  fact i w h e =
      subst
        (Fact (final.places.place i) final.places.front
          (mutex slots stray px n es).mem.owner_ticket)
        e (final.each i h)

  -- With at least one slot and over fewer than 2 ^ 31 steps, whatever the schedule and the POSIX
  -- library do: two threads never hold a partitioned mutex together.
  pub partitioned_exclusive :
      (i j : ℕ)
      → i < n
      → j < n
      → view_of ((mutex slots stray px n es).thread i) ≡ inside
      → view_of ((mutex slots stray px n es).thread j) ≡ inside
      → i ≡ j
  partitioned_exclusive i j hi hj ei ej =
      same_place final.line i j hi hj (ap within ei) (ap within ej)
        ((fact i inside hi ei).1 ∙ sym (fact j inside hj ej).1)

  -- With at least one slot and over fewer than 2 ^ 31 steps, where a thread waits with ticket `t`: its
  -- slot grants `t`, or another thread has the lock or waits with a ticket before `t`.
  pub partitioned_waits_for :
      (i t : ℕ)
      → i < n
      → view_of ((mutex slots stray px n es).thread i) ≡ at (spin t)
      → ((mutex slots stray px n es).mem.grants (t % slots) ≡ t)
        ⊎ ((j : ℕ) × (j < n) × Before t (view_of ((mutex slots stray px n es).thread j)))
  partitioned_waits_for i t hi e =
      let v = final in
      let t_is : t ≡ v.places.place i = fact i (at (spin t)) hi e in
      let here = v.line.placed i hi (ap within e) in
      elim (ℕ_discrete v.places.front t) [
        | yes first ↦ inl (
            subst (λ (u : ℕ). (mutex slots stray px n es).mem.grants (u % slots) ≡ u) first
              v.served)
        | no other ↦
            let (real, on, place) =
              v.line.owned v.places.front (omega arith) (omega (arith, here)) in
            let j = v.places.owner v.places.front in
            inr (
              j,
              real,
              Fact-Before (v.places.place j) v.places.front
                  (mutex slots stray px n es).mem.owner_ticket t
                  (view_of ((mutex slots stray px n es).thread j)) on place
                  (omega (arith, t_is, here, other)) (v.each j real),
            )
      ]
