-- ===== src/Interpose/Lookup.antt =====
-- The steps of `ht_lock_get` and `ht_lock_create` keep the invariant.
use shfllock.Base.{
  ℕ, suc, ◌<◌, ◌≡◌, ◌≢◌, refl, subst, fun_ext, true, inl, inr, Bool-cases, arith, ◌==◌,
}
use shfllock.Protocol.Code.{Code}
use shfllock.Protocol.Wrapper.{Posix}
use shfllock.Interpose.Table.{Ptr, null, Table, TableLaws}
use shfllock.Interpose.Calls.{
  Op, Request, Stage, returned, get, create, put, get_again, calling, remove, fault, State, at,
  found, step,
}
use shfllock.Interpose.Locks.{Locks, Locks-create, Locks-put}
use shfllock.Interpose.Invariant.{StageOk, aims, pending, Stages, Stages-move}

module _ {T M P I X : Type 0} {b : Table T} (laws : TableLaws b) (c : Code M P I) (px : Posix X)
    (n : ℕ) (m : M) where
  pub record Inv (s : State T M P X) : Type 0 where
    pub locks : Locks c px n m (b.clht_get s.table) s.next s.held s.heap
    pub stages : Stages (b.clht_get s.table) s.next s.held s.stage

  -- One thread moves on, and nothing else changes.
  pub to-Inv :
      (s : State T M P X) (i : ℕ) (g : Stage)
      → Inv s
      → StageOk (b.clht_get s.table) s.next g
      → ((k : ℕ) → aims g k ≡ true → aims (s.stage i) k ≡ true)
      → pending g ≡ null
      → Inv (at s i g)
  to-Inv s i g v good sub quiet = record {
    locks = v.locks;
    stages =
        Stages-move v.stages (b.clht_get s.table) s.next s.held i g (λ j ne. v.stages.ok j)
          (λ j k ne. refl) good (λ k a. v.stages.away i k (sub k a)) (λ ne. absurd (ne quiet));
  }

  pub found-ok :
      (look : ℕ → Ptr) (next : Ptr) (op : Op) (k : ℕ) (p : Ptr)
      → look k ≡ p
      → p ≢ null
      → StageOk look next (found op k p)
  found-ok look next op k p e real = ground arith

  pub found-aims :
      (op : Op) (k j : ℕ) (p : Ptr) → aims (found op k p) j ≡ true → aims (get op k) j ≡ true
  found-aims op k j p e = ground arith

  pub found-quiet : (op : Op) (k : ℕ) (p : Ptr) → pending (found op k p) ≡ null
  found-quiet op k p = ground arith

  pub get-Inv :
      (i : ℕ) (y : I) (q : Request) (s : State T M P X) (op : Op) (k : ℕ)
      → s.stage i ≡ get op k
      → Inv s
      → Inv (step b c px n m i y q s (get op k))
  unfolding step
  get-Inv i y q s op k e v = elim (Bool-cases (b.clht_get s.table k == null)) [
    | inl missing ↦ rw missing (to-Inv s i (create op k) v tt (λ j a. rw e a) refl)
    | inr there ↦ rw there (
        to-Inv s i (found op k (b.clht_get s.table k)) v
          (found-ok (b.clht_get s.table) s.next op k (b.clht_get s.table k) refl (ground arith))
          (λ j a. rw e (found-aims op k j (b.clht_get s.table k) a))
          (found-quiet op k (b.clht_get s.table k)))
  ]

  pending-old :
      (look : ℕ → Ptr) (next : Ptr) (g : Stage)
      → StageOk look next g
      → null < next
      → pending g ≢ next
  pending-old look next g v low = ground arith

  StageOk-next :
      (look : ℕ → Ptr) (next : Ptr) (g : Stage) → StageOk look next g → StageOk look (suc next) g
  StageOk-next look next (put op k p) v = (v.0, omega (arith, v.1), v.2)
  StageOk-next look next g v = v

  pub create-Inv :
      (i : ℕ) (y : I) (q : Request) (s : State T M P X) (op : Op) (k : ℕ)
      → s.stage i ≡ create op k
      → Inv s
      → Inv (step b c px n m i y q s (create op k))
  unfolding step
  create-Inv i y q s op k e v =
      let low : null < s.next = omega (arith, v.locks.small 0) in
      record {
        locks = Locks-create c px n m v.locks;
        stages =
            Stages-move v.stages (b.clht_get s.table) (suc s.next) s.held i (put op k s.next)
              (λ j ne. StageOk-next (b.clht_get s.table) s.next (s.stage j) (v.stages.ok j))
              (λ j l ne. refl)
              ((λ z. omega (arith, low, z)), omega arith, λ j z. omega (arith, v.locks.small j, z))
              (λ l a. v.stages.away i l (rw e a))
              (λ real j ne.
                pending-old (b.clht_get s.table) s.next (s.stage j) (v.stages.ok j) low);
      }

  StageOk-put :
      (look look' : ℕ → Ptr) (next : Ptr) (k : ℕ) (p : Ptr) (g : Stage)
      → look k ≡ null
      → look' k ≡ p
      → ((j : ℕ) → k ≢ j → look' j ≡ look j)
      → p ≢ null
      → pending g ≢ p
      → StageOk look next g
      → StageOk look' next g
  StageOk-put look look' next k p (put op l o) free here same real other v = (
    v.0,
    v.1,
    λ j. elim (Bool-cases (k == j)) [
      | inl own ↦ ground (arith, here)
      | inr ne ↦ ground (arith, same j, v.2 j)
    ],
  )
  StageOk-put look look' next k p (get_again op l) free here same real other v =
      ground (arith, same l)
  StageOk-put look look' next k p (calling op l o) free here same real other v =
      ((ground (arith, same l, v.0, v.1)), v.1, v.2)
  StageOk-put look look' next k p (returned r) free here same real other v = tt
  StageOk-put look look' next k p (get op l) free here same real other v = tt
  StageOk-put look look' next k p (create op l) free here same real other v = tt
  StageOk-put look look' next k p (remove l) free here same real other v = v
  StageOk-put look look' next k p fault free here same real other v = v

  -- `clht_put` of a key that is there changes nothing.
  same-Inv :
      (s : State T M P X) (t : T)
      → ((j : ℕ) → b.clht_get t j ≡ b.clht_get s.table j)
      → Inv s
      → Inv (record s { table = t })
  same-Inv s t same v =
      let e : b.clht_get t ≡ b.clht_get s.table = fun_ext same in
      record { locks = rw e v.locks; stages = rw e v.stages }

  publish-Inv :
      (i : ℕ) (s : State T M P X) (op : Op) (k : ℕ) (p : Ptr) (t : T)
      → s.stage i ≡ put op k p
      → b.clht_get s.table k ≡ null
      → b.clht_get t k ≡ p
      → ((j : ℕ) → k ≢ j → b.clht_get t j ≡ b.clht_get s.table j)
      → StageOk (b.clht_get s.table) s.next (put op k p)
      → Inv s
      → Inv (at (record s { table = t }) i (found op k p))
  publish-Inv i s op k p t e free here same mine v = record {
    locks = Locks-put c px n m v.locks (b.clht_get t) k p free here same mine.0 mine.1 mine.2;
    stages =
        Stages-move v.stages (b.clht_get t) s.next s.held i (found op k p)
          (λ j ne.
            StageOk-put (b.clht_get s.table) (b.clht_get t) s.next k p (s.stage j) free here same
              mine.0 (λ z. ground (arith, v.stages.single i j, e, z, mine.0, ne)) (v.stages.ok j))
          (λ j l ne. refl) (found-ok (b.clht_get t) s.next op k p here mine.0)
          (λ l a. v.stages.away i l (rw e (found-aims op k l p a)))
          (λ real. absurd (real (found-quiet op k p)));
  }

  pub put-Inv :
      (i : ℕ) (y : I) (q : Request) (s : State T M P X) (op : Op) (k : ℕ) (p : Ptr)
      → s.stage i ≡ put op k p
      → Inv s
      → Inv (step b c px n m i y q s (put op k p))
  unfolding step
  put-Inv i y q s op k p e v =
      let t = (b.clht_put s.table k p).0 in
      let mine : StageOk (b.clht_get s.table) s.next (put op k p) =
        subst (StageOk (b.clht_get s.table) s.next) e (v.stages.ok i) in
      elim (Bool-cases (b.clht_get s.table k == null)) [
        | inl missing ↦
            let r = laws.put-new s.table k p (ground arith) in
            rw (r.0) (
              publish-Inv i s op k p t e (ground arith) r.1
                (λ j ne. laws.put-other s.table k j p ne) mine v)
        | inr there ↦
            let r = laws.put-old s.table k p (ground arith) in
            let same : (j : ℕ) → b.clht_get t j ≡ b.clht_get s.table j = λ j.
              elim (Bool-cases (k == j)) [
                | inl own ↦ ground (arith, r.1)
                | inr ne ↦ laws.put-other s.table k j p (ground arith)
              ] in
            rw (r.0) (
              to-Inv (record s { table = t }) i (get_again op k) (same-Inv s t same v)
                (ground (arith, r.1)) (λ j a. rw e a) refl)
      ]

  pub get_again-Inv :
      (i : ℕ) (y : I) (q : Request) (s : State T M P X) (op : Op) (k : ℕ)
      → s.stage i ≡ get_again op k
      → Inv s
      → Inv (step b c px n m i y q s (get_again op k))
  unfolding step
  get_again-Inv i y q s op k e v =
      let p = b.clht_get s.table k in
      to-Inv s i (found op k p) v
        (found-ok (b.clht_get s.table) s.next op k p refl
          (subst (StageOk (b.clht_get s.table) s.next) e (v.stages.ok i)))
        (λ j a. rw e (found-aims op k j p a)) (found-quiet op k p)
