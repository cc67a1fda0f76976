-- ===== src/Interpose/Arrive.antt =====
-- The steps of `ht_lock_get` and `ht_lock_create` keep what the client knows in line with what the
-- locks say.
use shfllock.Base.{
  ℕ, ◌<◌, ◌≡◌, ◌≢◌, refl, subst, fun_ext, true, false, inl, inr, Bool-cases, arith, ◌==◌,
}
use shfllock.Protocol.Code.{Code}
use shfllock.Protocol.Wrapper.{Posix}
use shfllock.Interpose.Table.{Ptr, null, Table, TableLaws}
use shfllock.Interpose.Calls.{Op, Request, Stage, get, create, put, get_again, State, found, step}
use shfllock.Interpose.Invariant.{StageOk, aims, pending}
use shfllock.Interpose.Faithful.{Faithful, drops, Faithful-to, Faithful-create, Faithful-put}
use shfllock.Interpose.Lookup.{Inv, found-quiet}

found-off :
    (op : Op) (k l : ℕ) (p : Ptr)
    → p ≢ null
    → aims (found op k p) l ≡ false
    → aims (get op k) l ≡ false
found-off op k l p real a = ground arith

found-drops :
    (op : Op) (k l : ℕ) (p : Ptr) → drops (found op k p) l ≡ true → drops (get op k) l ≡ true
found-drops op k l p a = ground arith

pub pending-new :
    (look : ℕ → Ptr) (next : Ptr) (g : Stage)
    → StageOk look next g
    → pending g ≢ null
    → (pending g < next) × ((j : ℕ) → look j ≢ pending g)
pending-new look next (put op k p) v real = (v.1, v.2)
pending-new look next g v real = absurd (real refl)

module _ {T M P I X : Type 0} {b : Table T} (laws : TableLaws b) (c : Code M P I) (px : Posix X)
    (n : ℕ) (m : M) where
  abbrev pub Agreed : State T M P X → Type 0
  Agreed s = Faithful c px n m (b.clht_get s.table) s.held s.heap s.stage

  module _ (i : ℕ) (y : I) (q : Request) (s : State T M P X) (v : Inv laws c px n m s)
      (w : Agreed s) where
    pub own : (g : Stage) → s.stage i ≡ g → StageOk (b.clht_get s.table) s.next g
    own g e = subst (StageOk (b.clht_get s.table) s.next) e (v.stages.ok i)

    pub get-Agreed :
        (op : Op) (k : ℕ) → s.stage i ≡ get op k → Agreed (step b c px n m i y q s (get op k))
    unfolding step
    get-Agreed op k e = elim (Bool-cases (b.clht_get s.table k == null)) [
      | inl missing ↦
          rw missing (Faithful-to c px n m w i (create op k) (λ l a. rw e a) (λ l d. rw e d) refl)
      | inr there ↦
          let p = b.clht_get s.table k in
          rw there (
            Faithful-to c px n m w i (found op k p)
              (λ l a. rw e (found-off op k l p (ground arith) a))
              (λ l d. rw e (found-drops op k l p d)) (found-quiet laws c px n m op k p))
    ]

    pub create-Agreed :
        (op : Op) (k : ℕ) → s.stage i ≡ create op k → Agreed (step b c px n m i y q s (create op k))
    unfolding step
    create-Agreed op k e =
        let low : null < s.next = omega (arith, v.locks.small 0) in
        Faithful-create c px n m w s.next i op k v.locks.small
          (λ j z.
            let made =
              pending-new (b.clht_get s.table) s.next (s.stage j) (v.stages.ok j)
                (λ x. omega (arith, x, z, low)) in
            omega (arith, made.0, z))
          (λ l a. rw e a) (λ l d. rw e d)

    pub put-Agreed :
        (op : Op) (k : ℕ) (p : Ptr)
        → s.stage i ≡ put op k p
        → Agreed (step b c px n m i y q s (put op k p))
    unfolding step
    put-Agreed op k p e =
        let t = (b.clht_put s.table k p).0 in
        let mine = own (put op k p) e in
        elim (Bool-cases (b.clht_get s.table k == null)) [
          | inl missing ↦
              let r = laws.put-new s.table k p (ground arith) in
              let free : (j : ℕ) → s.held j k ≡ false = λ j. elim (Bool-cases (s.held j k)) [
                | inl has ↦ absurd ((v.locks.holding j k has).0 (ground arith))
                | inr not ↦ not
              ] in
              rw (r.0) (
                Faithful-put c px n m w (b.clht_get t) i op k p (found op k p) e mine.0
                  (ground arith) r.1 (λ l ne. laws.put-other s.table k l p ne) free
                  (λ l a. found-off op k l p mine.0 a) (λ l d. found-drops op k l p d)
                  (found-quiet laws c px n m op k p))
          | inr there ↦
              let r = laws.put-old s.table k p (ground arith) in
              let same : b.clht_get t ≡ b.clht_get s.table = fun_ext (λ j.
                elim (Bool-cases (k == j)) [
                  | inl here ↦ ground (arith, r.1)
                  | inr ne ↦ laws.put-other s.table k j p (ground arith)
                ]) in
              rw (r.0, same)
                (Faithful-to c px n m w i (get_again op k) (λ l a. rw e a) (λ l d. rw e d) refl)
        ]

    pub get_again-Agreed :
        (op : Op) (k : ℕ)
        → s.stage i ≡ get_again op k
        → Agreed (step b c px n m i y q s (get_again op k))
    unfolding step
    get_again-Agreed op k e =
        let p = b.clht_get s.table k in
        Faithful-to c px n m w i (found op k p)
          (λ l a. rw e (found-off op k l p (own (get_again op k) e) a))
          (λ l d. rw e (found-drops op k l p d)) (found-quiet laws c px n m op k p)
