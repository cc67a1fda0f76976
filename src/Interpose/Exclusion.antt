-- ===== src/Interpose/Exclusion.antt =====
-- What the interposed functions promise to a program that destroys no mutex, on top of any lock.
use shfllock.Base.{
  ℕ, ◌<◌, ◌≡◌, ◌≢◌, ◌↔◌, ◌⊎◌, ◌∙◌, refl, sym, ap, subst, true, false, inl, inr, Bool-cases, List,
  arith, ◌==◌,
}
use shfllock.Protocol.Code.{Code, inside}
use shfllock.Protocol.Wrapper
use shfllock.Protocol.Wrapper.{Posix}
use shfllock.Protocol.Refinement.{view_of}
use shfllock.Interpose.Table.{Ptr, null, Table, TableLaws}
use shfllock.Interpose.Calls.{Op, Event, returned, calling, fault, State, run, start}
use shfllock.Interpose.Invariant.{StageOk}
use shfllock.Interpose.Lookup.{Inv}
use shfllock.Interpose.Faithful.{Stand}
use shfllock.Interpose.Held.{run-Agreed, start-Agreed}
use shfllock.Interpose.Steps.{undestroyed, run-Inv, start-Inv}

module _ {T M P I X : Type 0} {b : Table T} (laws : TableLaws b) (c : Code M P I) (px : Posix X)
    (n : ℕ) (m : M) (es : List (Event I)) (kept : undestroyed es ≡ true) where
  abbrev final : State T M P X
  final = run b c px n m es (start b c px n m)

  final-Inv : Inv laws c px n m final
  final-Inv = run-Inv laws c px n m es (start b c px n m) kept (start-Inv laws c px n m)

  -- Let no schedule of a lock let two threads in together. Then in every schedule of calls of the
  -- interposed functions that destroys no mutex, two threads never hold the same mutex together, also
  -- where several threads use it for the first time at once.
  pub interposed_exclusive :
      ((fs : List (Wrapper.Event I)) (i j : ℕ)
        → i < n
        → j < n
        → view_of ((Wrapper.run c px n fs (Wrapper.start m px)).thread i) ≡ inside
        → view_of ((Wrapper.run c px n fs (Wrapper.start m px)).thread j) ≡ inside
        → i ≡ j)
      → (i j mutex : ℕ) → i < n
      → j < n
      → (run b c px n m es (start b c px n m)).held i mutex ≡ true
      → (run b c px n m es (start b c px n m)).held j mutex ≡ true
      → i ≡ j
  interposed_exclusive safe i j k hi hj ei ej =
      let v = final-Inv.locks in
      let p = b.clht_get final.table k in
      let r = v.runs p in
      let here : (l : ℕ)
          → view_of ((final.heap p).thread l) ≡ inside
          → view_of ((Wrapper.run c px n r.0 (Wrapper.start m px)).thread l) ≡ inside =
        λ l e. subst (λ s. view_of (s.thread l) ≡ inside) r.1 e in
      safe r.0 i j hi hj (here i (v.holding i k ei).1) (here j (v.holding j k ej).1)

  -- In every schedule that destroys no mutex, two threads that have reached the lock's own function
  -- are at the same lock where they were called for the same mutex, and only there.
  pub interposed_lookup :
      (i j : ℕ) (op op' : Op) (mutex mutex' : ℕ) (impl impl' : Ptr)
      → (run b c px n m es (start b c px n m)).stage i ≡ calling op mutex impl
      → (run b c px n m es (start b c px n m)).stage j ≡ calling op' mutex' impl'
      → (mutex ≡ mutex') ↔ (impl ≡ impl')
  interposed_lookup i j op op' k k' p p' ei ej =
      let v = final-Inv in
      let a : StageOk (b.clht_get final.table) final.next (calling op k p) =
        subst (StageOk (b.clht_get final.table) final.next) ei (v.stages.ok i) in
      let d : StageOk (b.clht_get final.table) final.next (calling op' k' p') =
        subst (StageOk (b.clht_get final.table) final.next) ej (v.stages.ok j) in
      (
        λ e. sym a.0 ∙ ap (b.clht_get final.table) e ∙ d.0,
        λ e. v.locks.apart k k' (rw (a.0) a.1) (a.0 ∙ e ∙ sym d.0),
      )

  -- In every schedule that destroys no mutex, no call reads the lock of a mutex that is not in the
  -- table.
  pub interposed_finds : (i : ℕ) → (run b c px n m es (start b c px n m)).stage i ≢ fault
  interposed_finds i e =
      subst (StageOk (b.clht_get final.table) final.next) e (final-Inv.stages.ok i)

  -- In every schedule of calls that destroys no mutex, for a thread that is in no call and any mutex:
  -- either the client holds the mutex there, the mutex has a lock, and the thread has that lock and is
  -- in none of its functions; or the client does not hold it, and the mutex has no lock yet, or the
  -- thread is outside of it.
  pub interposed_held :
      (i r mutex : ℕ)
      → (run b c px n m es (start b c px n m)).stage i ≡ returned r
      → (let s = run b c px n m es (start b c px n m) in
          let impl = b.clht_get s.table mutex in
          ((s.held i mutex ≡ true) × (impl ≢ null) × Stand true ((s.heap impl).thread i))
          ⊎ ((s.held i mutex ≡ false) × ((impl ≡ null) ⊎ Stand false ((s.heap impl).thread i))))
  interposed_held i r k e =
      let impl = b.clht_get final.table k in
      let w =
        run-Agreed laws c px n m es (start b c px n m) kept (start-Inv laws c px n m)
          (start-Agreed laws c px n m) in
      let seen : impl ≢ null → Stand (final.held i k) ((final.heap impl).thread i) =
        λ there. (w.settled i k there).0 (rw e refl) in
      elim (Bool-cases (final.held i k)) [
        | inl has ↦
            let there = (final-Inv.locks.holding i k has).0 in
            inl (has, there, subst (λ h. Stand h ((final.heap impl).thread i)) has (seen there))
        | inr not ↦ inr (
          not,
          elim (Bool-cases (impl == null)) [
            | inl missing ↦ inl (ground arith)
            | inr there ↦
                let stands = seen (ground arith) in
                inr (subst (λ h. Stand h ((final.heap impl).thread i)) not stands)
          ],
        )
      ]
