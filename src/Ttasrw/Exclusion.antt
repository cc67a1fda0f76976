-- ===== src/Ttasrw/Exclusion.antt =====
-- Writers exclude everybody, as long as there are fewer than 256 threads.
use shfllock.Base.{
  ℕ, ◌+◌, ◌*◌, ◌≤◌, ◌<◌, ◌≡◌, ◌≢◌, refl, inl, inr, true, false, Bool-cases, List, [], ◌∷◌, arith,
  ltb, assign, all-assign, tally-le, tally, tally-assign, le-tally, add-le-tally, tally-const, ◌⊎◌,
}
use native.Mathlib.Nat.{le_trans}
use shfllock.Ttasrw.RwLock.{
  TtasrwRwlock, w_mask, Thread, outside, rd_read, rd_swap, tryrd_swap, reading, writing,
  unlock_read, rdunlock, wrunlock, Op, Event, State, step, turn, run, create,
}

-- Whether a thread counts as a reader, and as a writer.
abbrev pub reads : Thread → ℕ
reads reading = 1
reads (unlock_read false) = 1
reads (rdunlock false) = 1
reads (wrunlock false) = 1
reads t = 0

abbrev pub writes : Thread → ℕ
writes writing = 1
writes (unlock_read true) = 1
writes (rdunlock true) = 1
writes (wrunlock true) = 1
writes t = 0

-- Behind the test of `unlock` a reader is in the reader's branch, and a writer in the writer's.
abbrev Straight : Thread → Type 0
Straight (rdunlock true) = ⊥
Straight (wrunlock false) = ⊥
Straight (rd_swap aux) = aux ≤ 255
Straight (tryrd_swap aux) = aux ≤ 255
Straight t = Unit {0}

-- `readers` and `writers` are how many there are.
record Word (m : TtasrwRwlock) (readers writers : ℕ) : Type 0 where
  value : m.lock_data ≡ readers + 256 * writers
  one : writers ≤ 1
  alone : (writers ≡ 0) ⊎ (readers ≡ 0)
  few : readers ≤ 255

step-Word :
    (o : Op) (m : TtasrwRwlock) (t : Thread) (r w r' w' : ℕ)
    → Word m r w
    → Straight t
    → reads t ≤ r
    → writes t ≤ w
    → r' + reads t ≡ r + reads (step o m t).1
    → w' + writes t ≡ w + writes (step o m t).1
    → r' ≤ 255
    → Word (step o m t).0 r' w' × Straight (step o m t).1
unfolding step
step-Word o m rd_read r w r' w' k s hr hw er ew b = ground arith
step-Word o m t r w r' w' k s hr hw er ew b = ground arith

record Inv (n : ℕ) (s : State) : Type 0 where
  word : Word s.mem (tally reads n s.thread) (tally writes n s.thread)
  straight : (i : ℕ) → Straight (s.thread i)

reads-le : (t : Thread) → reads t ≤ 1
reads-le (unlock_read true) = omega arith
reads-le t = ground arith

turn-Inv : (n : ℕ) (e : Event) (s : State) → n ≤ 255 → Inv n s → Inv n (turn n e s)
unfolding turn
turn-Inv n e s few v = elim (Bool-cases (ltb e.tid n)) [
  | inr out ↦ rw out v
  | inl real ↦
      let i = e.tid in
      let low : i < n = ground arith in
      let r = step e.op s.mem (s.thread i) in
      let kept =
        step-Word e.op s.mem (s.thread i) (tally reads n s.thread) (tally writes n s.thread)
          (tally reads n (assign s.thread i r.1)) (tally writes n (assign s.thread i r.1)) v.word
          (v.straight i) (le-tally reads n s.thread i low) (le-tally writes n s.thread i low)
          (tally-assign reads n s.thread i r.1 low) (tally-assign writes n s.thread i r.1 low)
          (le_trans (tally-le reads reads-le n (assign s.thread i r.1)) few) in
      rw real
        (record { word = kept.0; straight = all-assign Straight s.thread i r.1 v.straight kept.1 })
]

run-Inv : (n : ℕ) (es : List Event) (s : State) → n ≤ 255 → Inv n s → Inv n (run n es s)
unfolding run
run-Inv n [] s few v = v
run-Inv n (e ∷ es) s few v = run-Inv n es (turn n e s) few (turn-Inv n e s few v)

create-Inv : (n : ℕ) → Inv n create
create-Inv n =
    let no_reader = tally-const reads n outside refl in
    let no_writer = tally-const writes n outside refl in
    record {
      word = record {
        value = omega (arith, no_reader, no_writer);
        one = omega (arith, no_writer);
        alone = inl no_writer;
        few = omega (arith, no_reader);
      };
      straight = λ i. tt;
    }

module _ (n : ℕ) (few : n ≤ 255) (es : List Event) where
  last-Inv : Inv n (run n es create)
  last-Inv = run-Inv n es create few (create-Inv n)

  -- With at most 255 threads, in every run, where a thread holds the lock for writing no other thread
  -- holds it, for writing or for reading.
  pub rwlock_exclusive :
      (i j : ℕ)
      → i < n
      → j < n
      → writes ((run n es create).thread i) ≡ 1
      → i ≢ j
      → (writes ((run n es create).thread j) ≡ 0) × (reads ((run n es create).thread j) ≡ 0)
  rwlock_exclusive i j hi hj wi apart =
      let s = run n es create in
      let v = last-Inv.word in
      (
        omega (arith, wi, v.one, add-le-tally writes n s.thread i j hi hj apart),
        omega (
          arith,
          v.one,
          v.alone,
          wi,
          le-tally writes n s.thread i hi,
          le-tally reads n s.thread j hj,
        ),
      )

  -- With at most 255 threads the word counts the readers, and stands at W_MASK while a thread holds
  -- the lock for writing.
  pub rwlock_counts :
      (run n es create).mem.lock_data
      ≡ tally reads n (run n es create).thread + w_mask * tally writes n (run n es create).thread
  rwlock_counts = last-Inv.word.value
