-- ===== src/Cna/Flush.antt =====
-- The queues behind an unlock of cna.c that does not pass the lock within its NUMA node.
use shfllock.Base.{ℕ, ◌≡◌, refl, List, [], ◌∷◌, ◌++◌, arith}
use shfllock.Cna.Memory.{Ptr, null, node_of, CnaMutex, set_next, set_spin}
use shfllock.Cna.Mutex.{
  find, own_node, compare, after_first, scan, follow, second, last_of, read_next, join, wake, first,
  step,
}
use shfllock.Cna.Rows.{
  Row, Distinct, last, Row-assign, Row-last, Row-append, Distinct-append, last-Fresh,
}
use shfllock.Cna.Successor.{Away, Queues, Handed, home, Ends, more, done}

-- The first of the nodes has been handed the lock and leads the others, and the second queue is empty.
abbrev pub Flushed : List Ptr → CnaMutex → Type 0
Flushed [] m = ⊥
Flushed (x ∷ xs) m = Handed m x xs []

module _ (cpus nodes i reg : ℕ) where
  -- Where the unlock does not look for a waiter of its NUMA node, or has found none, and no other
  -- thread runs meanwhile: it ends, and there is one queue, of the second queue and then the waiters,
  -- whose first node has the lock and an empty second queue.
  pub second-Flushed :
      (m : CnaMutex) (z : Ptr) (zs xs : List Ptr)
      → Distinct (xs ++ (z ∷ zs))
      → Queues m (node_of i) (z ∷ zs) xs
      → Ends cpus nodes i reg (Flushed (xs ++ (z ∷ zs))) m second
  unfolding step
  second-Flushed m z zs [] d q =
      let m' = set_spin m z 1 in
      more {m' = m} first (ground (arith, q.aside)) (
        more {m' = m} (wake z) (rw q.row.0 refl)
          (done {m' = m'} (refl) (record { row = q.row.1; aside = ground arith }, ground arith)))
  second-Flushed m z zs (x ∷ xs) d q =
      let h = m.spin (node_of i) in
      let l = last x xs in
      let m' = set_next m l z in
      let off = last-Fresh x xs (z ∷ zs) d in
      let front = Row-last m.next z h x xs null (Distinct-append (x ∷ xs) (z ∷ zs) d).0 q.aside.1 in
      let back = Row-assign m.next l z z (z ∷ zs) null off (refl, q.row.1) in
      let whole = Row-append m'.next h z (x ∷ xs) (z ∷ zs) null front back in
      more {m' = m} (last_of h) (ground (arith, q.aside.0)) (
        more {m' = m} (read_next h l) (rw q.aside.2 refl) (
          more {m' = m} (join h l z) (rw q.row.0 refl) (
            more {m' = m'} (wake h) (refl) (
              done {m' = set_spin m' h 1} (refl) (
                record { row = whole.1; aside = ground (arith, whole.0) },
                ground (arith, whole.0),
              )))))

  scan-Flushed :
      {R : CnaMutex → Type 0} (m : CnaMutex) (s head tail p : Ptr) (zs : List Ptr)
      → Row m.next p zs null
      → Away m s zs
      → Ends cpus nodes i reg R m second
      → Ends cpus nodes i reg R m (scan head tail p s)
  unfolding step
  scan-Flushed m s head tail p [] r a k = more {m' = m} second (ground (arith, r)) k
  scan-Flushed m s head tail p (z ∷ zs) r a k =
      more {m' = m} (follow head z s) (ground (arith, r.0, a.0, a.1)) (
        more {m' = m} (scan head z (m.next z) s) (refl)
          (scan-Flushed m s head z (m.next z) zs r.1 a.2 k))

  -- Let the holder look for a waiter of its NUMA node `s`, which is that of the processor where its
  -- lock call did not take one down. Where there is none, and no other thread runs meanwhile: the
  -- unlock ends, and there is one queue, of the second queue and then the waiters, whose first node
  -- has the lock and an empty second queue.
  pub find-Flushed :
      (m : CnaMutex) (s z : ℕ) (zs xs : List Ptr)
      → home cpus nodes reg m (node_of i) ≡ s
      → Away m s (z ∷ zs)
      → Distinct (xs ++ (z ∷ zs))
      → Queues m (node_of i) (z ∷ zs) xs
      → Ends cpus nodes i reg (Flushed (xs ++ (z ∷ zs))) m find
  unfolding step
  find-Flushed m s z zs xs mine a d q = more {m' = m} (own_node z) (rw q.row.0 refl) (
      more {m' = m} (compare z s) (rw mine refl) (
        more {m' = m} (after_first z s) (ground (arith, a.1)) (
          more {m' = m} (scan z z (m.next z) s) (refl)
            (scan-Flushed m s z z (m.next z) zs q.row.1 a.2 (second-Flushed m z zs xs d q)))))
