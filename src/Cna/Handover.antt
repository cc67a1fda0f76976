-- ===== src/Cna/Handover.antt =====
-- The queues behind an unlock of cna.c that finds a waiter of its NUMA node.
use shfllock.Base.{
  ℕ, ◌≡◌, ◌≢◌, ◌≤◌, ◌<◌, refl, ◌∙◌, List, [], ◌∷◌, ◌++◌, append-nil, arith, ◌==◌, if◌then◌else◌,
  assign, assign_other,
}
use shfllock.Cna.Memory.{Ptr, null, node_of, CnaMutex, set_next, set_sec_tail, set_spin}
use shfllock.Cna.Mutex.{find, skip, append, append_at, cut, pass, pass_value, step}
use shfllock.Cna.Rows.{
  Row, Distinct, last, Row-assign, Row-last, Row-append, Row-split, last-append, Fresh-append,
  Distinct-append, last-Fresh, Fresh-before,
}
use shfllock.Cna.Successor.{
  Away, Second, Queues, Handed, home, Ends, more, done, cut-Ends, moved-Ends, first-Ends,
}

-- The links behind the two stores of an append.
abbrev joined : (Ptr → Ptr) → (l z t : Ptr) → Ptr → Ptr
joined next l z t = assign (assign next l z) t null

module _ (next : Ptr → Ptr) (x : Ptr) (xs : List Ptr) (z : Ptr) (zs : List Ptr) (w : Ptr)
    (rest : List Ptr) (d : Distinct (x ∷ (xs ++ (z ∷ (zs ++ (w ∷ rest)))))) where
  abbrev behind_xs : List Ptr
  behind_xs = z ∷ (zs ++ (w ∷ rest))

  joined-second :
      (h : Ptr)
      → Row next h (x ∷ xs) null
      → Row next z (z ∷ zs) w
      → Row (joined next (last x xs) z (last z zs)) h (x ∷ (xs ++ (z ∷ zs))) null
  joined-second h q r =
      let t = last z zs in
      let l = last x xs in
      let parts = Distinct-append (x ∷ xs) behind_xs d in
      let off_l = Fresh-append l (z ∷ zs) (w ∷ rest) (last-Fresh x xs behind_xs d) in
      let linked = assign next l z in
      Row-append (joined next l z t) h z (x ∷ xs) (z ∷ zs) null
        (Row-assign linked t null h (x ∷ xs) z (Fresh-before (x ∷ xs) z zs (w ∷ rest) d)
          (Row-last next z h x xs null parts.0 q))
        (Row-last linked null z z zs w (Distinct-append (z ∷ zs) (w ∷ rest) parts.1).0
          (Row-assign next l z z (z ∷ zs) w off_l.0 r))

  joined-main :
      Row next (next w) rest null
      → Row
          (joined next (last x xs) z (last z zs))
          (joined next (last x xs) z (last z zs) w)
          rest
          null
  joined-main r =
      let t = last z zs in
      let l = last x xs in
      let off = last-Fresh z zs (w ∷ rest) (Distinct-append (x ∷ xs) behind_xs d).1 in
      let off_l = (Fresh-append l (z ∷ zs) (w ∷ rest) (last-Fresh x xs behind_xs d)).1 in
      let linked = assign next l z in
      let same = assign_other linked t null w off.0 ∙ assign_other next l z w off_l.0 in
      rw same (
        Row-assign linked t null (next w) rest null off.1
          (Row-assign next l z (next w) rest null off_l.1 r))

Handed-Queues :
    (m : CnaMutex) (h t w : Ptr) (rest : List Ptr) (x : Ptr) (xs : List Ptr)
    → 1 < h
    → last x xs ≡ t
    → Row m.next (m.next w) rest null
    → Row m.next h (x ∷ xs) null
    → Handed (set_spin (set_sec_tail m h t) w h) w rest (x ∷ xs)
Handed-Queues m h t w rest x xs big e main r =
    let at_w : assign m.spin w h w ≡ h = ground arith in
    let at_h : assign m.sec_tail h t h ≡ last x xs = ground (arith, e) in
    (record { row = main; aside = rw at_w (big, r, at_h) }, rw at_w r.0)

module _ (cpus nodes i reg : ℕ) where
  -- No waiter is moved.
  keep-Ends :
      (m : CnaMutex) (w : Ptr) (rest xs : List Ptr)
      → Row m.next (m.next w) rest null
      → Second m (node_of i) xs
      → Ends cpus nodes i reg (λ m'. Handed m' w rest xs) m (pass w)
  unfolding step
  keep-Ends m w rest [] r q =
      let v = m.spin (node_of i) in
      let value = if v == 0 then 1 else v in
      more {m' = m} (pass_value w value) (refl) (
        done {m' = set_spin m w value} (refl)
          (record { row = r; aside = ground (arith, q) }, ground (arith, q)))
  keep-Ends m w rest (x ∷ xs) r q =
      let v = m.spin (node_of i) in
      more {m' = m} (pass_value w v) (ground (arith, q.0)) (
        done {m' = set_spin m w v} (refl)
          (record { row = r; aside = ground (arith, q) }, ground (arith, q.1.0)))

  -- The second queue was empty.
  start-Ends :
      (m : CnaMutex) (z : Ptr) (zs : List Ptr) (w : Ptr) (rest : List Ptr)
      → 1 < z
      → Distinct (z ∷ (zs ++ (w ∷ rest)))
      → Row m.next z (z ∷ zs) w
      → Row m.next (m.next w) rest null
      → m.spin (node_of i) ≤ 1
      → Ends cpus nodes i reg (λ m'. Handed m' w rest (z ∷ zs)) m (skip z (last z zs) w)
  unfolding step
  start-Ends m z zs w rest big d r behind q =
      let t = last z zs in
      let me = node_of i in
      let m' = set_spin m me z in
      let off = last-Fresh z zs (w ∷ rest) d in
      let closed = Row-last m.next null z z zs w (Distinct-append (z ∷ zs) (w ∷ rest) d).0 r in
      let same = assign_other m.next t null w off.0 in
      more {m' = m'} (cut t w) (ground (arith, q)) (
        cut-Ends cpus nodes i reg m' z t w (ground arith) big (
          Handed-Queues (set_next m' t null) z t w rest z zs big refl
            (rw same (Row-assign m.next t null (m.next w) rest null off.1 behind)) closed))

  -- The second queue was `x ∷ xs`.
  append-Ends :
      (m : CnaMutex) (x : Ptr) (xs : List Ptr) (z : Ptr) (zs : List Ptr) (w : Ptr) (rest : List Ptr)
      → Distinct (x ∷ (xs ++ (z ∷ (zs ++ (w ∷ rest)))))
      → Row m.next z (z ∷ zs) w
      → Row m.next (m.next w) rest null
      → Second m (node_of i) (x ∷ xs)
      → Ends cpus nodes i reg
          (λ m'. Handed m' w rest (x ∷ (xs ++ (z ∷ zs))))
          m
          (skip z (last z zs) w)
  unfolding step
  append-Ends m x xs z zs w rest d r behind q =
      let t = last z zs in
      let l = last x xs in
      let h = m.spin (node_of i) in
      let m' = set_next m l z in
      more {m' = m} (append z t w) (ground (arith, q.0)) (
        more {m' = m} (append_at l z t w) (rw q.2 refl) (
          more {m' = m'} (cut t w) (refl) (
            cut-Ends cpus nodes i reg m' h t w refl q.0 (
              Handed-Queues (set_next m' t null) h t w rest x (xs ++ (z ∷ zs)) q.0
                (last-append x xs z zs) (joined-main m.next x xs z zs w rest d behind)
                (joined-second m.next x xs z zs w rest d h q.1 r)))))

  -- Let the holder look for a waiter of its NUMA node `s`, which is that of the processor where its
  -- lock call did not take one down. Where the waiters in front of the first such one, `w`, are `zs`,
  -- and no other thread runs meanwhile: the unlock ends, `w` has the lock and leads the waiters behind
  -- it, `zs` stand in their order behind the second queue, and the `spin` of `w` is the first node of
  -- that queue, or 1 where it is empty.
  pub find_successor-Queues :
      (m : CnaMutex) (s : ℕ) (zs : List Ptr) (w : Ptr) (rest xs : List Ptr)
      → home cpus nodes reg m (node_of i) ≡ s
      → Away m s zs
      → w ≢ null
      → m.socket w ≡ s
      → Distinct (xs ++ (zs ++ (w ∷ rest)))
      → Queues m (node_of i) (zs ++ (w ∷ rest)) xs
      → Ends cpus nodes i reg (λ m'. Handed m' w rest (xs ++ zs)) m find
  find_successor-Queues m s [] w rest xs mine a nw e d q =
      let r = q.row in
      first-Ends cpus nodes i reg m s w mine r.0 e
        (keep-Ends m w rest (xs ++ []) r.1 (rw (append-nil xs) q.aside))
  find_successor-Queues m s (z ∷ zs) w rest [] mine a nw e d q =
      let parts = Row-split m.next (m.next (node_of i)) (z ∷ zs) w rest null q.row in
      moved-Ends cpus nodes i reg m s z zs w mine parts.0 a nw e
        (start-Ends m z zs w rest a.0 d (refl, parts.0.1) parts.1 q.aside)
  find_successor-Queues m s (z ∷ zs) w rest (x ∷ xs) mine a nw e d q =
      let parts = Row-split m.next (m.next (node_of i)) (z ∷ zs) w rest null q.row in
      moved-Ends cpus nodes i reg m s z zs w mine parts.0 a nw e
        (append-Ends m x xs z zs w rest d (refl, parts.0.1) parts.1 q.aside)
