-- ===== src/Aqs/Shuffle/Correct.antt =====
-- What `shuffle_waiters` does to the queue when no other thread interrupts it.
use shfllock.Base.{
  ℕ, ◌≡◌, refl, sym, subst, ◌∙◌, inl, inr, Bool, false, Bool-cases, some, List, [], ◌∷◌, ◌++◌,
  arith, ◌==◌, if◌then◌else◌,
}
use shfllock.Aqs.Memory.{Ptr, null, AqsMutex, keep_lock_local, set_waitcount, set_sleader}
use shfllock.Aqs.Shuffle.{Pc, Locals, step, begin, visited, clear, random, pass, loop, out}
use shfllock.Aqs.Shuffle
use shfllock.Aqs.Shuffle.Solo.{
  solo, more, links, Leads, Ends-solo, out-Leads, links-waitcount, links-sleader,
}
use shfllock.Aqs.Shuffle.Walk.{Good}
use shfllock.Aqs.Shuffle.Rounds.{walk}
use shfllock.Aqs.Queue.{Linked-split, count, IsDistinct, Linked, ending}
use shfllock.Aqs.Queue.Walk.{Walk}
use shfllock.Aqs.Queue.Reorder.{Reordered, Reordered-refl}

-- The queue from `node` on: distinct nodes, the last of which has no `next`. The waiter that the
-- last shuffler looked at last, if `node` has one on record, is the last of `node ∷ gap`.
pub record Queue (m : AqsMutex) (node : Ptr) (gap cs : List Ptr) : Type 0 where
  pub chain : Linked (links m) node (node ∷ (gap ++ cs)) null
  pub distinct : IsDistinct (node ∷ (gap ++ cs))
  pub real : count null (node ∷ (gap ++ cs)) ≡ 0
  pub visited :
      (if (m.node node).last_visited == null then node else (m.node node).last_visited)
      ≡ ending node gap

abbrev pub nid_in : AqsMutex → Ptr → ℕ
nid_in m p = (m.node p).nid

module _ (i : ℕ) (m : AqsMutex) (node : Ptr) (nx : Bool) (gap cs : List Ptr)
    (q : Queue m node gap cs) where
  abbrev Result : (Ptr → Ptr) → Type 0
  Result = Good i node (nid_in m) (nid_in m node) (node ∷ (gap ++ cs))

  abbrev Goes : AqsMutex → Pc → Type 0
  Goes = Leads i Result

  untouched : (m1 : AqsMutex) → links m1 ≡ links m → Result (links m1)
  untouched m1 same =
      subst Result (sym same)
        (node ∷ (gap ++ cs), q.chain, Reordered-refl (nid_in m) (nid_in m node) node _)

  abbrev start : Ptr → ℕ → Locals
  start prev n = record {
    node = node;
    is_next_waiter = nx;
    nid = nid_in m node;
    curr_locked_count = n;
    one_shuffle = false;
    prev = prev;
    last = node;
  }

  enter :
      (m1 : AqsMutex) (prev n : ℕ)
      → links m1 ≡ links m
      → ((p : Ptr) → nid_in m1 p ≡ nid_in m p)
      → prev ≡ ending node gap
      → Goes m1 (loop (start prev n))
  enter m1 prev n same nids e =
      let parts = Linked-split (links m) node gap cs null q.chain.1 in
      walk i node (nid_in m) (nid_in m node) (node ∷ (gap ++ cs)) cs m1 (start prev n) [] gap
        (record {
          nids = nids;
          own = refl;
          here = refl;
          prev = e;
          walk =
              subst (λ f. Walk f node null [] node gap cs) (sym same)
                (record { front = refl; middle = parts.0; back = parts.1; distinct = q.distinct });
          real = q.real;
          order = Reordered-refl (nid_in m) (nid_in m node) node _;
        })

  from_random :
      (m1 : AqsMutex) (prev n : ℕ)
      → links m1 ≡ links m
      → ((p : Ptr) → nid_in m1 p ≡ nid_in m p)
      → prev ≡ ending node gap
      → Goes m1 (random (start prev n))
  unfolding step
  from_random m1 prev n same nids e = elim (Bool-cases (keep_lock_local i (m1.rv i)).1) [
    | inl stay ↦
        more {p = random (start prev n)} (loop (start prev n)) (rw stay)
          (enter _ prev n same nids e)
    | inr give ↦ more {p = random (start prev n)} (pass (start prev n)) (rw give) (
        more {p = pass (start prev n)} (out nx (links m1 node) null) refl
          (out-Leads i Result _ nx (links m1 node) null (untouched m1 same)))
  ]

  from_clear :
      (m1 : AqsMutex) (prev n : ℕ)
      → links m1 ≡ links m
      → ((p : Ptr) → nid_in m1 p ≡ nid_in m p)
      → prev ≡ ending node gap
      → Goes m1 (clear (start prev n))
  unfolding step
  from_clear m1 prev n same nids e = more {p = clear (start prev n)} (random (start prev n)) refl (
      from_random (set_sleader m1 node 0) prev n (links-sleader m1 node 0 ∙ same)
        (λ p. ground (arith, nids p, nids node)) e)

  from_begin : Goes m (begin node nx)
  unfolding step
  from_begin =
      let lv = (m.node node).last_visited in
      let prev = if lv == null then node else lv in
      let n = (m.node node).wcount in
      more {p = begin node nx} (Shuffle.visited (start node n)) refl (
        more {p = Shuffle.visited (start node n)} (Shuffle.count (start prev n)) refl
          (elim (Bool-cases (n == 0)) [
            | inl first ↦
                more {p = Shuffle.count (start prev n)} (clear (start prev 1)) (rw first) (
                  rw first (
                    from_clear (set_waitcount m node 1) prev 1 (links-waitcount m node 1)
                      (λ p. ground arith) q.visited))
            | inr again ↦
                more {p = Shuffle.count (start prev n)} (clear (start prev n)) (rw again)
                  (rw again (from_clear m prev n refl (λ p. refl) q.visited))
          ]))

  -- Called on a queue that no other thread changes meanwhile, `shuffle_waiters` returns. From the
  -- shuffler's node the `next` pointers then lead through a queue that begins with that node, has
  -- each waiter as often as before and no other, ends with the same waiter, and has the waiters of
  -- the other NUMA nodes in the same order as before.
  pub shuffle_reorders :
      (k : ℕ) × (m' : AqsMutex) × (b : Bool) × (solo k i m (begin node nx) ≡ some (m', b))
      × (new : List Ptr) × Linked (links m') node new null
      × Reordered (nid_in m) (nid_in m node) node (node ∷ (gap ++ cs)) new
  shuffle_reorders = let (k, m', b, e, g) = Ends-solo from_begin in (k, m', b, e, g.0, g.1, g.2)
