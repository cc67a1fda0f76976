-- ===== src/Cna/Successor.antt =====
-- An unlock of cna.c that passes the lock to the first waiter of its NUMA node.
use shfllock.Base.{ℕ, ◌≡◌, ◌≢◌, ◌≤◌, ◌<◌, refl, List, [], ◌∷◌, arith, ◌==◌, if◌then◌else◌}
use shfllock.Cna.Memory.{Ptr, null, node_of, no_socket, CnaMutex, set_next, set_sec_tail, set_spin}
use shfllock.Aqs.Memory.{current_numa_node}
use shfllock.Cna.Mutex.{
  Pc, find, own_node, compare, after_first, scan, follow, skip, cut, set_last, pass, pass_value,
  step,
}
use shfllock.Cna.Rows.{Row, last}
use shfllock.Protocol.Code.{go, released}

-- The nodes of the list are waiters of other NUMA nodes than `s`.
abbrev pub Away : CnaMutex → ℕ → List Ptr → Type 0
Away m s [] = Unit {0}
Away m s (z ∷ zs) = (1 < z) × (m.socket z ≢ s) × Away m s zs

-- The second queue that the node `p` keeps in `spin`.
abbrev pub Second : CnaMutex → Ptr → List Ptr → Type 0
Second m p [] = m.spin p ≤ 1
Second m p (x ∷ xs) =
    (1 < m.spin p) × Row m.next (m.spin p) (x ∷ xs) null × (m.sec_tail (m.spin p) ≡ last x xs)

-- The holder with the node `p` leads the queue `main`, and keeps the queue `second`.
pub record Queues (m : CnaMutex) (p : Ptr) (main second : List Ptr) : Type 0 where
  pub row : Row m.next (m.next p) main null
  pub aside : Second m p second

-- What the first of the second queue's nodes makes of the new holder's `spin`, where 1 stands for none.
abbrev pub passed : List Ptr → ℕ
passed [] = 1
passed (x ∷ xs) = x

-- The thread with the node `p` has been handed the lock, and with it both queues.
abbrev pub Handed : CnaMutex → Ptr → (main second : List Ptr) → Type 0
Handed m p main second = Queues m p main second × (m.spin p ≡ passed second)

-- The NUMA node for which `find_successor` looks: that of the lock call, or where it was not taken
-- down, the one of the processor, which `rdtscp` names as `reg`.
abbrev pub home : (cpus nodes reg : ℕ) → CnaMutex → Ptr → ℕ
home cpus nodes reg m p =
    if m.socket p == no_socket then current_numa_node cpus nodes reg else m.socket p

module _ (cpus nodes i reg : ℕ) where
  -- The steps of thread `i` alone from `p`, where `rdtscp` reads `reg`, end with `released`, in a memory
  -- of which `R` holds.
  pub data Ends (R : CnaMutex → Type 0) : CnaMutex → Pc → Type 0 where
    more :
        {m m' : CnaMutex} {p : Pc} (q : Pc)
        → step cpus nodes i reg m p ≡ (m', go q)
        → Ends R m' q
        → Ends R m p
    done :
        {m m' : CnaMutex} {p : Pc} → step cpus nodes i reg m p ≡ (m', released) → R m' → Ends R m p

  module _ {R : CnaMutex → Type 0} where
    scan-Ends :
        (m : CnaMutex) (s head tail p : Ptr) (zs : List Ptr) (w : Ptr)
        → Row m.next p zs w
        → Away m s zs
        → w ≢ null
        → m.socket w ≡ s
        → Ends R m (skip head (last tail zs) w)
        → Ends R m (scan head tail p s)
    unfolding step
    scan-Ends m s head tail p [] w r a nw e k = more (skip head tail w) (ground (arith, r, nw, e)) k
    scan-Ends m s head tail p (z ∷ zs) w r a nw e k =
        more (follow head z s) (ground (arith, r.0, a.0, a.1)) (
          more (scan head z (m.next z) s) (refl)
            (scan-Ends m s head z (m.next z) zs w r.1 a.2 nw e k))

    -- The end of `find_successor`, and the store of `me->spin` to the new holder.
    pub cut-Ends :
        (m : CnaMutex) (h t w : Ptr)
        → m.spin (node_of i) ≡ h
        → 1 < h
        → R (set_spin (set_sec_tail (set_next m t null) h t) w h)
        → Ends R m (cut t w)
    unfolding step
    cut-Ends m h t w e big r =
        let open_end = set_next m t null in
        let stored = set_sec_tail open_end h t in
        more {m' = open_end} (set_last t w) (refl) (
          more {m' = stored} (pass w) (rw e refl)
            (more {m' = stored} (pass_value w h) (ground (arith, e, big)) (done (refl) r)))

    -- The scan of `find_successor` from the first waiter, which is of another node.
    pub moved-Ends :
        (m : CnaMutex) (s z : Ptr) (zs : List Ptr) (w : Ptr)
        → home cpus nodes reg m (node_of i) ≡ s
        → Row m.next (m.next (node_of i)) (z ∷ zs) w
        → Away m s (z ∷ zs)
        → w ≢ null
        → m.socket w ≡ s
        → Ends R m (skip z (last z zs) w)
        → Ends R m find
    unfolding step
    moved-Ends m s z zs w mine r a nw e k = more {m' = m} (own_node z) (rw r.0 refl) (
        more {m' = m} (compare z s) (rw mine refl) (
          more {m' = m} (after_first z s) (ground (arith, a.1)) (
            more {m' = m} (scan z z (m.next z) s) (refl)
              (scan-Ends m s z z (m.next z) zs w r.1 a.2 nw e k))))

    -- The first waiter is of the same node.
    pub first-Ends :
        (m : CnaMutex) (s w : Ptr)
        → home cpus nodes reg m (node_of i) ≡ s
        → m.next (node_of i) ≡ w
        → m.socket w ≡ s
        → Ends R m (pass w)
        → Ends R m find
    unfolding step
    first-Ends m s w mine r e k =
        more {m' = m} (own_node w) (rw r refl) (
          more {m' = m} (compare w s) (rw mine refl) (more {m' = m} (pass w) (ground (arith, e)) k))
