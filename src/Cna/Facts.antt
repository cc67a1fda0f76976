-- ===== src/Cna/Facts.antt =====
-- What is true of each thread of cna.c: which of them has the lock, and that a second queue whose
-- address stands in `spin` has a last node.
use shfllock.Base.{ℕ, ◌<◌, ◌≡◌, ◌≢◌, ◌⊎◌, inl, inr, Bool, arith, ◌==◌, if◌then◌else◌}
use shfllock.Cna.Memory.{Ptr, null, node_of, CnaMutex}
use shfllock.Cna.Mutex.{
  Pc, prepare, swap_tail, set_node, link, sleep, try_prepare, try_swap, read_tail, splice,
  keep_local, find, own_node, compare, after_first, scan, follow, skip, append, append_at, cut,
  set_last, pass, pass_value, second, last_of, read_next, join, wake, first, sleeps,
}
use shfllock.Protocol.Code.{View, outside, at, inside, dead}

-- The token of a thread, where `asleep` says that its `spin` is 0.
abbrev pub weight : (asleep : Bool) → View Pc → ℕ
weight b outside = 0
weight b (at prepare) = 0
weight b (at try_prepare) = 0
weight b (at try_swap) = 0
weight b (at swap_tail) = if b then 0 else 1
weight b (at (set_node t)) = if b then 0 else 1
weight b (at (link t)) = if b then 0 else 1
weight b (at sleep) = if b then 0 else 1
weight b dead = 0
weight b v = 1

abbrev pub holds : ℕ → CnaMutex → View Pc → ℕ
holds i m v = weight (sleeps (m.spin (node_of i))) v

abbrev pub vacant : CnaMutex → Bool
vacant m = m.tail == null

-- Where `v` is the address of a second queue, that queue has a last node.
abbrev pub HasLast : CnaMutex → ℕ → Type 0
HasLast m v = 1 < v → m.sec_tail v ≢ null

abbrev pub Fact : ℕ → CnaMutex → View Pc → Type 0
Fact i m outside = Unit {0}
Fact i m (at prepare) = Unit {0}
Fact i m (at try_prepare) = Unit {0}
Fact i m (at (set_node t)) = HasLast m (m.spin (node_of i)) × (t ≢ null)
Fact i m (at (link t)) = HasLast m (m.spin (node_of i)) × (t ≢ null)
Fact i m (at (read_tail h)) = HasLast m (m.spin (node_of i)) × (m.sec_tail h ≢ null) × (h ≢ null)
Fact i m (at (splice h t)) = HasLast m (m.spin (node_of i)) × (t ≢ null) × (h ≢ null)
Fact i m (at keep_local) = HasLast m (m.spin (node_of i)) × (m.next (node_of i) ≢ null)
Fact i m (at find) = HasLast m (m.spin (node_of i)) × (m.next (node_of i) ≢ null)
Fact i m (at (own_node h)) =
    HasLast m (m.spin (node_of i)) × (m.next (node_of i) ≢ null) × (h ≢ null)
Fact i m (at (compare h s)) =
    HasLast m (m.spin (node_of i)) × (m.next (node_of i) ≢ null) × (h ≢ null)
Fact i m (at (after_first h s)) =
    HasLast m (m.spin (node_of i)) × (m.next (node_of i) ≢ null) × (h ≢ null)
Fact i m (at (scan h t c s)) =
    HasLast m (m.spin (node_of i)) × (m.next (node_of i) ≢ null) × (t ≢ null)
Fact i m (at (follow h c s)) =
    HasLast m (m.spin (node_of i)) × (m.next (node_of i) ≢ null) × (c ≢ null)
Fact i m (at (skip h t c)) = HasLast m (m.spin (node_of i)) × (t ≢ null) × (c ≢ null)
Fact i m (at (append h t c)) =
    HasLast m (m.spin (node_of i))
    × (t ≢ null)
    × (c ≢ null)
    × (m.sec_tail (m.spin (node_of i)) ≢ null)
Fact i m (at (append_at l h t c)) =
    HasLast m (m.spin (node_of i)) × (t ≢ null) × (c ≢ null) × (l ≢ null)
Fact i m (at (cut t c)) = (t ≢ null) × (c ≢ null)
Fact i m (at (set_last t c)) = (t ≢ null) × (c ≢ null)
Fact i m (at (pass c)) = HasLast m (m.spin (node_of i)) × (c ≢ null)
Fact i m (at (pass_value c v)) = HasLast m v × (c ≢ null)
Fact i m (at second) = HasLast m (m.spin (node_of i)) × (m.next (node_of i) ≢ null)
Fact i m (at (last_of p)) = (m.sec_tail p ≢ null) × (p ≢ null)
Fact i m (at (read_next p l)) = (l ≢ null) × (p ≢ null)
Fact i m (at (join p l q)) = (l ≢ null) × (p ≢ null)
Fact i m (at (wake p)) = p ≢ null
Fact i m (at first) = m.next (node_of i) ≢ null
Fact i m dead = Unit {0}
Fact i m v = HasLast m (m.spin (node_of i))

-- Once a node is the head of a second queue with a last node, that stays so.
abbrev pub LastStays : CnaMutex → CnaMutex → Type 0
LastStays m m' = (p : Ptr) → m.sec_tail p ≢ null → m'.sec_tail p ≢ null

-- A step of another thread that leaves the node of thread `j` alone, but for a new `next`.
abbrev pub Mild : ℕ → CnaMutex → CnaMutex → Type 0
Mild j m m' =
    (m'.spin (node_of j) ≡ m.spin (node_of j))
    × (m.next (node_of j) ≢ null → m'.next (node_of j) ≢ null)
    × LastStays m m'

-- A step of the holder that may write into the node of thread `j`.
abbrev pub Strong : ℕ → CnaMutex → CnaMutex → Type 0
Strong j m m' =
    ((m'.spin (node_of j) ≡ m.spin (node_of j)) ⊎ HasLast m' (m'.spin (node_of j))) × LastStays m m'

pub HasLast-stays : (m m' : CnaMutex) (v : ℕ) → LastStays m m' → HasLast m v → HasLast m' v
HasLast-stays m m' v stays h more = stays v (h more)

pub Fact-Mild : (j : ℕ) (m m' : CnaMutex) (w : View Pc) → Mild j m m' → Fact j m w → Fact j m' w
Fact-Mild j m m' outside h f = tt
Fact-Mild j m m' (at prepare) h f = tt
Fact-Mild j m m' (at (pass_value p v)) h f = (HasLast-stays m m' v h.2 f.0, f.1)
Fact-Mild j m m' (at (read_tail p)) h f =
    let stays = HasLast-stays m m' (m.spin (node_of j)) h.2 f.0 in (rw h.0 stays, h.2 p f.1, f.2)
Fact-Mild j m m' (at (append a b c)) h f =
    let stays = HasLast-stays m m' (m.spin (node_of j)) h.2 f.0 in
    (rw h.0 stays, f.1, f.2, rw h.0 (h.2 (m.spin (node_of j)) f.3))
Fact-Mild j m m' (at (last_of p)) h f = (h.2 p f.0, f.1)
Fact-Mild j m m' (at p) h f =
    let stays = HasLast-stays m m' (m.spin (node_of j)) h.2 in ground (arith, stays, h.0, h.1, f)
Fact-Mild j m m' inside h f = rw h.0 (HasLast-stays m m' (m.spin (node_of j)) h.2 f)
Fact-Mild j m m' dead h f = tt

HasLast-Strong :
    (j : ℕ) (m m' : CnaMutex)
    → Strong j m m'
    → HasLast m (m.spin (node_of j))
    → HasLast m' (m'.spin (node_of j))
HasLast-Strong j m m' (inl same, h) f = rw same (HasLast-stays m m' (m.spin (node_of j)) h f)
HasLast-Strong j m m' (inr last, h) f = last

pub Fact-Strong :
    (j : ℕ) (m m' : CnaMutex) (w : View Pc)
    → Strong j m m'
    → holds j m w ≡ 0
    → Fact j m w
    → Fact j m' w
Fact-Strong j m m' outside h none f = tt
Fact-Strong j m m' (at prepare) h none f = tt
Fact-Strong j m m' (at try_prepare) h none f = tt
Fact-Strong j m m' (at swap_tail) h none f = HasLast-Strong j m m' h f
Fact-Strong j m m' (at (set_node t)) h none f = (HasLast-Strong j m m' h f.0, f.1)
Fact-Strong j m m' (at (link t)) h none f = (HasLast-Strong j m m' h f.0, f.1)
Fact-Strong j m m' (at sleep) h none f = HasLast-Strong j m m' h f
Fact-Strong j m m' (at try_swap) h none f = HasLast-Strong j m m' h f
Fact-Strong j m m' (at p) h none f = absurd (omega (arith, none))
Fact-Strong j m m' inside h none f = absurd (omega (arith, none))
Fact-Strong j m m' dead h none f = tt
