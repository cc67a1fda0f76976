-- ===== src/Malthusian/Memory.antt =====
-- The lock and the nodes of ulocks/include/malthusian.h, and the passive set of malthusian.c.
use shfllock.Base.{ℕ, ◌+◌, ◌==◌, if◌then◌else◌, assign}

-- The address of a node; 0 is NULL, and thread `i` queues with the node at `i + 1`.
abbrev pub Ptr : Type 0
Ptr = ℕ

abbrev pub null : Ptr
null = 0

abbrev pub node_of : ℕ → Ptr
node_of i = i + 1

-- struct malthusian_mutex, with the nodes of its threads field by field. `rv` is the thread-local
-- state of `xor_random`.
pub record MalthusianMutex : Type 0 where
  pub tail : Ptr
  pub passive_set_head : Ptr
  pub passive_set_tail : Ptr
  pub next : Ptr → Ptr
  pub prev : Ptr → Ptr
  pub spin : Ptr → ℕ
  pub rv : ℕ → ℕ

abbrev pub set_tail : MalthusianMutex → Ptr → MalthusianMutex
set_tail m p = record m { tail = p }

abbrev pub set_next : MalthusianMutex → Ptr → Ptr → MalthusianMutex
set_next m p q = record m { next = assign m.next p q }

abbrev pub set_prev : MalthusianMutex → Ptr → Ptr → MalthusianMutex
set_prev m p q = record m { prev = assign m.prev p q }

abbrev pub set_spin : MalthusianMutex → Ptr → ℕ → MalthusianMutex
set_spin m p v = record m { spin = assign m.spin p v }

-- `elem->prev = 0; elem->next = 0`.
abbrev pub detach : MalthusianMutex → Ptr → MalthusianMutex
detach m elem = set_next (set_prev m elem null) elem null

-- The functions on the passive set, which the holder of the lock alone reads and writes: what they
-- leave, and the element that they return.
unfoldable pub passive_set_pop_back : MalthusianMutex → MalthusianMutex × Ptr
passive_set_pop_back m =
    let elem = m.passive_set_tail in
    let last = m.prev elem in
    if elem == null then (m, null) else (
      detach
          (if last == null
            then record m { passive_set_tail = last; passive_set_head = null }
            else set_next (record m { passive_set_tail = last }) last null)
          elem,
      elem,
    )

unfoldable pub passive_set_pop_front : MalthusianMutex → MalthusianMutex × Ptr
passive_set_pop_front m =
    let elem = m.passive_set_head in
    let front = m.next elem in
    if elem == null then (m, null) else (
      detach
          (if front == null
            then record m { passive_set_head = front; passive_set_tail = null }
            else set_prev (record m { passive_set_head = front }) front null)
          elem,
      elem,
    )

unfoldable pub passive_set_push_front : MalthusianMutex → Ptr → MalthusianMutex
passive_set_push_front m elem =
    let prev_head = m.passive_set_head in
    let linked = record (set_prev (set_next m elem prev_head) elem null) {
      passive_set_head = elem;
    } in
    let back = if prev_head == null then linked else set_prev linked prev_head elem in
    if back.passive_set_tail == null then record back { passive_set_tail = elem } else back

-- A new lock. The contexts are zeroed by `ht_lock_create` of interpose.c.
unfoldable pub create : MalthusianMutex
create = record {
  tail = null;
  passive_set_head = null;
  passive_set_tail = null;
  next = λ p. null;
  prev = λ p. null;
  spin = λ p. 0;
  rv = λ i. 0;
}
