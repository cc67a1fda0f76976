-- ===== src/Mcs/Memory.antt =====
-- The lock and the nodes of ulocks/include/mcs.h; those of mcsepfl.h have the same fields.
use shfllock.Base.{ℕ, ◌+◌, assign}

-- The address of a node; 0 is NULL, and thread `i` queues with the node at `i + 1`.
abbrev pub Ptr : Type 0
Ptr = ℕ

abbrev pub null : Ptr
null = 0

abbrev pub node_of : ℕ → Ptr
node_of i = i + 1

-- struct mcs_mutex, with the nodes of its threads field by field.
pub record McsMutex : Type 0 where
  pub tail : Ptr
  pub next : Ptr → Ptr
  pub spin : Ptr → ℕ

abbrev pub set_tail : McsMutex → Ptr → McsMutex
set_tail m p = record m { tail = p }

abbrev pub set_next : McsMutex → Ptr → Ptr → McsMutex
set_next m p q = record m { next = assign m.next p q }

abbrev pub set_spin : McsMutex → Ptr → ℕ → McsMutex
set_spin m p v = record m { spin = assign m.spin p v }

-- A new lock. The contexts are zeroed by `ht_lock_create` of interpose.c.
unfoldable pub create : McsMutex
create = record { tail = null; next = λ p. null; spin = λ p. 0 }
