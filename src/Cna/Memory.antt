-- ===== src/Cna/Memory.antt =====
-- The lock and the nodes of ulocks/include/cna.h.
use shfllock.Base.{ℕ, ◌+◌, ◌-◌, ◌*◌, ◌^◌, assign}

-- The address of a node; 0 is NULL, and thread `i` queues with the node at `64 * (i + 1)`, on a
-- cache line of its own. `spin` holds 0, 1, or such an address.
abbrev pub Ptr : Type 0
Ptr = ℕ

abbrev pub null : Ptr
null = 0

abbrev pub node_of : ℕ → Ptr
node_of i = 64 * (i + 1)

-- -1 as an int.
abbrev pub no_socket : ℕ
no_socket = 2 ^ 32 - 1

-- struct cna_mutex, with the nodes of its threads field by field. `rv` is the thread-local state of
-- `xor_random`.
pub record CnaMutex : Type 0 where
  pub tail : Ptr
  pub next : Ptr → Ptr
  pub sec_tail : Ptr → Ptr
  pub spin : Ptr → ℕ
  pub socket : Ptr → ℕ
  pub rv : ℕ → ℕ

abbrev pub set_tail : CnaMutex → Ptr → CnaMutex
set_tail m p = record m { tail = p }

abbrev pub set_next : CnaMutex → Ptr → Ptr → CnaMutex
set_next m p q = record m { next = assign m.next p q }

abbrev pub set_sec_tail : CnaMutex → Ptr → Ptr → CnaMutex
set_sec_tail m p q = record m { sec_tail = assign m.sec_tail p q }

abbrev pub set_spin : CnaMutex → Ptr → ℕ → CnaMutex
set_spin m p v = record m { spin = assign m.spin p v }

abbrev pub set_socket : CnaMutex → Ptr → ℕ → CnaMutex
set_socket m p v = record m { socket = assign m.socket p v }

-- A new lock. The contexts are zeroed by `ht_lock_create` of interpose.c.
unfoldable pub create : CnaMutex
create = record {
  tail = null;
  next = λ p. null;
  sec_tail = λ p. null;
  spin = λ p. 0;
  socket = λ p. 0;
  rv = λ i. 0;
}
