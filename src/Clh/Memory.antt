-- ===== src/Clh/Memory.antt =====
-- The lock, the nodes and the contexts of ulocks/include/clh.h; those of clhepfl.h have the same fields.
use shfllock.Base.{ℕ, ◌+◌, assign}
use shfllock.Atomic.{unlocked}

-- The address of a node; 0 is NULL, 1 the `dummy` of the lock, and `i + 2` the `initial` of the
-- context of thread `i`.
abbrev pub Ptr : Type 0
Ptr = ℕ

abbrev pub null : Ptr
null = 0

abbrev pub dummy : Ptr
dummy = 1

abbrev pub initial : ℕ → Ptr
initial i = i + 2

-- struct clh_mutex, with the word of each node and `current` of each thread's context.
pub record ClhMutex : Type 0 where
  pub head : Ptr
  pub tail : Ptr
  pub spin : Ptr → ℕ
  pub current : ℕ → Ptr

abbrev pub set_head : ClhMutex → Ptr → ClhMutex
set_head m p = record m { head = p }

abbrev pub set_tail : ClhMutex → Ptr → ClhMutex
set_tail m p = record m { tail = p }

abbrev pub set_spin : ClhMutex → Ptr → ℕ → ClhMutex
set_spin m p v = record m { spin = assign m.spin p v }

abbrev pub set_current : ClhMutex → ℕ → Ptr → ClhMutex
set_current m i p = record m { current = assign m.current i p }

-- A new lock, with `clh_init_context` for the contexts.
unfoldable pub create : ClhMutex
create = record { head = null; tail = dummy; spin = λ p. unlocked; current = initial }
