-- ===== src/Aqs/Memory.antt =====
-- The lock word and the queue nodes of ulocks/include/aqs.h, and the functions of aqs.c on them.
use Prim.Native.Nat.{bit_xor}
use shfllock.Base.{
  ℕ, ◌+◌, ◌-◌, ◌*◌, ◌/◌, ◌%◌, ◌^◌, Bool, true, false, ◌==◌, ◌&&◌, if◌then◌else◌, assign,
}

-- The address of a node; 0 is NULL, and thread `i` queues with the node at `i + 1`.
abbrev pub Ptr : Type 0
Ptr = ℕ

abbrev pub null : Ptr
null = 0

abbrev pub node_of : ℕ → Ptr
node_of i = i + 1

-- struct aqs_node. `lstatus`, `sleader` and `wcount` are the parts of the 32-bit word `locked`.
pub record Node : Type 0 where
  pub next : Ptr
  pub lstatus : ℕ
  pub sleader : ℕ
  pub wcount : ℕ
  pub nid : ℕ
  pub cid : ℕ
  pub last_visited : Ptr

-- struct aqs_mutex with the nodes that its threads queue with. `locked` and `no_stealing` are the
-- two bytes of `locked_no_stealing`. `rv` is the thread-local state of `xor_random`.
pub record AqsMutex : Type 0 where
  pub tail : Ptr
  pub locked : ℕ
  pub no_stealing : ℕ
  pub node : Ptr → Node
  pub rv : ℕ → ℕ

abbrev pub status_wait : ℕ
status_wait = 0

abbrev pub status_locked : ℕ
status_locked = 1

-- `smp_cas(&impl->locked_no_stealing, 0, 1)`: whether both bytes were 0, and what it leaves.
abbrev pub both_free : AqsMutex → Bool
both_free m = (m.locked == 0) && (m.no_stealing == 0)

abbrev pub cas_both : AqsMutex → AqsMutex
cas_both m = if both_free m then record m { locked = 1; no_stealing = 0 } else m

-- `atomic_andnot` and `atomic_fetch_or_acquire` of _AQS_NOSTEAL_VAL: bit 0 of `no_stealing`.
unfoldable pub enable_stealing : AqsMutex → AqsMutex
enable_stealing m = record m { no_stealing = m.no_stealing - m.no_stealing % 2 }

unfoldable pub disable_stealing : AqsMutex → AqsMutex
disable_stealing m = record m { no_stealing = m.no_stealing - m.no_stealing % 2 + 1 }

-- A store to one field of the node at `p`.
module _ (m : AqsMutex) (p : Ptr) where
  abbrev pub put : Node → AqsMutex
  put n = record m { node = assign m.node p n }

  abbrev pub set_next : Ptr → AqsMutex
  set_next q = put (record (m.node p) { next = q })

  abbrev pub set_lstatus : ℕ → AqsMutex
  set_lstatus v = put (record (m.node p) { lstatus = v })

  abbrev pub set_sleader : ℕ → AqsMutex
  set_sleader v = put (record (m.node p) { sleader = v })

  abbrev pub set_waitcount : ℕ → AqsMutex
  set_waitcount v = put (record (m.node p) { wcount = v % 2 ^ 16 })

  abbrev pub set_last_visited : Ptr → AqsMutex
  set_last_visited q = put (record (m.node p) { last_visited = q })

-- One round of the generator behind `xor_random`, on 32 bits.
unfoldable pub xor_shift : ℕ → ℕ
xor_shift v =
    let a = bit_xor v (v * 2 ^ 6 % 2 ^ 32) in
    let b = bit_xor a (a / 2 ^ 21) in bit_xor b (b * 2 ^ 7 % 2 ^ 32)

-- The new state of `xor_random` in thread `i`, and its result, which is masked to 10 bits.
unfoldable pub xor_random : ℕ → ℕ → ℕ × ℕ
unfolding xor_shift
xor_random i rv = let v = xor_shift (if rv == 0 then (i + 1) % 2 ^ 32 else rv) in (v, v % 1024)

-- `keep_lock_local()`: the new state, and whether the result is not 0.
unfoldable pub keep_lock_local : ℕ → ℕ → ℕ × Bool
unfolding xor_random
keep_lock_local i rv = let r = xor_random i rv in (r.0, if r.1 % 2 ^ 16 == 0 then false else true)

-- `current_numa_node()`, for the value of the register that `rdtscp` fills, on a machine of `cpus`
-- processors in `nodes` nodes.
unfoldable pub current_numa_node : (cpus nodes reg : ℕ) → ℕ
current_numa_node cpus nodes reg = reg % 2 ^ 12 / (cpus / nodes)
