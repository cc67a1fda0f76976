-- ===== src/Aqm/Memory.antt =====
-- The lock word and the queue nodes of ulocks/include/aqm.h, and the functions of aqm.c on them.
use shfllock.Base.{ℕ, ◌%◌, ◌^◌, Bool, ◌==◌, ◌&&◌, if◌then◌else◌, assign}
use shfllock.Aqs.Memory.{Ptr}

-- struct aqm_node. `lstatus`, `sleader` and `wcount` are the parts of the 32-bit word `locked`.
pub record Node : Type 0 where
  pub next : Ptr
  pub lstatus : ℕ
  pub sleader : ℕ
  pub wcount : ℕ
  pub pstate : ℕ
  pub nid : ℕ
  pub cid : ℕ
  pub last_visited : Ptr

-- struct aqm_mutex with the nodes that its threads queue with. `val` is `locked`, `no_stealing` and
-- `curr_nid`. `rv` is the thread-local state of `xor_random`.
pub record AqmMutex : Type 0 where
  pub tail : Ptr
  pub locked : ℕ
  pub no_stealing : ℕ
  pub curr_nid : ℕ
  pub node : Ptr → Node
  pub rv : ℕ → ℕ

abbrev pub parked : ℕ
parked = 0

abbrev pub pwait : ℕ
pwait = 1

abbrev pub handed : ℕ  -- _AQ_MCS_STATUS_LOCKED
handed = 2

abbrev pub unpwait : ℕ
unpwait = 4

-- `smp_cas(&lock->locked_no_stealing, 0, 1)`: whether both bytes were 0, and what it leaves.
abbrev pub both_free : AqmMutex → Bool
both_free m = (m.locked == 0) && (m.no_stealing == 0)

abbrev pub cas_both : AqmMutex → AqmMutex
cas_both m = if both_free m then record m { locked = 1; no_stealing = 0 } else m

-- `smp_cas(&lock->val, 0, 1)`
abbrev pub all_free : AqmMutex → Bool
all_free m = both_free m && (m.curr_nid == 0)

abbrev pub cas_val : AqmMutex → AqmMutex
cas_val m = if all_free m then record m { locked = 1; no_stealing = 0; curr_nid = 0 } else m

unfoldable pub enable_stealing : AqmMutex → AqmMutex
enable_stealing m = record m { no_stealing = 1 }

unfoldable pub disable_stealing : AqmMutex → AqmMutex
disable_stealing m = record m { no_stealing = 0 }

unfoldable pub is_stealing_disabled : AqmMutex → ℕ
is_stealing_disabled m = m.no_stealing

-- A store to one field of the node at `p`.
module _ (m : AqmMutex) (p : Ptr) where
  abbrev pub put : Node → AqmMutex
  put n = record m { node = assign m.node p n }

  abbrev pub set_next : Ptr → AqmMutex
  set_next q = put (record (m.node p) { next = q })

  abbrev pub set_lstatus : ℕ → AqmMutex
  set_lstatus v = put (record (m.node p) { lstatus = v })

  abbrev pub set_sleader : ℕ → AqmMutex
  set_sleader v = put (record (m.node p) { sleader = v })

  abbrev pub set_waitcount : ℕ → AqmMutex
  set_waitcount v = put (record (m.node p) { wcount = v % 2 ^ 16 })

  -- `__wakeup_waiter`: `*var = 1`, and a FUTEX_WAKE, which changes nothing here.
  abbrev pub wakeup_waiter : AqmMutex
  wakeup_waiter = put (record (m.node p) { pstate = 1 })
