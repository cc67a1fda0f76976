-- ===== src/Atomic.antt =====
-- The atomic operations and the two values of ulocks/src/waiting_policy.h and ulocks/src/utils.h.
use shfllock.Base.{ℕ, ◌==◌, if◌then◌else◌}

-- LOCKED and UNLOCKED of waiting_policy.h; spinlockepfl.c has its own.
abbrev pub locked : ℕ
locked = 0

abbrev pub unlocked : ℕ
unlocked = 1

-- What `__sync_val_compare_and_swap(p, old, new)` leaves in `*p`; it returns the value before.
abbrev pub cas : ℕ → ℕ → ℕ → ℕ
cas now old new = if now == old then new else now

-- What `l_tas_uint8` leaves in the byte, whatever was there; it returns the byte before.
abbrev pub tas_value : ℕ
tas_value = 0xff

-- Whether a byte or word is at one of its two values: 0 where it is `free`, 1 where it is `held`.
abbrev pub level : (free held now : ℕ) → ℕ
level free held now = if now == free then 0 else if now == held then 1 else 2
