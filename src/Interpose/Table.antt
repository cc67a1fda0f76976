-- ===== src/Interpose/Table.antt =====
-- The hash table CLHT, which is not part of this repository: its operations, and what its
-- documentation promises of them.
use shfllock.Base.{ℕ, Bool, true, false, ◌≡◌, ◌≢◌}

-- The address of a `lock_transparent_mutex_t`; 0 is NULL, which is also "no such key".
abbrev pub Ptr : Type 0
Ptr = ℕ

abbrev pub null : Ptr
null = 0

-- `clht_create`, `clht_get`, `clht_put` and `clht_remove`. Each of them takes effect at once.
pub record Table (T : Type 0) : Type 0 where
  pub clht_create : T
  pub clht_get : T → ℕ → Ptr
  pub clht_put : T → ℕ → Ptr → T × Bool
  pub clht_remove : T → ℕ → T × Ptr

pub record TableLaws {T : Type 0} (b : Table T) : Type 0 where
  pub get-create : (k : ℕ) → b.clht_get b.clht_create k ≡ null
  -- `clht_put` succeeds where the key is new, and changes nothing where it is not.
  pub put-new :
      (t : T) (k : ℕ) (p : Ptr)
      → b.clht_get t k ≡ null
      → ((b.clht_put t k p).1 ≡ true) × (b.clht_get (b.clht_put t k p).0 k ≡ p)
  pub put-old :
      (t : T) (k : ℕ) (p : Ptr)
      → b.clht_get t k ≢ null
      → ((b.clht_put t k p).1 ≡ false) × (b.clht_get (b.clht_put t k p).0 k ≡ b.clht_get t k)
  pub put-other :
      (t : T) (k j : ℕ) (p : Ptr) → k ≢ j → b.clht_get (b.clht_put t k p).0 j ≡ b.clht_get t j
