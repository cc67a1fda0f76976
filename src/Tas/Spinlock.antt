-- ===== src/Tas/Spinlock.antt =====
-- ulocks/src/spinlock.c: a compare-and-swap in a loop. The unlock is a compare-and-swap too, and
-- asserts that the lock was taken.
use shfllock.Base.{ℕ, ◌≡◌, ◌≢◌, ◌<◌, refl, List, arith, ◌==◌, if◌then◌else◌, true}
use shfllock.Atomic.{locked, unlocked, cas, level}
use shfllock.Protocol.Code.{Code, Next, go, acquired, busy, released, aborted, inside}
use shfllock.Protocol.Word.{WordLaws, word_laws}
use shfllock.Protocol.Wrapper
use shfllock.Protocol.Wrapper.{Posix, crashed}
use shfllock.Protocol.Refinement.{view_of, wrapped-exclusive, wrapped-never_crashed}

pub record SpinlockMutex : Type 0 where
  pub spin_lock : ℕ

pub data Pc : Type 0 where
  spin : Pc  -- the loop of `lock`
  attempt : Pc  -- the test of `trylock`
  give_back : Pc  -- the swap of `unlock`

unfoldable pub step : ℕ → Unit {0} → SpinlockMutex → Pc → SpinlockMutex × Next Pc
step i x m spin = (
  record { spin_lock = cas m.spin_lock unlocked locked },
  if m.spin_lock == locked then go spin else acquired,
)
step i x m attempt = (
  record { spin_lock = cas m.spin_lock unlocked locked },
  if m.spin_lock == unlocked then acquired else busy,
)
step i x m give_back = (
  record { spin_lock = cas m.spin_lock locked unlocked },
  if m.spin_lock == 0 then released else aborted,
)

unfoldable pub spinlock : Code SpinlockMutex Pc (Unit {0})
unfolding step
spinlock = record {
  lock_entry = spin;
  trylock_entry = attempt;
  unlock_entry = give_back;
  release_entry = give_back;
  step = step;
  trylock_asserts = true;
  on_locked = λ i x m. m;
}

abbrev pub create : SpinlockMutex
create = record { spin_lock = unlocked }

-- A schedule of `n` threads that use one such mutex and its condition variables.
unfoldable pub mutex :
    {X : Type 0} → Posix X → ℕ → List (Wrapper.Event (Unit {0})) → Wrapper.State SpinlockMutex Pc X
unfolding spinlock Wrapper.run
mutex px n es = Wrapper.run spinlock px n es (Wrapper.start create px)

abbrev taken : SpinlockMutex → ℕ
taken m = level unlocked locked m.spin_lock

abbrev has : Pc → ℕ
has spin = 0
has attempt = 0
has give_back = 1

laws : WordLaws spinlock taken has
unfolding spinlock
laws = word_laws refl refl refl refl (λ i x m. refl) (λ i x m p h b. ground arith)

module _ {X : Type 0} (px : Posix X) (n : ℕ) (es : List (Wrapper.Event (Unit {0}))) where
  -- Whatever the schedule and the POSIX library do, two threads never hold a spinlock mutex together:
  -- not between the return of the swap that took it and the start of the swap that gives it back.
  pub spinlock_exclusive :
      (i j : ℕ)
      → i < n
      → j < n
      → view_of ((mutex px n es).thread i) ≡ inside
      → view_of ((mutex px n es).thread j) ≡ inside
      → i ≡ j
  unfolding mutex
  spinlock_exclusive = wrapped-exclusive laws px n create refl es

  -- The `assert(old == 0)` of `__spinlock_mutex_unlock` never fails, in `spinlock_mutex_unlock` or in
  -- `spinlock_cond_timedwait`.
  pub spinlock_assert_holds : (i : ℕ) → (mutex px n es).thread i ≢ crashed
  unfolding mutex
  spinlock_assert_holds = wrapped-never_crashed laws px n create refl es
