-- ===== src/Tas/SpinlockEpfl.antt =====
-- ulocks/src/spinlockepfl.c: test-and-set in a loop, with 0 for unlocked.
use shfllock.Base.{ℕ, ◌≡◌, ◌<◌, refl, List, arith, ◌==◌, if◌then◌else◌, true}
use shfllock.Atomic.{tas_value, level}
use shfllock.Protocol.Code.{Code, Next, go, acquired, busy, released, inside}
use shfllock.Protocol.Word.{WordLaws, word_laws}
use shfllock.Protocol.Wrapper
use shfllock.Protocol.Wrapper.{Posix}
use shfllock.Protocol.Refinement.{view_of, wrapped-exclusive}

pub record SpinlockepflMutex : Type 0 where
  pub spin_lock : ℕ

-- UNLOCKED of spinlockepfl.c
abbrev unlocked : ℕ
unlocked = 0

pub data Pc : Type 0 where
  spin : Pc  -- the loop of `lock`
  attempt : Pc  -- the test-and-set of `trylock`
  give_back : Pc

unfoldable pub step : ℕ → Unit {0} → SpinlockepflMutex → Pc → SpinlockepflMutex × Next Pc
step i x m spin =
    (record { spin_lock = tas_value }, if m.spin_lock == unlocked then acquired else go spin)
step i x m attempt =
    (record { spin_lock = tas_value }, if m.spin_lock == unlocked then acquired else busy)
step i x m give_back = (record { spin_lock = unlocked }, released)

unfoldable pub spinlockepfl : Code SpinlockepflMutex Pc (Unit {0})
unfolding step
spinlockepfl = record {
  lock_entry = spin;
  trylock_entry = attempt;
  unlock_entry = give_back;
  release_entry = give_back;
  step = step;
  trylock_asserts = true;
  on_locked = λ i x m. m;
}

abbrev pub create : SpinlockepflMutex
create = record { spin_lock = unlocked }

-- A schedule of `n` threads that use one such mutex and its condition variables.
unfoldable pub mutex :
    {X : Type 0}
    → Posix X
    → ℕ
    → List (Wrapper.Event (Unit {0}))
    → Wrapper.State SpinlockepflMutex Pc X
unfolding spinlockepfl Wrapper.run
mutex px n es = Wrapper.run spinlockepfl px n es (Wrapper.start create px)

abbrev taken : SpinlockepflMutex → ℕ
taken m = level unlocked tas_value m.spin_lock

abbrev has : Pc → ℕ
has give_back = 1
has _ = 0

laws : WordLaws spinlockepfl taken has
unfolding spinlockepfl
laws = word_laws refl refl refl refl (λ i x m. refl) (λ i x m p h b. ground arith)

module _ {X : Type 0} (px : Posix X) (n : ℕ) (es : List (Wrapper.Event (Unit {0}))) where
  -- Whatever the schedule and the POSIX library do, two threads never hold a spinlockepfl mutex together.
  pub spinlockepfl_exclusive :
      (i j : ℕ)
      → i < n
      → j < n
      → view_of ((mutex px n es).thread i) ≡ inside
      → view_of ((mutex px n es).thread j) ≡ inside
      → i ≡ j
  unfolding mutex
  spinlockepfl_exclusive = wrapped-exclusive laws px n create refl es
