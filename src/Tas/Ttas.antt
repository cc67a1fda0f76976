-- ===== src/Tas/Ttas.antt =====
-- ulocks/src/ttas.c: test, then test-and-set, in a loop.
use shfllock.Base.{ℕ, ◌≡◌, ◌<◌, refl, List, arith, ◌==◌, if◌then◌else◌, true}
use shfllock.Atomic.{unlocked, tas_value, level}
use shfllock.Protocol.Code.{Code, Next, go, acquired, busy, released, inside}
use shfllock.Protocol.Word.{WordLaws, word_laws}
use shfllock.Protocol.Wrapper
use shfllock.Protocol.Wrapper.{Posix}
use shfllock.Protocol.Refinement.{view_of, wrapped-exclusive}

pub record TtasMutex : Type 0 where
  pub spin_lock : ℕ

pub data Pc : Type 0 where
  test : Pc  -- the inner loop of `lock`, which only reads
  grab : Pc  -- the test-and-set of `lock`
  attempt : Pc  -- the test-and-set of `trylock`
  give_back : Pc

unfoldable pub step : ℕ → Unit {0} → TtasMutex → Pc → TtasMutex × Next Pc
step i x m test = (m, if m.spin_lock == unlocked then go grab else go test)
step i x m grab =
    (record { spin_lock = tas_value }, if m.spin_lock == unlocked then acquired else go test)
step i x m attempt =
    (record { spin_lock = tas_value }, if m.spin_lock == unlocked then acquired else busy)
step i x m give_back = (record { spin_lock = unlocked }, released)

unfoldable pub ttas : Code TtasMutex Pc (Unit {0})
unfolding step
ttas = record {
  lock_entry = test;
  trylock_entry = attempt;
  unlock_entry = give_back;
  release_entry = give_back;
  step = step;
  trylock_asserts = true;
  on_locked = λ i x m. m;
}

abbrev pub create : TtasMutex
create = record { spin_lock = unlocked }

-- A schedule of `n` threads that use one such mutex and its condition variables.
unfoldable pub mutex :
    {X : Type 0} → Posix X → ℕ → List (Wrapper.Event (Unit {0})) → Wrapper.State TtasMutex Pc X
unfolding ttas Wrapper.run
mutex px n es = Wrapper.run ttas px n es (Wrapper.start create px)

abbrev taken : TtasMutex → ℕ
taken m = level unlocked tas_value m.spin_lock

abbrev has : Pc → ℕ
has give_back = 1
has _ = 0

laws : WordLaws ttas taken has
unfolding ttas
laws = word_laws refl refl refl refl (λ i x m. refl) (λ i x m p h b. ground arith)

module _ {X : Type 0} (px : Posix X) (n : ℕ) (es : List (Wrapper.Event (Unit {0}))) where
  -- Whatever the schedule and the POSIX library do, two threads never hold a ttas mutex together.
  pub ttas_exclusive :
      (i j : ℕ)
      → i < n
      → j < n
      → view_of ((mutex px n es).thread i) ≡ inside
      → view_of ((mutex px n es).thread j) ≡ inside
      → i ≡ j
  unfolding mutex
  ttas_exclusive = wrapped-exclusive laws px n create refl es
