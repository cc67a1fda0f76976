-- ===== src/Tas/Backoff.antt =====
-- ulocks/src/backoff.c: test, then test-and-set, with a pause between tests that doubles.
use shfllock.Base.{
  ltb, zero, suc, ◌*◌, ◌-◌, ◌%◌, ◌^◌, ◌≤◌, dec_lt, inl, inr, Bool-cases, ℕ, ◌≡◌, ◌<◌, refl, List,
  arith, ◌==◌, if◌then◌else◌, true,
}
use native.Mathlib.Nat.{pow-suc, pow-le-pow_right}
use shfllock.Atomic.{unlocked, tas_value, level}
use shfllock.Protocol.Code.{Code, Next, go, acquired, busy, released, inside, after}
use shfllock.Protocol.Local.{LocalLaws, OnView}
use shfllock.Protocol.Word.{WordLaws, word_laws}
use shfllock.Protocol.Wrapper
use shfllock.Protocol.Wrapper.{Posix}
use shfllock.Protocol.Refinement.{view_of, wrapped-exclusive, wrapped-ok}

pub record BackoffMutex : Type 0 where
  pub spin_lock : ℕ

abbrev pub default_delay : ℕ
default_delay = 2 ^ 9

abbrev pub max_delay : ℕ
max_delay = 2 ^ 20 - 1

-- `delay` is an unsigned int.
pub data Pc : Type 0 where
  test : (delay : ℕ) → Pc  -- the test of the inner loop of `lock`
  pause : (delay left : ℕ) → Pc  -- the `for` loop, with the rounds that are left
  grab : (delay : ℕ) → Pc  -- the test-and-set of `lock`
  attempt : Pc  -- the test-and-set of `trylock`
  give_back : Pc

-- `if (delay < MAX_BACKOFF_DELAY) delay *= 2;`
unfoldable pub grow : ℕ → ℕ
grow delay = if ltb delay max_delay then delay * 2 % 2 ^ 32 else delay

unfoldable pub step : ℕ → Unit {0} → BackoffMutex → Pc → BackoffMutex × Next Pc
unfolding grow
step i x m (test d) = (m, if m.spin_lock == unlocked then go (grab d) else go (pause d d))
step i x m (pause d zero) = (m, go (test (grow d)))
step i x m (pause d (suc k)) = (m, go (pause d k))
step i x m (grab d) =
    (record { spin_lock = tas_value }, if m.spin_lock == unlocked then acquired else go (test d))
step i x m attempt =
    (record { spin_lock = tas_value }, if m.spin_lock == unlocked then acquired else busy)
step i x m give_back = (record { spin_lock = unlocked }, released)

unfoldable pub backoff : Code BackoffMutex Pc (Unit {0})
unfolding step
backoff = record {
  lock_entry = test default_delay;
  trylock_entry = attempt;
  unlock_entry = give_back;
  release_entry = give_back;
  step = step;
  trylock_asserts = true;
  on_locked = λ i x m. m;
}

abbrev pub create : BackoffMutex
create = record { spin_lock = unlocked }

-- A schedule of `n` threads that use one such mutex and its condition variables.
unfoldable pub mutex :
    {X : Type 0} → Posix X → ℕ → List (Wrapper.Event (Unit {0})) → Wrapper.State BackoffMutex Pc X
unfolding backoff Wrapper.run
mutex px n es = Wrapper.run backoff px n es (Wrapper.start create px)

abbrev taken : BackoffMutex → ℕ
taken m = level unlocked tas_value m.spin_lock

abbrev has : Pc → ℕ
has give_back = 1
has _ = 0

laws : WordLaws backoff taken has
unfolding backoff
laws = word_laws refl refl refl refl (λ i x m. refl) (λ i x m p h b. ground arith)

-- A delay that the loop can reach: 2 ^ 9, doubled at most eleven times.
abbrev pub IsDelay : ℕ → Type 0
IsDelay d = (k : ℕ) × (k ≤ 11) × (d ≡ 512 * 2 ^ k) × (d ≤ 2 ^ 20)

grow-IsDelay : (d : ℕ) → IsDelay d → IsDelay (grow d)
unfolding grow
grow-IsDelay d (k, le, e, small) = elim (Bool-cases (ltb d max_delay)) [
  | inr stop ↦ rw stop (k, le, e, small)
  | inl more ↦
      let less : d < max_delay = ground arith in
      elim (dec_lt k 11) [
        | yes low ↦ rw more (
          suc k,
          low,
          omega (arith, e, pow-suc 2 k, less),
          omega (arith, e, pow-le-pow_right {n = 2} (omega arith) low, pow-suc 2 k, less),
        )
        | no top ↦ let end : k ≡ 11 = omega arith in absurd (omega (arith, rw end at e, less))
      ]
]

abbrev pub Timed : Pc → Type 0
Timed (test d) = IsDelay d
Timed (pause d k) = IsDelay d × (k ≤ d)
Timed (grab d) = IsDelay d
Timed p = Unit {0}

step-Timed :
    (i : ℕ) (x : Unit {0}) (m : BackoffMutex) (p : Pc)
    → Timed p
    → OnView Timed (after (step i x m p).1)
unfolding step
step-Timed i x m (test d) q = elim (Bool-cases (m.spin_lock == unlocked)) [
  | inl e ↦ rw e q
  | inr e ↦ rw e (q, omega arith)
]
step-Timed i x m (pause d zero) q = grow-IsDelay d q.0
step-Timed i x m (pause d (suc k)) q = (q.0, omega arith)
step-Timed i x m (grab d) q = elim (Bool-cases (m.spin_lock == unlocked)) [
  | inl e ↦ rw e tt
  | inr e ↦ rw e q
]
step-Timed i x m attempt q = elim (Bool-cases (m.spin_lock == unlocked)) [
  | inl e ↦ rw e tt
  | inr e ↦ rw e tt
]
step-Timed i x m give_back q = tt

delay_laws : LocalLaws backoff (λ m. Unit {0}) Timed
unfolding backoff
delay_laws = record {
  lock_ok = (0, omega arith, refl, omega arith);
  trylock_ok = tt;
  unlock_ok = tt;
  release_ok = tt;
  settle_ok = λ i x m j. tt;
  step_ok = λ i x m p j q. (tt, step-Timed i x m p q);
}

module _ {X : Type 0} (px : Posix X) (n : ℕ) (es : List (Wrapper.Event (Unit {0}))) where
  -- Whatever the schedule and the POSIX library do, two threads never hold a backoff mutex together.
  pub backoff_exclusive :
      (i j : ℕ)
      → i < n
      → j < n
      → view_of ((mutex px n es).thread i) ≡ inside
      → view_of ((mutex px n es).thread j) ≡ inside
      → i ≡ j
  unfolding mutex
  backoff_exclusive = wrapped-exclusive laws px n create refl es

  -- In every run a thread in `backoff_mutex_lock` has a delay of 512 * 2 ^ k pauses with k at most
  -- 11, and at most 2 ^ 20, and the pauses that are left to it are no more than that.
  pub backoff_delay_bounded : (i : ℕ) → OnView Timed (view_of ((mutex px n es).thread i))
  unfolding mutex
  backoff_delay_bounded = (wrapped-ok delay_laws px n create tt es).1
