-- ===== src/Tas/TtasEpfl.antt =====
-- ulocks/src/ttasepfl.c: test, then test-and-set, with a random pause whose limit doubles.
use shfllock.Base.{
  ℕ, ◌+◌, ◌*◌, ◌%◌, ◌^◌, ◌≡◌, ◌<◌, ◌≤◌, refl, List, arith, ◌==◌, ltb, if◌then◌else◌, assign, true,
}
use shfllock.Atomic.{unlocked, tas_value, level}
use shfllock.Protocol.Code.{Code, Next, go, acquired, busy, released, inside, after}
use shfllock.Protocol.Local.{LocalLaws, OnView}
use shfllock.Protocol.Word.{WordLaws, word_laws}
use shfllock.Protocol.Wrapper
use shfllock.Protocol.Wrapper.{Posix}
use shfllock.Protocol.Refinement.{view_of, wrapped-exclusive, wrapped-ok}

-- The mutex with the `limit` of each thread's ttasepfl_context_t.
pub record TtasepflMutex : Type 0 where
  pub spin_lock : ℕ
  pub limit : ℕ → ℕ

-- What a step reads from outside: `my_random` and `getticks`.
pub record Input : Type 0 where
  pub random : ℕ
  pub ticks : ℕ

abbrev pub max_delay : ℕ
max_delay = 1000

pub data Pc : Type 0 where
  test : Pc  -- the inner loop of `lock`, which only reads
  grab : Pc  -- the test-and-set of `lock`
  draw : Pc  -- the random delay, and the next `limit`
  delay : (cycles : ℕ) → Pc  -- `cdelay`: the end of the pause
  pause : (ts_end : ℕ) → Pc
  attempt : Pc  -- the test-and-set of `trylock`
  give_back : Pc

-- `MAX_DELAY > 2 * (me->limit) ? 2 * (me->limit) : MAX_DELAY`, on uint32_t
unfoldable pub next_limit : ℕ → ℕ
next_limit limit =
    let twice = 2 * limit % 2 ^ 32 in if ltb twice max_delay then twice else max_delay

unfoldable pub step : ℕ → Input → TtasepflMutex → Pc → TtasepflMutex × Next Pc
unfolding next_limit
step i x m test = (m, if m.spin_lock == unlocked then go grab else go test)
step i x m grab =
    (record m { spin_lock = tas_value }, if m.spin_lock == unlocked then acquired else go draw)
step i x m draw = (
  record m { limit = assign m.limit i (next_limit (m.limit i)) },
  go (delay (x.random % m.limit i)),
)
step i x m (delay cycles) = (m, go (pause ((x.ticks + cycles) % 2 ^ 64)))
step i x m (pause ts_end) = (m, if ltb x.ticks ts_end then go (pause ts_end) else go test)
step i x m attempt =
    (record m { spin_lock = tas_value }, if m.spin_lock == unlocked then acquired else busy)
step i x m give_back = (record m { spin_lock = unlocked }, released)

unfoldable pub ttasepfl : Code TtasepflMutex Pc Input
unfolding step
ttasepfl = record {
  lock_entry = test;
  trylock_entry = attempt;
  unlock_entry = give_back;
  release_entry = give_back;
  step = step;
  trylock_asserts = true;
  on_locked = λ i x m. m;
}

-- A new lock, with the contexts as `ttasepfl_init_context` leaves them.
abbrev pub create : TtasepflMutex
create = record { spin_lock = unlocked; limit = λ i. 1 }

-- A schedule of `n` threads that use one such mutex and its condition variables.
unfoldable pub mutex :
    {X : Type 0} → Posix X → ℕ → List (Wrapper.Event Input) → Wrapper.State TtasepflMutex Pc X
unfolding ttasepfl Wrapper.run
mutex px n es = Wrapper.run ttasepfl px n es (Wrapper.start create px)

abbrev taken : TtasepflMutex → ℕ
taken m = level unlocked tas_value m.spin_lock

abbrev has : Pc → ℕ
has give_back = 1
has _ = 0

laws : WordLaws ttasepfl taken has
unfolding ttasepfl
laws = word_laws refl refl refl refl (λ i x m. refl) (λ i x m p h b. ground arith)

abbrev pub Limited : TtasepflMutex → Type 0
Limited m = (i : ℕ) → (1 ≤ m.limit i) × (m.limit i ≤ max_delay)

abbrev pub Short : Pc → Type 0
Short (delay cycles) = cycles < max_delay
Short p = Unit {0}

next_limit-Limited :
    (v : ℕ) → 1 ≤ v → v ≤ max_delay → (1 ≤ next_limit v) × (next_limit v ≤ max_delay)
unfolding next_limit
next_limit-Limited v low high = ground arith

step-Limited :
    (i : ℕ) (x : Input) (m : TtasepflMutex) (p : Pc)
    → Limited m
    → Short p
    → Limited (step i x m p).0 × OnView Short (after (step i x m p).1)
unfolding step
step-Limited i x m draw l s =
    let next = next_limit-Limited (m.limit i) (l i).0 (l i).1 in
    (λ j. ground (arith, l j, next), ground (arith, l i))
step-Limited i x m p l s = (λ j. ground (arith, l j), ground arith)

limit_laws : LocalLaws ttasepfl Limited Short
unfolding ttasepfl
limit_laws = record {
  lock_ok = tt;
  trylock_ok = tt;
  unlock_ok = tt;
  release_ok = tt;
  settle_ok = λ i x m j. j;
  step_ok = λ i x m p j q. step-Limited i x m p j q;
}

module _ {X : Type 0} (px : Posix X) (n : ℕ) (es : List (Wrapper.Event Input)) where
  -- Whatever the schedule, the clock, the random numbers and the POSIX library do, two threads never
  -- hold a ttasepfl mutex together.
  pub ttasepfl_exclusive :
      (i j : ℕ)
      → i < n
      → j < n
      → view_of ((mutex px n es).thread i) ≡ inside
      → view_of ((mutex px n es).thread j) ≡ inside
      → i ≡ j
  unfolding mutex
  ttasepfl_exclusive = wrapped-exclusive laws px n create refl es

  -- In every run every thread's `limit` is from 1 to MAX_DELAY, so that the remainder by it is never
  -- one by 0, and a thread about to pause does so for fewer than MAX_DELAY cycles.
  pub ttasepfl_limit_bounded :
      Limited (mutex px n es).mem × ((i : ℕ) → OnView Short (view_of ((mutex px n es).thread i)))
  unfolding mutex
  ttasepfl_limit_bounded = wrapped-ok limit_laws px n create (λ i. (omega arith, omega arith)) es
