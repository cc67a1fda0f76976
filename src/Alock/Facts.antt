-- ===== src/Alock/Facts.antt =====
-- What is true of the array lock, thread by thread, on top of a line of threads.
use shfllock.Base.{
  ℕ, suc, ◌+◌, ◌%◌, ◌^◌, ◌≤◌, ◌<◌, ◌≡◌, ◌≢◌, Bool, true, false, arith, if◌then◌else◌, tally,
}
use shfllock.Atomic.{locked}
use shfllock.Mcs.Line.{Places, Line}
use shfllock.Protocol.Code.{View, at, inside, State}
use shfllock.Alock.Mutex.{slots, AlockMutex, Pc, spin, try_look, try_swap, shut, open_next}

abbrev pub within : View Pc → Bool
within (at (spin s)) = true
within (at shut) = true
within (at (open_next s)) = true
within inside = true
within v = false

-- How much a thread counts in the line.
abbrev pub counts : Bool → ℕ
counts b = if b then 1 else 0

-- `front_flag` is the flag of the first place of the line, `mine` the `my_index` of the thread.
abbrev pub Fact : (place front back front_flag mine : ℕ) → View Pc → Type 0
Fact pl f b o mi (at (spin s)) = (s ≡ pl % slots) × (mi ≡ pl % slots)
Fact pl f b o mi (at shut) = (mi ≡ pl % slots) × (pl ≡ f)
Fact pl f b o mi (at (open_next s)) = (s ≡ pl % slots) × (pl ≡ f) × (o ≡ locked)
Fact pl f b o mi (at (try_look t)) = t ≤ b
Fact pl f b o mi (at (try_swap t)) = (t ≤ b) × (t ≡ b → f ≡ b)
Fact pl f b o mi inside = (mi ≡ pl % slots) × (pl ≡ f)
Fact pl f b o mi v = Unit {0}

-- Of thread `j`, which stands as `w` says.
abbrev pub FactIn : Places → AlockMutex → ℕ → View Pc → Type 0
FactIn p m j w = Fact (p.place j) p.front p.back (m.flags (p.front % slots)) (m.my_index j) w

-- `k` events are still to come, so that the counter does not wrap around.
pub record Inv (n k : ℕ) (s : State AlockMutex Pc) : Type 0 where
  pub places : Places
  pub line : Line n (λ j. within (s.view j)) places
  pub count : places.front + tally counts n (λ j. within (s.view j)) ≡ places.back
  pub tail : s.mem.tail ≡ places.back
  pub bound : places.back + k < 2 ^ 32
  pub opened : (r : ℕ) → r < slots → s.mem.flags r ≢ locked → r ≡ places.front % slots
  pub each : (j : ℕ) → j < n → FactIn places s.mem j (s.view j)

pub Fact-enter : (pl f b o mi : ℕ) (v : View Pc) → Fact pl f b o mi v → Fact pl f (suc b) o mi v
Fact-enter pl f b o mi (at p) h = ground (arith, h)
Fact-enter pl f b o mi v h = ground (arith, h)

pub Fact-leave :
    (pl f b o o' mi : ℕ) (v : View Pc)
    → f < b
    → (within v ≡ true → pl ≢ f)
    → Fact pl f b o mi v
    → Fact pl (suc f) b o' mi v
Fact-leave pl f b o o' mi (at p) low other h = ground (arith, low, other, h)
Fact-leave pl f b o o' mi v low other h = ground (arith, low, other, h)

pub Fact-shut :
    (pl f b o o' mi : ℕ) (v : View Pc) → o' ≡ locked → Fact pl f b o mi v → Fact pl f b o' mi v
Fact-shut pl f b o o' mi (at p) e h = ground (arith, e, h)
Fact-shut pl f b o o' mi v e h = ground (arith, e, h)
