-- ===== src/Partitioned/Facts.antt =====
-- What is true of the partitioned ticket lock, thread by thread, on top of a line of threads, whose
-- places are their tickets.
use shfllock.Base.{ℕ, suc, ◌+◌, ◌%◌, ◌^◌, ◌≤◌, ◌<◌, ◌≡◌, ◌≢◌, refl, Bool, true, false}
use shfllock.Mcs.Line.{Places, Line}
use shfllock.Protocol.Code.{View, at, inside, State}
use shfllock.Partitioned.Mutex.{PartitionedMutex, Pc, spin, own, read_owner, store}

abbrev pub within : View Pc → Bool
within (at (spin t)) = true
within (at (own t)) = true
within (at read_owner) = true
within (at (store v)) = true
within inside = true
within v = false

-- Of a thread at place `pl`, where the line begins at `front`.
abbrev pub Fact : (pl front owner : ℕ) → View Pc → Type 0
Fact pl f o (at (spin t)) = t ≡ pl
Fact pl f o (at (own t)) = (t ≡ pl) × (pl ≡ f)
Fact pl f o (at read_owner) = (o ≡ pl) × (pl ≡ f)
Fact pl f o (at (store v)) = (v ≡ suc pl) × (pl ≡ f)
Fact pl f o inside = (o ≡ pl) × (pl ≡ f)
Fact pl f o v = Unit {0}

-- `k` events are still to come, so that no ticket reaches 2 ^ 31.
pub record Inv (slots n k : ℕ) (s : State PartitionedMutex Pc) : Type 0 where
  pub places : Places
  pub line : Line n (λ j. within (s.view j)) places
  pub request : s.mem.request ≡ places.back
  pub bound : places.back + k < 2 ^ 31
  pub served : s.mem.grants (places.front % slots) ≡ places.front
  pub passed : (r : ℕ) → r < slots → s.mem.grants r ≤ places.front
  pub each : (j : ℕ) → j < n → Fact (places.place j) places.front s.mem.owner_ticket (s.view j)

-- What another thread changes: the owner's ticket, or the front of the line, as long as this thread
-- is not at the front.
pub Fact-other :
    (pl f f' o o' : ℕ) (v : View Pc) → (within v ≡ true → pl ≢ f) → Fact pl f o v → Fact pl f' o' v
Fact-other pl f f' o o' (at (spin t)) other h = h
Fact-other pl f f' o o' (at (own t)) other h = absurd (other refl h.1)
Fact-other pl f f' o o' (at read_owner) other h = absurd (other refl h.1)
Fact-other pl f f' o o' (at (store v)) other h = absurd (other refl h.1)
Fact-other pl f f' o o' inside other h = absurd (other refl h.1)
Fact-other pl f f' o o' (at p) other h = tt
Fact-other pl f f' o o' v other h = tt
