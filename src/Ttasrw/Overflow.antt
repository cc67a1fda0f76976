-- ===== src/Ttasrw/Overflow.antt =====
-- With 256 readers the count of readers runs into the writer's value.
use shfllock.Base.{ℕ, List, ◌∷◌}
use shfllock.Ttasrw.RwLock.{Op, Event}

abbrev pub thrice : ℕ → Op → List Event → List Event
thrice i o es = let e : Event = record { tid = i; op = o } in e ∷ e ∷ e ∷ es
