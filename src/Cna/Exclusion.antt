-- ===== src/Cna/Exclusion.antt =====
-- The lock of cna.c in every run.
use shfllock.Base.{ℕ, ◌<◌, ◌≡◌, ◌≢◌, List, arith}
use shfllock.Protocol.Code.{View, inside, at, outside}
use shfllock.Protocol.Handover.{final, handover-exclusive}
use shfllock.Protocol.Wrapper
use shfllock.Protocol.Wrapper.{Posix}
use shfllock.Protocol.Refinement.{view_of}
use shfllock.Cna.Memory.{null, CnaMutex}
use shfllock.Protocol.Local.{OnView}
use shfllock.Cna.Mutex.{
  Pc, prepare, link, compare, after_first, follow, append_at, cut, pass_value, join, wake, mutex,
}
use shfllock.Cna.Facts.{holds, vacant, Fact}
use shfllock.Cna.Steps.{laws}

-- The node that a step reads or writes is not NULL.
abbrev pub Real : Pc → Type 0
Real (link t) = t ≢ null
Real (compare p node) = p ≢ null
Real (after_first p node) = p ≢ null
Real (follow head cur node) = cur ≢ null
Real (append_at last head tail cur) = last ≢ null
Real (cut tail cur) = tail ≢ null
Real (pass_value p v) = p ≢ null
Real (join succ last next) = last ≢ null
Real (wake p) = p ≢ null
Real q = Unit {0}

Fact-Real : (i : ℕ) (m : CnaMutex) (v : View Pc) → Fact i m v → OnView Real v
Fact-Real i m outside f = tt
Fact-Real i m (at prepare) f = tt
Fact-Real i m (at q) f = ground (arith, f)
Fact-Real i m v f = tt

module _ (cpus nodes : ℕ) {X : Type 0} (px : Posix X) (n : ℕ) (es : List (Wrapper.Event ℕ)) where
  -- Whatever the schedule, the NUMA nodes of the threads and the POSIX library do, two threads never
  -- hold a cna mutex together.
  pub cna_exclusive :
      (i j : ℕ)
      → i < n
      → j < n
      → view_of ((mutex cpus nodes px n es).thread i) ≡ inside
      → view_of ((mutex cpus nodes px n es).thread j) ≡ inside
      → i ≡ j
  unfolding mutex
  cna_exclusive = handover-exclusive holds vacant Fact (laws cpus nodes) n px es

  -- Whatever the schedule, the NUMA nodes of the threads and the POSIX library do, no thread is
  -- about to link itself behind, to look at the NUMA node of, to cut, to append to or to wake a node
  -- at NULL.
  pub cna_pointers-Real :
      (i : ℕ) → i < n → OnView Real (view_of ((mutex cpus nodes px n es).thread i))
  unfolding mutex
  cna_pointers-Real i hi =
      Fact-Real i (mutex cpus nodes px n es).mem (view_of ((mutex cpus nodes px n es).thread i))
        ((final holds vacant Fact (laws cpus nodes) n px es).each i hi)
