-- ===== src/Protocol/Cases.antt =====
-- The cases of a move: a step of the code, a call, or nothing.
use shfllock.Base.{ℕ}
use shfllock.Protocol.Code
use shfllock.Protocol.Code.{
  View, outside, at, inside, dead, Op, lock, trylock, unlock, release, settle, after, move,
}

module _ {M P I : Type 0} (c : Code.Code M P I) (i : ℕ) (x : I) (m : M)
    (Q : View P → M × View P → Type 0) where
  -- What holds of each step, of each call and of rest, holds of every move.
  pub move-cases :
      ((p : P) → Q (at p) ((c.step i x m p).0, after (c.step i x m p).1))
      → Q outside (m, at c.lock_entry)
      → Q outside (m, at c.trylock_entry)
      → Q inside (m, at c.unlock_entry)
      → Q inside (m, at c.release_entry)
      → Q inside (c.on_locked i x m, inside)
      → ((v : View P) → Q v (m, v))
      → (o : Op) (v : View P) → Q v (move c i x o m v)
  unfolding move
  move-cases step l t u r s rest o (at p) = step p
  move-cases step l t u r s rest lock outside = l
  move-cases step l t u r s rest trylock outside = t
  move-cases step l t u r s rest unlock outside = rest outside
  move-cases step l t u r s rest release outside = rest outside
  move-cases step l t u r s rest settle outside = rest outside
  move-cases step l t u r s rest lock inside = rest inside
  move-cases step l t u r s rest trylock inside = rest inside
  move-cases step l t u r s rest unlock inside = u
  move-cases step l t u r s rest release inside = r
  move-cases step l t u r s rest settle inside = s
  move-cases step l t u r s rest o dead = rest dead
