-- ===== src/Protocol/Induct.antt =====
-- Invariants of every run, by induction on the schedule.
use shfllock.Base.{ℕ, suc, length, ◌<◌, inl, inr, Bool-cases, List, [], ◌∷◌, arith, ltb, assign}
use shfllock.Protocol.Code
use shfllock.Protocol.Code.{Op, State, Event, move, turn, run}

module _ {M P I : Type 0} (c : Code.Code M P I) where
  -- The state behind one step of thread `i`.
  abbrev pub moved : ℕ → I → Op → State M P → State M P
  moved i x o s = record {
    mem = (move c i x o s.mem (s.view i)).0;
    view = assign s.view i (move c i x o s.mem (s.view i)).1;
  }

  module _ (n : ℕ) (Inv : State M P → Type 0)
      (keeps : (i : ℕ) (x : I) (o : Op) (s : State M P) → i < n → Inv s → Inv (moved i x o s)) where
    pub turn-keeps : (e : Event I) (s : State M P) → Inv s → Inv (turn c n e s)
    unfolding turn
    turn-keeps e s v = elim (Bool-cases (ltb e.tid n)) [
      | inr out ↦ rw out v
      | inl real ↦ rw real (keeps e.tid e.input e.op s (ground arith) v)
    ]

    -- What every step keeps, every run keeps.
    pub run-keeps : (es : List (Event I)) (s : State M P) → Inv s → Inv (run c n es s)
    unfolding run
    run-keeps [] s v = v
    run-keeps (e ∷ es) s v = run-keeps es (turn c n e s) (turn-keeps e s v)

module _ {M P I : Type 0} (c : Code.Code M P I) (n : ℕ) (Inv : ℕ → State M P → Type 0)
    (idles : (k : ℕ) (s : State M P) → Inv (suc k) s → Inv k s)
    (keeps : (k i : ℕ) (x : I) (o : Op) (s : State M P)
      → i < n
      → Inv (suc k) s
      → Inv k (moved c i x o s)) where
  turn-spends : (k : ℕ) (e : Event I) (s : State M P) → Inv (suc k) s → Inv k (turn c n e s)
  unfolding turn
  turn-spends k e s v = elim (Bool-cases (ltb e.tid n)) [
    | inr out ↦ rw out (idles k s v)
    | inl real ↦ rw real (keeps k e.tid e.input e.op s (ground arith) v)
  ]

  -- An invariant that counts the events that are still to come.
  pub run-spends : (es : List (Event I)) (s : State M P) → Inv (length es) s → Inv 0 (run c n es s)
  unfolding run length
  run-spends [] s v = v
  run-spends (e ∷ es) s v = run-spends es (turn c n e s) (turn-spends (length es) e s v)
