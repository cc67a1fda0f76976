-- ===== src/Aqm/Stealing.antt =====
-- What the flag `no_stealing` does to a free lock: `enable_stealing` of aqm.c sets it, where that
-- of aqs.c clears it.
use shfllock.Base.{
  ℕ, ◌≡◌, ◌≢◌, refl, inl, inr, Bool, true, false, Bool-cases, List, [], ◌∷◌, ltb, arith,
}
use shfllock.Aqs.Memory.{null, node_of}
use shfllock.Aqm.Memory.{AqmMutex, enable_stealing}
use shfllock.Aqm.Mutex.{
  Pc, Input, clear_tail, enable, give_back, attempt, fast_path, prepare, step, aqm,
}
use shfllock.Protocol.Code.{
  go, busy, View, outside, at, inside, dead, trylock, State, Event, move, turn, run, start,
}

module _ (cpus nodes : ℕ) where
  -- The end of an acquisition by the last thread of the queue, and its unlock.
  abbrev pub drained : ℕ → Input → AqmMutex → AqmMutex
  drained i x m =
      let m' = (step cpus nodes i x m clear_tail).0 in
      let m'' = (step cpus nodes i x m' enable).0 in (step cpus nodes i x m'' give_back).0

  -- Where the last thread of the queue leaves it and unlocks, the lock is free and the queue is
  -- empty, but `trylock` of every thread answers EBUSY and the fast path of `lock` is refused.
  pub aqm_refuses_free_lock :
      (i j : ℕ) (x y : Input) (m : AqmMutex)
      → m.tail ≡ node_of i
      → ((drained i x m).locked ≡ 0)
        × ((drained i x m).tail ≡ null)
        × ((step cpus nodes j y (drained i x m) attempt).1 ≡ busy)
        × ((step cpus nodes j y (drained i x m) fast_path).1 ≡ go prepare)
  unfolding step enable_stealing
  aqm_refuses_free_lock i j x y m e = ground arith

-- A thread that has called nothing but `trylock`.
abbrev trying : View Pc → Bool
trying outside = true
trying (at attempt) = true
trying v = false

abbrev pub tries : List (ℕ × Input) → List (Event Input)
tries [] = []
tries ((i, x) ∷ ids) = record { tid = i; op = trylock; input = x } ∷ tries ids

module _ (cpus nodes : ℕ) (m : AqmMutex) (set : m.no_stealing ≡ 1) where
  record Inv (s : State AqmMutex Pc) : Type 0 where
    same : s.mem ≡ m
    none_in : (j : ℕ) → trying (s.view j) ≡ true

  move-trying :
      (i : ℕ) (x : Input) (v : View Pc)
      → trying v ≡ true
      → ((move (aqm cpus nodes) i x trylock m v).0 ≡ m)
        × (trying (move (aqm cpus nodes) i x trylock m v).1 ≡ true)
  unfolding move aqm step
  move-trying i x outside e = (refl, refl)
  move-trying i x (at p) e = ground arith
  move-trying i x inside e = absurd (cc e)
  move-trying i x dead e = absurd (cc e)

  turn-Inv :
      (n i : ℕ) (x : Input) (s : State AqmMutex Pc)
      → Inv s
      → Inv (turn (aqm cpus nodes) n (record { tid = i; op = trylock; input = x }) s)
  unfolding turn
  turn-Inv n i x s v = elim (Bool-cases (ltb i n)) [
    | inr out ↦ rw out v
    | inl real ↦
        let (kept, on) = move-trying i x (s.view i) (v.none_in i) in
        rw (real, v.same) (record { same = kept; none_in = λ j. ground (arith, v.none_in j, on) })
  ]

  run-Inv :
      (n : ℕ) (ids : List (ℕ × Input)) (s : State AqmMutex Pc)
      → Inv s
      → Inv (run (aqm cpus nodes) n (tries ids) s)
  unfolding run
  run-Inv n [] s v = v
  run-Inv n ((i, x) ∷ ids) s v = run-Inv n ids _ (turn-Inv n i x s v)

  -- Where `no_stealing` is 1, as the last thread of the queue leaves it, no schedule of threads that
  -- only call `trylock` lets any of them take the lock, whether or not it is free, nor does it change
  -- anything.
  pub aqm_trylock_starves :
      (n : ℕ) (ids : List (ℕ × Input)) (j : ℕ)
      → ((run (aqm cpus nodes) n (tries ids) (start m)).view j ≢ inside)
        × ((run (aqm cpus nodes) n (tries ids) (start m)).mem ≡ m)
  aqm_trylock_starves n ids j =
      let v = run-Inv n ids (start m) (record { same = refl; none_in = λ k. refl }) in
      (λ e. cc (v.none_in j, e), v.same)
