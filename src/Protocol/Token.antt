-- ===== src/Protocol/Token.antt =====
-- Locks that are handed on: a thread that may go on holds a token, and who unlocks gives its own
-- away. Where a queue keeps its waiters in order, or finds them, is left to the algorithm.
use shfllock.Base.{
  ℕ, ◌+◌, ◌≤◌, ◌<◌, ◌≡◌, ◌≢◌, ap, Bool, true, false, arith, assign, tally, tally-assign,
  tally-assign_above, tally_ext, tally_mono, le-tally, add-le-tally, ℕ_discrete, dec_lt,
}
use shfllock.Protocol.Code.{View, State}

abbrev each : ℕ → ℕ
each k = k

-- `holds i m v` is 1 where thread `i`, which stands at `v`, has a token, else 0; `vacant` is what
-- lets a thread take one that arrives.
module _ {M P : Type 0} (holds : ℕ → M → View P → ℕ) (vacant : M → Bool) where
  abbrev held : State M P → ℕ → ℕ
  held s j = holds j s.mem (s.view j)

  pub record Tokens (n : ℕ) (s : State M P) : Type 0 where
    pub single : tally each n (held s) ≤ 1
    pub none_vacant : vacant s.mem ≡ true → tally each n (held s) ≡ 0

  abbrev pub Same : ℕ → M → M → Type 0
  Same i m m' = (j : ℕ) → j ≢ i → (w : View P) → holds j m' w ≡ holds j m w

  -- What a step of thread `i` from `m` to `m'` and from `v` to `v'` does to the tokens.
  pub data Change (i : ℕ) (m : M) (v : View P) (m' : M) (v' : View P) : Type 0 where
    enter :
        Same i m m' → vacant m ≡ true → vacant m' ≡ false → holds i m' v' ≤ 1 → Change i m v m' v'
    keep :
        Same i m m'
        → holds i m' v' ≤ holds i m v
        → (vacant m' ≡ true → vacant m ≡ true)
        → Change i m v m' v'
    leave : Same i m m' → holds i m v ≡ 1 → holds i m' v' ≡ 0 → Change i m v m' v'
    hand :
        (q : ℕ)
        → ((j : ℕ) → j ≢ i → j ≢ q → (w : View P) → holds j m' w ≡ holds j m w)
        → ((w : View P) → holds q m' w ≤ 1)
        → holds i m v ≡ 1
        → holds i m' v' ≡ 0
        → (vacant m' ≡ true → vacant m ≡ true)
        → Change i m v m' v'

  -- The state behind such a step.
  abbrev pub stepped : ℕ → State M P → M → View P → State M P
  stepped i s m' v' = record { mem = m'; view = assign s.view i v' }

  module _ (s : State M P) (i : ℕ) (m' : M) (v' : View P) where
    held_self : held (stepped i s m' v') i ≡ holds i m' v'
    held_self = ap (λ (v : View P). holds i m' v) (ground arith)

    held_other : (j : ℕ) → j ≢ i → held (stepped i s m' v') j ≡ holds j m' (s.view j)
    held_other j ne = ap (λ (v : View P). holds j m' v) (ground arith)

    held-assign :
        Same i s.mem m' → (j : ℕ) → held (stepped i s m' v') j ≡ assign (held s) i (holds i m' v') j
    held-assign same j = elim (ℕ_discrete j i) [
      | yes e ↦ rw e (ground (arith, held_self))
      | no ne ↦ ground (arith, held_other j ne, same j ne (s.view j))
    ]

  module _ (n : ℕ) (s : State M P) (i : ℕ) (low : i < n) (t : Tokens n s) (m' : M)
      (v' : View P) where
    tally_kept :
        Same i s.mem m'
        → tally each n (held (stepped i s m' v')) + held s i ≡ tally each n (held s) + holds i m' v'
    tally_kept same =
        let e =
          tally_ext each n (held (stepped i s m' v')) (assign (held s) i (holds i m' v'))
            (λ j h. held-assign s i m' v' same j) in
        omega (arith, e, tally-assign each n (held s) i (holds i m' v') low)

    -- A token that is handed to `q` goes to nobody where no thread `q` exists.
    hand_tally :
        (q : ℕ)
        → ((j : ℕ) → j ≢ i → j ≢ q → (w : View P) → holds j m' w ≡ holds j s.mem w)
        → ((w : View P) → holds q m' w ≤ 1)
        → held s i ≡ 1
        → holds i m' v' ≡ 0
        → tally each n (held (stepped i s m' v')) ≤ 1
    hand_tally q same small had gone =
        let g = assign (held s) i 0 in
        let le = tally_mono each n (held (stepped i s m' v')) (assign g q 1) (λ j h.
          elim (ℕ_discrete j i) [
            | yes e ↦ rw e (omega (arith, held_self s i m' v', gone))
            | no ne ↦ elim (ℕ_discrete j q) [
              | yes e ↦ rw e (ground (arith, held_other s i m' v' q, small (s.view q)))
              | no other ↦ ground (arith, held_other s i m' v' j ne, same j ne other (s.view j))
            ]
          ]) in
        let rest = tally-assign each n (held s) i 0 low in
        elim (dec_lt q n) [
          | yes real ↦ omega (arith, le, rest, had, t.single, tally-assign each n g q 1 real)
          | no none ↦
              omega (arith, le, rest, had, t.single, tally-assign_above each n g q 1 (omega arith))
        ]

    pub change-Tokens : Change i s.mem (s.view i) m' v' → Tokens n (stepped i s m' v')
    change-Tokens (enter same was now few) = record {
      single = omega (arith, tally_kept same, t.none_vacant was, few);
      none_vacant = λ e. cc;
    }
    change-Tokens (keep same less back) = record {
      single = omega (arith, tally_kept same, t.single, less);
      none_vacant = λ e. omega (arith, tally_kept same, t.none_vacant (back e), less);
    }
    change-Tokens (leave same had gone) = record {
      single = omega (arith, tally_kept same, t.single, had, gone);
      none_vacant = λ e. omega (arith, tally_kept same, t.single, had, gone);
    }
    change-Tokens (hand q same small had gone back) = record {
      single = hand_tally q same small had gone;
      none_vacant =
          λ e. absurd (omega (arith, t.none_vacant (back e), le-tally each n (held s) i low, had));
    }

  -- Where a thread has a token, no other has.
  pub one_holder :
      (n : ℕ) (s : State M P)
      → Tokens n s
      → (i j : ℕ) → i < n
      → j < n
      → j ≢ i
      → held s i ≡ 1
      → held s j ≡ 0
  one_holder n s t i j hi hj apart e =
      omega (arith, add-le-tally each n (held s) j i hj hi apart, e, t.single)

  -- Two threads never have a token together.
  pub one_token :
      (n : ℕ) (s : State M P)
      → Tokens n s
      → (i j : ℕ) → i < n
      → j < n
      → held s i ≡ 1
      → held s j ≡ 1
      → i ≡ j
  one_token n s t i j hi hj ei ej = elim (ℕ_discrete i j) [
    | yes same ↦ same
    | no apart ↦
        absurd (omega (arith, add-le-tally each n (held s) i j hi hj apart, ei, ej, t.single))
  ]
