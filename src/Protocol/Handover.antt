-- ===== src/Protocol/Handover.antt =====
-- Exclusion of a lock that hands a token on, from what one step of one thread does to the token and
-- to a fact that holds of each thread.
use shfllock.Base.{
  ℕ, ◌≤◌, ◌<◌, ◌≡◌, ◌≢◌, refl, Bool, List, arith, tally-const, tally_ext, ◌∙◌, each-assign,
}
use shfllock.Protocol.Code
use shfllock.Protocol.Code.{View, outside, inside, Op, State, Event, move, run, start}
use shfllock.Protocol.Induct.{moved, run-keeps}
use shfllock.Protocol.Token.{Tokens, Change, keep, change-Tokens, one_holder, one_token}
use shfllock.Protocol.Wrapper
use shfllock.Protocol.Wrapper.{Posix}
use shfllock.Protocol.Refinement.{view_of, project, wrapped-all}

module _ {M P : Type 0} (holds : ℕ → M → View P → ℕ) (vacant : M → Bool)
    (Fact : ℕ → M → View P → Type 0) where
  -- A step of thread `i`. Where the thread has the token, no other has it.
  pub record Moves (i : ℕ) (m : M) (v : View P) (m' : M) (v' : View P) : Type 0 where
    pub change : Change holds vacant i m v m' v'
    pub own : Fact i m' v'
    pub others :
        (j : ℕ)
        → j ≢ i
        → (w : View P) → (holds i m v ≡ 1 → holds j m w ≡ 0)
        → Fact j m w
        → Fact j m' w

  -- A step that writes nothing.
  pub reads :
      (i : ℕ) (m : M) (v v' : View P) → holds i m v' ≤ holds i m v → Fact i m v' → Moves i m v m v'
  reads i m v v' less f = record {
    change = keep (λ j ne w. refl) less (λ e. e);
    own = f;
    others = λ j ne w only g. g;
  }

  pub record Inv (n : ℕ) (s : State M P) : Type 0 where
    pub tokens : Tokens holds vacant n s
    pub each : (j : ℕ) → j < n → Fact j s.mem (s.view j)

  pub record HandoverLaws {I : Type 0} (c : Code.Code M P I) (m₀ : M) : Type 0 where
    pub moves :
        (i : ℕ) (x : I) (o : Op) (m : M) (v : View P)
        → Fact i m v
        → Moves i m v (move c i x o m v).0 (move c i x o m v).1
    pub inside_holds : (i : ℕ) (m : M) → holds i m inside ≡ 1
    pub outside_holds : (i : ℕ) (m : M) → holds i m outside ≡ 0
    pub outside_fact : (i : ℕ) → Fact i m₀ outside

  module _ {I : Type 0} {c : Code.Code M P I} {m₀ : M} (laws : HandoverLaws c m₀) (n : ℕ) where
    moved-Inv : (i : ℕ) (x : I) (o : Op) (s : State M P) → i < n → Inv n s → Inv n (moved c i x o s)
    moved-Inv i x o s low v =
        let r = move c i x o s.mem (s.view i) in
        let m = laws.moves i x o s.mem (s.view i) (v.each i low) in
        record {
          tokens = change-Tokens holds vacant n s i low v.tokens r.0 r.1 m.change;
          each =
              each-assign (λ j w. j < n → Fact j r.0 w) s.view i r.1 (λ h. m.own)
                (λ j ne hj.
                  m.others j ne (s.view j) (one_holder holds vacant n s v.tokens i j low hj ne)
                    (v.each j hj));
        }

    start-Inv : Inv n (start m₀)
    start-Inv =
        let none =
          tally_ext (λ (k : ℕ). k) n (λ j. holds j m₀ outside) (λ j. 0)
            (λ j h. laws.outside_holds j m₀)
          ∙ tally-const (λ (k : ℕ). k) n 0 refl in
        record {
          tokens = record { single = omega (arith, none); none_vacant = λ e. none };
          each = λ j h. laws.outside_fact j;
        }

    -- The invariant of every run of the algorithm alone.
    pub run-Inv : (es : List (Event I)) → Inv n (run c n es (start m₀))
    run-Inv es = run-keeps c n (Inv n) moved-Inv es (start m₀) start-Inv

    module _ {X : Type 0} (px : Posix X) (es : List (Wrapper.Event I)) where
      -- And of every run of the wrapped lock.
      pub final : Inv n (project (Wrapper.run c px n es (Wrapper.start m₀ px)))
      final = wrapped-all c px n m₀ (Inv n) run-Inv es

      -- Two threads never hold the lock together.
      pub handover-exclusive :
          (i j : ℕ)
          → i < n
          → j < n
          → view_of ((Wrapper.run c px n es (Wrapper.start m₀ px)).thread i) ≡ inside
          → view_of ((Wrapper.run c px n es (Wrapper.start m₀ px)).thread j) ≡ inside
          → i ≡ j
      handover-exclusive i j hi hj ei ej =
          let s = project (Wrapper.run c px n es (Wrapper.start m₀ px)) in
          one_token holds vacant n s final.tokens i j hi hj (rw ei (laws.inside_holds i s.mem))
            (rw ej (laws.inside_holds j s.mem))
