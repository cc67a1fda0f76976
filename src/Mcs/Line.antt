-- ===== src/Mcs/Line.antt =====
-- Who stands in the line, and where. Places are numbered from the first one ever taken on; those from
-- `front` up to `back` are taken. The line is no part of the program: the proofs keep it beside the
-- program's state.
use shfllock.Base.{ℕ, suc, ◌≤◌, ◌<◌, ◌≡◌, sym, ap, ◌∙◌, Bool, true, false, arith, assign}

pub record Places : Type 0 where
  pub front : ℕ
  pub back : ℕ
  pub place : ℕ → ℕ  -- of a thread
  pub owner : ℕ → ℕ  -- of a place

-- The places are those of the threads that stand in the line.
pub record Line (n : ℕ) (within : ℕ → Bool) (p : Places) : Type 0 where
  pub order : p.front ≤ p.back
  pub placed :
      (i : ℕ)
      → i < n
      → within i ≡ true
      → (p.front ≤ p.place i) × (p.place i < p.back) × (p.owner (p.place i) ≡ i)
  pub owned :
      (k : ℕ)
      → p.front ≤ k
      → k < p.back
      → (p.owner k < n) × (within (p.owner k) ≡ true) × (p.place (p.owner k) ≡ k)

-- Thread `i` takes the place behind the last one.
abbrev pub entered : Places → ℕ → Places
entered p i = record {
  front = p.front;
  back = suc p.back;
  place = assign p.place i p.back;
  owner = assign p.owner p.back i;
}

-- The first one leaves.
abbrev pub left : Places → Places
left p = record p { front = suc p.front }

module _ {n : ℕ} {within : ℕ → Bool} {p : Places} (l : Line n within p) (i : ℕ) (low : i < n) where
  pub enter-Line : within i ≡ false → Line n (assign within i true) (entered p i)
  enter-Line out = record {
    order = omega (arith, l.order);
    placed = λ j hj e. ground (arith, l.order, l.placed j hj);
    owned = λ k h1 h2. ground (arith, l.order, l.owned k h1, low);
  }

  pub leave-Line : within i ≡ true → p.place i ≡ p.front → Line n (assign within i false) (left p)
  leave-Line in_line first = record {
    order = omega (arith, l.placed i low in_line, first);
    placed = λ j hj e. ground (arith, l.placed i low in_line, first, l.placed j hj);
    owned = λ k h1 h2. ground (arith, l.owned k (omega (arith, h1)) h2, first);
  }

-- Two threads have not the same place.
pub same_place :
    {n : ℕ} {within : ℕ → Bool} {p : Places} (l : Line n within p) (i j : ℕ)
    → i < n
    → j < n
    → within i ≡ true
    → within j ≡ true
    → p.place i ≡ p.place j
    → i ≡ j
same_place {p} l i j hi hj wi wj e = sym (l.placed i hi wi).2 ∙ ap p.owner e ∙ (l.placed j hj wj).2

-- Only who stands in the line matters.
pub Line-ext :
    {n : ℕ} {f g : ℕ → Bool} {p : Places} → ((j : ℕ) → f j ≡ g j) → Line n f p → Line n g p
Line-ext {p} same l = record {
  order = l.order;
  placed = λ i h e. l.placed i h (same i ∙ e);
  owned =
      λ k a b. ((l.owned k a b).0, sym (same (p.owner k)) ∙ (l.owned k a b).1, (l.owned k a b).2);
}
