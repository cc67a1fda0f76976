-- ===== src/Base/Threads.antt =====
-- Families indexed by thread number: the write of one entry, and a weight added up over the first
-- `n` threads.
use Prim.Native.Nat.{ℕ, zero, suc, ◌+◌, ◌≤◌, ◌<◌}
use mathlib.Core.Path.{◌≡◌, refl, sym, ap, ◌∙◌, subst, fun_ext}
use mathlib.Core.Logic.{inl, inr, ◌≢◌}
use native.Mathlib.Omega.{arith}
use native.Mathlib.Decide.{dec_lt, ℕ_discrete}
use shfllock.Base.Tests.{◌==◌, if◌then◌else◌, Bool-cases}

abbrev pub assign {ℓ} : {A : Type ℓ} → (ℕ → A) → ℕ → A → ℕ → A
assign f i a j = if i == j then a else f j

pub assign_other {ℓ} :
    {A : Type ℓ} (f : ℕ → A) (i : ℕ) (a : A) (j : ℕ) → j ≢ i → assign f i a j ≡ f j
assign_other f i a j ne = ground arith

-- A function commutes with the write of an entry.
pub map-assign {ℓ κ} :
    {A : Type ℓ} {B : Type κ} (g : A → B) (f : ℕ → A) (i : ℕ) (a : A)
    → ◌≡◌ {A = ℕ → B} (λ j. g (assign f i a j)) (assign (λ j. g (f j)) i (g a))
map-assign g f i a = fun_ext (λ j. ground arith)

-- What holds of every entry, and of the new one, holds behind the write.
pub all-assign {ℓ κ} :
    {A : Type ℓ} (Q : A → Type κ) (f : ℕ → A) (i : ℕ) (a : A)
    → ((j : ℕ) → Q (f j))
    → Q a
    → (j : ℕ) → Q (assign f i a j)
all-assign Q f i a all new j = elim (Bool-cases (i == j)) [
  | inl e ↦ rw e new
  | inr e ↦ rw e (all j)
]

-- The same of a property that names the thread, where the new entry is apart from the others.
pub each-assign {ℓ κ} :
    {A : Type ℓ} (Q : ℕ → A → Type κ) (f : ℕ → A) (i : ℕ) (a : A)
    → Q i a
    → ((j : ℕ) → j ≢ i → Q j (f j))
    → (j : ℕ) → Q j (assign f i a j)
each-assign Q f i a new all j = elim (Bool-cases (i == j)) [
  | inl e ↦ let same : i ≡ j = ground arith in rw e (subst (λ (k : ℕ). Q k a) same new)
  | inr e ↦ rw e (all j (λ z. ground (arith, z)))
]

-- Where `P` never relates two threads, and relates the new entry to none of the others, it still
-- relates no two behind the write.
pub pairs-assign {ℓ κ} :
    {A : Type ℓ} (P : A → A → Type κ) (f : ℕ → A) (i : ℕ) (a : A)
    → ((j k : ℕ) → P (f j) (f k) → j ≡ k)
    → ((j : ℕ) → j ≢ i → ¬ P a (f j))
    → ((j : ℕ) → j ≢ i → ¬ P (f j) a)
    → (j k : ℕ) → P (assign f i a j) (assign f i a k)
    → j ≡ k
pairs-assign P f i a old left right j k h = elim (ℕ_discrete j i) [
  | yes x ↦
      let at_j : assign f i a j ≡ a = ground (arith, x) in
      let here = subst (λ v. P v (assign f i a k)) at_j h in
      elim (ℕ_discrete k i) [
        | yes y ↦ x ∙ sym y
        | no y ↦ absurd (left k y (subst (P a) (assign_other f i a k y) here))
      ]
  | no x ↦
      let here = subst (λ v. P v (assign f i a k)) (assign_other f i a j x) h in
      elim (ℕ_discrete k i) [
        | yes y ↦
            let at_k : assign f i a k ≡ a = ground (arith, y) in
            absurd (right j x (subst (P (f j)) at_k here))
        | no y ↦ old j k (subst (P (f j)) (assign_other f i a k y) here)
      ]
]

module _ {ℓ} {A : Type ℓ} (w : A → ℕ) where
  pub tally : ℕ → (ℕ → A) → ℕ
  tally zero f = 0
  tally (suc n) f = w (f n) + tally n f

  pub tally-assign_above :
      (n : ℕ) (f : ℕ → A) (i : ℕ) (a : A) → n ≤ i → tally n (assign f i a) ≡ tally n f
  unfolding tally
  tally-assign_above zero f i a h = refl
  tally-assign_above (suc n) f i a h = ground (arith, tally-assign_above n f i a)

  -- One entry is exchanged: its old weight goes and its new one comes.
  pub tally-assign :
      (n : ℕ) (f : ℕ → A) (i : ℕ) (a : A)
      → i < n
      → tally n (assign f i a) + w (f i) ≡ tally n f + w a
  unfolding tally
  tally-assign zero f i a h = absurd (omega arith)
  tally-assign (suc n) f i a h = elim (dec_lt i n) [
    | yes low ↦ ground (arith, tally-assign n f i a)
    | no top ↦ ground (arith, tally-assign_above n f i a)
  ]

  pub le-tally : (n : ℕ) (f : ℕ → A) (i : ℕ) → i < n → w (f i) ≤ tally n f
  unfolding tally
  le-tally zero f i h = absurd (omega arith)
  le-tally (suc n) f i h = elim (dec_lt i n) [
    | yes low ↦ omega (arith, le-tally n f i low)
    | no top ↦ ground arith
  ]

  -- Two threads count twice.
  pub add-le-tally :
      (n : ℕ) (f : ℕ → A) (i j : ℕ) → i < n → j < n → i ≢ j → w (f i) + w (f j) ≤ tally n f
  unfolding tally
  add-le-tally zero f i j hi hj ne = absurd (omega arith)
  add-le-tally (suc n) f i j hi hj ne = elim (dec_lt i n) [
    | yes low ↦ elim (dec_lt j n) [
      | yes low' ↦ omega (arith, add-le-tally n f i j low low' ne)
      | no top ↦ ground (arith, le-tally n f i low)
    ]
    | no top ↦ ground (arith, le-tally n f j)
  ]

  pub tally-const : (n : ℕ) (a : A) → w a ≡ 0 → tally n (λ _. a) ≡ 0
  unfolding tally
  tally-const zero a h = refl
  tally-const (suc n) a h = omega (arith, h, tally-const n a h)

  -- A weight that is at most 1 adds up to at most the number of threads.
  pub tally-le : ((a : A) → w a ≤ 1) → (n : ℕ) (f : ℕ → A) → tally n f ≤ n
  unfolding tally
  tally-le small zero f = omega arith
  tally-le small (suc n) f = omega (arith, small (f n), tally-le small n f)

  -- Families that agree on the threads that exist weigh the same.
  pub tally_ext : (n : ℕ) (f g : ℕ → A) → ((j : ℕ) → j < n → f j ≡ g j) → tally n f ≡ tally n g
  unfolding tally
  tally_ext zero f g same = refl
  tally_ext (suc n) f g same =
      omega (arith, ap w (same n (omega arith)), tally_ext n f g (λ j h. same j (omega arith)))

  pub tally_mono :
      (n : ℕ) (f g : ℕ → A) → ((j : ℕ) → j < n → w (f j) ≤ w (g j)) → tally n f ≤ tally n g
  unfolding tally
  tally_mono zero f g le = omega arith
  tally_mono (suc n) f g le =
      omega (arith, le n (omega arith), tally_mono n f g (λ j h. le j (omega arith)))
