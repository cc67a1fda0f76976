-- ===== src/Interpose/Invariant.antt =====
-- What holds of the table, the locks and the calls in every state, as long as no mutex is destroyed.
use shfllock.Base.{
  ℕ, ◌<◌, ◌≡◌, ◌≢◌, Bool, true, false, inl, inr, Bool-cases, arith, ◌==◌, ◌&&◌, assign,
}
use shfllock.Interpose.Table.{Ptr, null}
use shfllock.Interpose.Calls.{Op, init, Stage, get, create, put, get_again, calling, remove, fault}

-- Whether a call goes on to the lock.
abbrev pub uses : Op → Bool
uses init = false
uses op = true

-- The mutex that a call is on its way to.
abbrev pub aims : Stage → ℕ → Bool
aims (get op k) j = uses op && (k == j)
aims (create op k) j = uses op && (k == j)
aims (put op k p) j = uses op && (k == j)
aims (get_again op k) j = uses op && (k == j)
aims (calling op k p) j = uses op && (k == j)
aims g j = false

-- The lock that a thread has made and not yet published.
abbrev pub pending : Stage → Ptr
pending (put op k p) = p
pending g = null

-- What a stage says of the table, as the function `look`, and of the allocator.
abbrev pub StageOk : (ℕ → Ptr) → Ptr → Stage → Type 0
StageOk look next (put op k p) = (p ≢ null) × (p < next) × ((j : ℕ) → look j ≢ p)
StageOk look next (get_again op k) = look k ≢ null
StageOk look next (calling op k p) = (look k ≡ p) × (p ≢ null) × (uses op ≡ true)
StageOk look next (remove k) = ⊥
StageOk look next fault = ⊥
StageOk look next g = Unit {0}

pub record Stages (look : ℕ → Ptr) (next : Ptr) (held : ℕ → ℕ → Bool) (stage : ℕ → Stage)
    : Type 0 where
  pub ok : (i : ℕ) → StageOk look next (stage i)
  pub away : (i k : ℕ) → aims (stage i) k ≡ true → held i k ≡ false
  pub single : (i j : ℕ) → pending (stage i) ≢ null → pending (stage i) ≡ pending (stage j) → i ≡ j

-- One thread moves, and the table, the allocator and what is held change with it.
module _ {look : ℕ → Ptr} {next : Ptr} {held : ℕ → ℕ → Bool} {stage : ℕ → Stage}
    (v : Stages look next held stage) (look' : ℕ → Ptr) (next' : Ptr) (held' : ℕ → ℕ → Bool) (i : ℕ)
    (g : Stage) where
  pub Stages-move :
      ((j : ℕ) → (i == j) ≡ false → StageOk look' next' (stage j))
      → ((j k : ℕ) → (i == j) ≡ false → held' j k ≡ held j k)
      → StageOk look' next' g
      → ((k : ℕ) → aims g k ≡ true → held' i k ≡ false)
      → (pending g ≢ null → (j : ℕ) → (i == j) ≡ false → pending (stage j) ≢ pending g)
      → Stages look' next' held' (assign stage i g)
  Stages-move others same good off fresh = record {
    ok = λ j. elim (Bool-cases (i == j)) [ inl own ↦ rw own good | inr ne ↦ rw ne (others j ne) ];
    away = λ j k. elim (Bool-cases (i == j)) [
      | inl own ↦ let e : i ≡ j = ground arith in rw own (λ a. ground (arith, off k a, e))
      | inr ne ↦ rw ne (λ a. ground (arith, same j k ne, v.away j k a))
    ];
    single = λ j k. elim (Bool-cases (i == j)) [
      | inl own ↦ elim (Bool-cases (i == k)) [
        | inl own' ↦ λ a e. ground arith
        | inr ne ↦ rw (own, ne) (λ a e. ground (arith, fresh a k ne))
      ]
      | inr ne ↦ elim (Bool-cases (i == k)) [
        | inl own ↦ rw (ne, own) (λ a e. ground (arith, fresh _ j ne))
        | inr ne' ↦ rw (ne, ne') (v.single j k)
      ]
    ];
  }
