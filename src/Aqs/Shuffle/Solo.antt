-- ===== src/Aqs/Shuffle/Solo.antt =====
-- A call of `shuffle_waiters` that no other thread interrupts.
use shfllock.Base.{
  ℕ, zero, suc, ◌≡◌, refl, sym, subst, fun_ext, Bool, Option, none, some, arith, ◌==◌, assign, inl,
  inr, Bool-cases,
}
use shfllock.Aqs.Memory.{
  Ptr, null, AqsMutex, set_next, set_sleader, set_waitcount, set_last_visited,
}
use shfllock.Aqs.Shuffle
use shfllock.Aqs.Shuffle.{Pc, Next, go, return, step}

abbrev follow : AqsMutex → Next → (Pc → Option (AqsMutex × Bool)) → Option (AqsMutex × Bool)
follow m (go q) rest = rest q
follow m (return b) rest = some (m, b)

-- At most `k` steps of the shuffler that thread `i` runs; `none` if it has not returned by then.
unfoldable pub solo : ℕ → ℕ → AqsMutex → Pc → Option (AqsMutex × Bool)
solo zero i m p = none
solo (suc k) i m p = follow (step i m p).0 (step i m p).1 (λ q. solo k i (step i m p).0 q)

-- The run from `p` returns, in a memory of which `R` holds.
pub data Ends (i : ℕ) (R : AqsMutex → Type 0) : AqsMutex → Pc → Type 0 where
  more :
      {m : AqsMutex} {p : Pc} (q : Pc)
      → (step i m p).1 ≡ go q
      → Ends i R (step i m p).0 q
      → Ends i R m p
  done :
      {m : AqsMutex} {p : Pc} (b : Bool)
      → (step i m p).1 ≡ return b
      → R (step i m p).0
      → Ends i R m p

-- A run that ends is a result of `solo`, given fuel enough.
pub Ends-solo :
    {i : ℕ} {R : AqsMutex → Type 0} {m : AqsMutex} {p : Pc}
    → Ends i R m p
    → (k : ℕ) × (m' : AqsMutex) × (b : Bool) × (solo k i m p ≡ some (m', b)) × R m'
unfolding solo
Ends-solo (more q e rest) =
    let (k, m', b, runs, holds) = Ends-solo rest in (suc k, m', b, rw e runs, holds)
Ends-solo {i} {m} {p} (done b e holds) = (1, (step i m p).0, b, rw e, holds)

-- The `next` pointers.
abbrev pub links : AqsMutex → Ptr → Ptr
links m p = (m.node p).next

module _ (m : AqsMutex) (p : Ptr) where
  pub links-next : (q : Ptr) → links (set_next m p q) ≡ assign (links m) p q
  links-next q = fun_ext (λ r. ground arith)

  pub links-sleader : (v : ℕ) → links (set_sleader m p v) ≡ links m
  links-sleader v = fun_ext (λ r. ground arith)

  pub links-waitcount : (v : ℕ) → links (set_waitcount m p v) ≡ links m
  links-waitcount v = fun_ext (λ r. ground arith)

  pub links-last_visited : (q : Ptr) → links (set_last_visited m p q) ≡ links m
  links-last_visited q = fun_ext (λ r. ground arith)

module _ (i : ℕ) (G : (Ptr → Ptr) → Type 0) where
  abbrev pub Leads : AqsMutex → Pc → Type 0
  Leads = Ends i (λ m. G (links m))

  -- Behind the label `out` no pointer of the queue is written.
  pub out-Leads :
      (m : AqsMutex) (nx : Bool) (s q : Ptr) → G (links m) → Leads m (Shuffle.out nx s q)
  unfolding step
  out-Leads m nx s q g = elim (Bool-cases (s == null)) [
    | inl e ↦ done nx (rw e) (rw e g)
    | inr e ↦
        more (Shuffle.out_visited nx s q) (rw e)
          (rw e (visited_part (subst G (sym (links-sleader m s 1)) g)))
  ]
    where
      visited_part :
          G (links (set_sleader m s 1)) → Leads (set_sleader m s 1) (Shuffle.out_visited nx s q)
      visited_part h = elim (Bool-cases (q == s)) [
        | inl e ↦ done nx refl (rw e h)
        | inr e ↦ done nx refl (rw e (subst G (sym (links-last_visited (set_sleader m s 1) s q)) h))
      ]
