-- ===== src/Aqs/Queue.antt =====
-- Chains of queue nodes: which nodes the `next` pointers lead through, and what the relinking of
-- `shuffle_waiters` does to them.
pub mod Walk
pub mod Reorder
use shfllock.Base.{
  ℕ, suc, ◌+◌, ◌≤◌, ◌≡◌, refl, sym, subst, List, [], ◌∷◌, ◌++◌, false, arith, ◌==◌, if◌then◌else◌,
  assign,
}
use shfllock.Aqs.Memory.{Ptr}

-- How often `p` stands in the list.
abbrev pub count : Ptr → List Ptr → ℕ
count p [] = 0
count p (q ∷ ps) = if p == q then suc (count p ps) else count p ps

-- Each node stands in the list once.
abbrev pub IsDistinct : List Ptr → Type 0
IsDistinct ps = (p : Ptr) → count p ps ≤ 1

-- From `x` the pointers lead through the nodes `ps`, in order, to `y`.
abbrev pub Linked : (Ptr → Ptr) → Ptr → List Ptr → Ptr → Type 0
Linked f x [] y = x ≡ y
Linked f x (p ∷ ps) y = (x ≡ p) × Linked f (f p) ps y

-- The last node of `a ∷ ps`.
abbrev pub ending : Ptr → List Ptr → Ptr
ending a [] = a
ending a (p ∷ ps) = ending p ps

pub count-append : (p : Ptr) (ps qs : List Ptr) → count p (ps ++ qs) ≡ count p ps + count p qs
count-append p [] qs = omega arith
count-append p (q ∷ ps) qs = ground (arith, count-append p ps qs)

pub ending-append :
    (a : Ptr) (ps : List Ptr) (q : Ptr) (qs : List Ptr) → ending a (ps ++ q ∷ qs) ≡ ending q qs
ending-append a [] q qs = refl
ending-append a (p ∷ ps) q qs = ending-append p ps q qs

pub count-ending : (p : Ptr) (ps : List Ptr) → 1 ≤ count (ending p ps) (p ∷ ps)
count-ending p [] = ground arith
count-ending p (q ∷ ps) = ground (arith, count-ending q ps)

module _ (f : Ptr → Ptr) where
  pub Linked-append :
      (x : Ptr) (ps : List Ptr) (y : Ptr) (qs : List Ptr) (z : Ptr)
      → Linked f x ps y
      → Linked f y qs z
      → Linked f x (ps ++ qs) z
  Linked-append x [] y qs z e l = subst (λ w. Linked f w qs z) (sym e) l
  Linked-append x (p ∷ ps) y qs z (e, k) l = (e, Linked-append (f p) ps y qs z k l)

  -- A store to a node that is not of the chain leaves it.
  pub Linked-assign :
      (x : Ptr) (ps : List Ptr) (y p v : Ptr)
      → count p ps ≡ 0
      → Linked f x ps y
      → Linked (assign f p v) x ps y
  Linked-assign x [] y p v out l = l
  Linked-assign x (q ∷ ps) y p v out (e, l) =
      let apart : (p == q) ≡ false = ground arith in
      (e, rw apart (Linked-assign (f q) ps y p v (ground arith) l))

  -- A store to the last node leads the chain elsewhere.
  pub Linked-relink :
      (x a : Ptr) (ps : List Ptr) (y z : Ptr)
      → IsDistinct (a ∷ ps)
      → Linked f x (a ∷ ps) y
      → Linked (assign f (ending a ps) z) x (a ∷ ps) z
  Linked-relink x a [] y z d (e, l) = (e, ground arith)
  Linked-relink x a (b ∷ ps) y z d (e, l) =
      let apart : (ending b ps == a) ≡ false = ground (arith, count-ending b ps, d (ending b ps)) in
      (e, rw apart (Linked-relink (f a) b ps y z (λ p. ground (arith, d p)) l))

  pub Linked-split :
      (a : Ptr) (ps qs : List Ptr) (z : Ptr)
      → Linked f (f a) (ps ++ qs) z
      → Linked f (f a) ps (f (ending a ps)) × Linked f (f (ending a ps)) qs z
  Linked-split a [] qs z l = (refl, l)
  Linked-split a (p ∷ ps) qs z (e, l) =
      let (front, back) = Linked-split p ps qs z l in ((e, front), back)
