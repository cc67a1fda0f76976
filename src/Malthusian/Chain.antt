-- ===== src/Malthusian/Chain.antt =====
-- Doubly linked nodes as a list, for the passive set of malthusian.c.
use shfllock.Base.{◌≡◌, ◌≢◌, sym, ◌∙◌, List, [], ◌∷◌, ◌++◌}
use shfllock.Malthusian.Memory.{Ptr, null, MalthusianMutex}

abbrev pub Fresh : Ptr → List Ptr → Type 0
Fresh p [] = Unit {0}
Fresh p (x ∷ xs) = (x ≢ p) × Fresh p xs

abbrev pub Distinct : List Ptr → Type 0
Distinct [] = Unit {0}
Distinct (x ∷ xs) = Fresh x xs × Distinct xs

-- The nodes from `front` on are those of the list, behind the node `before` or, at the head, NULL.
abbrev pub Chain : MalthusianMutex → (front before : Ptr) → List Ptr → Type 0
Chain m front before [] = (front ≡ null) × (m.passive_set_tail ≡ before)
Chain m front before (x ∷ xs) =
    (front ≡ x) × (x ≢ null) × (m.prev x ≡ before) × Chain m (m.next x) x xs

-- A write to nodes outside the list leaves it.
pub Chain-frame :
    (m m' : MalthusianMutex) (p q front before : Ptr) (xs : List Ptr)
    → m'.passive_set_tail ≡ m.passive_set_tail
    → ((x : Ptr) → x ≢ p → x ≢ q → (m'.next x ≡ m.next x) × (m'.prev x ≡ m.prev x))
    → Fresh p xs
    → Fresh q xs
    → Chain m front before xs
    → Chain m' front before xs
Chain-frame m m' p q front before [] tails same fp fq c = (c.0, tails ∙ c.1)
Chain-frame m m' p q front before (x ∷ xs) tails same fp fq c =
    let (n, b) = same x fp.0 fq.0 in
    (c.0, c.1, b ∙ c.2, rw n (Chain-frame m m' p q (m.next x) x xs tails same fp.1 fq.1 c.3))

-- A chain that is not empty has a last node.
pub Chain-tail :
    (m : MalthusianMutex) (front before : Ptr) (xs : List Ptr)
    → before ≢ null
    → Chain m front before xs
    → m.passive_set_tail ≢ null
Chain-tail m front before [] ne c = λ e. ne (sym c.1 ∙ e)
Chain-tail m front before (x ∷ xs) ne c = Chain-tail m (m.next x) x xs c.1 c.3

-- The last node of a chain, `before` where it is empty.
abbrev pub last : Ptr → List Ptr → Ptr
last before [] = before
last before (x ∷ xs) = last x xs

pub Chain-last :
    (m : MalthusianMutex) (front before x : Ptr) (xs : List Ptr)
    → Chain m front before (xs ++ x ∷ [])
    → (m.passive_set_tail ≡ x) × (x ≢ null) × (m.prev x ≡ last before xs)
Chain-last m front before x [] c = (c.3.1, c.1, c.2)
Chain-last m front before x (y ∷ ys) c = Chain-last m (m.next y) y x ys c.3

pub last-real :
    (m : MalthusianMutex) (front before x : Ptr) (xs : List Ptr)
    → before ≢ null
    → Chain m front before (xs ++ x ∷ [])
    → last before xs ≢ null
last-real m front before x [] ne c = ne
last-real m front before x (y ∷ ys) ne c = last-real m (m.next y) y x ys c.1 c.3

pub Fresh-last : (p before : Ptr) (xs : List Ptr) → before ≢ p → Fresh p xs → last before xs ≢ p
Fresh-last p before [] ne f = ne
Fresh-last p before (x ∷ xs) ne f = Fresh-last p x xs f.0 f.1

pub Fresh-snoc : (p : Ptr) (xs : List Ptr) (x : Ptr) → Fresh p (xs ++ x ∷ []) → Fresh p xs × (x ≢ p)
Fresh-snoc p [] x f = (tt, f.0)
Fresh-snoc p (y ∷ ys) x f = let (rest, apart) = Fresh-snoc p ys x f.1 in ((f.0, rest), apart)

-- Without its last node: `m'` differs at that node, and in the link of the one before it.
pub Chain-init :
    (m m' : MalthusianMutex) (x front before : Ptr) (y : Ptr) (ys : List Ptr)
    → m'.passive_set_tail ≡ last before (y ∷ ys)
    → m'.next (last before (y ∷ ys)) ≡ null
    → ((z : Ptr) → z ≢ x → z ≢ last before (y ∷ ys) → m'.next z ≡ m.next z)
    → ((z : Ptr) → z ≢ x → m'.prev z ≡ m.prev z)
    → Distinct ((y ∷ ys) ++ x ∷ [])
    → Chain m front before ((y ∷ ys) ++ x ∷ [])
    → Chain m' front before (y ∷ ys)
Chain-init m m' x front before y [] tails ends nexts prevs d c =
    (c.0, c.1, prevs y (λ e. d.0.0 (sym e)) ∙ c.2, (ends, tails))
Chain-init m m' x front before y (z ∷ zs) tails ends nexts prevs d c =
    let (fresh, apart) = Fresh-snoc y (z ∷ zs) x d.0 in
    let below = nexts y (λ e. apart (sym e)) (λ e. Fresh-last y z zs fresh.0 fresh.1 (sym e)) in
    (
      c.0,
      c.1,
      prevs y (λ e. apart (sym e)) ∙ c.2,
      rw below (Chain-init m m' x (m.next y) y z zs tails ends nexts prevs d.1 c.3),
    )

pub Distinct-snoc : (xs : List Ptr) (x : Ptr) → Distinct (xs ++ x ∷ []) → Distinct xs
Distinct-snoc [] x d = tt
Distinct-snoc (y ∷ ys) x d = ((Fresh-snoc y ys x d.0).0, Distinct-snoc ys x d.1)
