-- ===== src/Cna/Rows.antt =====
-- Rows of nodes in a queue of cna.c, and what a write to the last one does to them.
use shfllock.Base.{◌≡◌, ◌≢◌, refl, sym, List, [], ◌∷◌, ◌++◌, arith, assign, assign_other}
use shfllock.Cna.Memory.{Ptr}

-- From `p` along the links through the nodes of the list, to `end`.
abbrev pub Row : (Ptr → Ptr) → (p : Ptr) → List Ptr → (end : Ptr) → Type 0
Row next p [] e = p ≡ e
Row next p (x ∷ xs) e = (p ≡ x) × Row next (next x) xs e

abbrev pub Fresh : Ptr → List Ptr → Type 0
Fresh p [] = Unit {0}
Fresh p (x ∷ xs) = (x ≢ p) × Fresh p xs

abbrev pub Distinct : List Ptr → Type 0
Distinct [] = Unit {0}
Distinct (x ∷ xs) = Fresh x xs × Distinct xs

abbrev pub last : Ptr → List Ptr → Ptr
last x [] = x
last x (y ∷ ys) = last y ys

pub Fresh-last : (p x : Ptr) (xs : List Ptr) → x ≢ p → Fresh p xs → last x xs ≢ p
Fresh-last p x [] ne f = ne
Fresh-last p x (y ∷ ys) ne f = Fresh-last p y ys f.0 f.1

-- A write to a node outside the row leaves it.
pub Row-assign :
    (next : Ptr → Ptr) (q v p : Ptr) (xs : List Ptr) (e : Ptr)
    → Fresh q xs
    → Row next p xs e
    → Row (assign next q v) p xs e
Row-assign next q v p [] e f r = r
Row-assign next q v p (x ∷ xs) e f r =
    let same = assign_other next q v x f.0 in
    (r.0, rw same (Row-assign next q v (next x) xs e f.1 r.1))

-- A write to the last node of a row moves its end.
pub Row-last :
    (next : Ptr → Ptr) (v p x : Ptr) (xs : List Ptr) (e : Ptr)
    → Distinct (x ∷ xs)
    → Row next p (x ∷ xs) e
    → Row (assign next (last x xs) v) p (x ∷ xs) v
Row-last next v p x [] e d r = (r.0, ground arith)
Row-last next v p x (y ∷ ys) e d r =
    let same = assign_other next (last y ys) v x (λ z. Fresh-last x y ys d.0.0 d.0.1 (sym z)) in
    (r.0, rw same (Row-last next v (next x) y ys e d.1 r.1))

-- Two rows, the second one behind the first.
pub Row-append :
    (next : Ptr → Ptr) (p q : Ptr) (xs ys : List Ptr) (e : Ptr)
    → Row next p xs q
    → Row next q ys e
    → Row next p (xs ++ ys) e
Row-append next p q [] ys e r s = rw r s
Row-append next p q (x ∷ xs) ys e r s = (r.0, Row-append next (next x) q xs ys e r.1 s)

pub last-append :
    (x : Ptr) (xs : List Ptr) (y : Ptr) (ys : List Ptr) → last x (xs ++ (y ∷ ys)) ≡ last y ys
last-append x [] y ys = refl
last-append x (z ∷ zs) y ys = last-append z zs y ys

-- The same the other way round.
pub Row-split :
    (next : Ptr → Ptr) (p : Ptr) (xs : List Ptr) (w : Ptr) (ys : List Ptr) (e : Ptr)
    → Row next p (xs ++ (w ∷ ys)) e
    → Row next p xs w × Row next (next w) ys e
Row-split next p [] w ys e r = r
Row-split next p (x ∷ xs) w ys e r =
    let rest = Row-split next (next x) xs w ys e r.1 in ((r.0, rest.0), rest.1)

pub Fresh-append : (p : Ptr) (xs ys : List Ptr) → Fresh p (xs ++ ys) → Fresh p xs × Fresh p ys
Fresh-append p [] ys f = (tt, f)
Fresh-append p (x ∷ xs) ys f = let rest = Fresh-append p xs ys f.1 in ((f.0, rest.0), rest.1)

pub Distinct-append : (xs ys : List Ptr) → Distinct (xs ++ ys) → Distinct xs × Distinct ys
Distinct-append [] ys d = (tt, d)
Distinct-append (x ∷ xs) ys d =
    let rest = Distinct-append xs ys d.1 in (((Fresh-append x xs ys d.0).0, rest.0), rest.1)

-- The last node of a row is none of those behind it,
pub last-Fresh : (x : Ptr) (xs ys : List Ptr) → Distinct (x ∷ (xs ++ ys)) → Fresh (last x xs) ys
last-Fresh x [] ys d = d.0
last-Fresh x (z ∷ zs) ys d = last-Fresh z zs ys d.1

-- and none of those before it.
pub Fresh-before :
    (xs : List Ptr) (y : Ptr) (ys zs : List Ptr)
    → Distinct (xs ++ (y ∷ (ys ++ zs)))
    → Fresh (last y ys) xs
Fresh-before [] y ys zs d = tt
Fresh-before (x ∷ xs) y ys zs d =
    let behind = (Fresh-append x xs (y ∷ (ys ++ zs)) d.0).1 in
    let here = (Fresh-append x (y ∷ ys) zs behind).0 in
    (λ e. Fresh-last x y ys here.0 here.1 (sym e), Fresh-before xs y ys zs d.1)
