-- ===== src/Listeners/Links.antt =====
-- Segments of linked lists.
use gumble.Prelude.{ℕ, ◌≡◌, ◌≢◌, refl, Option, none, some, List, [], ◌∷◌, ◌++◌, arith}
use gumble.Map.{Heap, store}
use gumble.Listeners.{EventItem, set_next, set_prev}

-- The first and the last of a list, or what stands there for an empty one.
abbrev pub first : Option ℕ → List ℕ → Option ℕ
first e [] = e
first e (i ∷ is) = some i

abbrev pub last : Option ℕ → List ℕ → Option ℕ
last p [] = p
last p (i ∷ is) = last (some i) is

-- The items of a segment: before the first stands `p`, and behind the last `e`.
abbrev pub Linked : Heap EventItem → Option ℕ → List ℕ → Option ℕ → Type 0
Linked h p [] e = Unit {0}
Linked h p (i ∷ is) e = ((h i).prev ≡ p) × ((h i).next ≡ first e is) × Linked h (some i) is e

abbrev pub Absent : ℕ → List ℕ → Type 0
Absent i [] = Unit {0}
Absent i (j ∷ is) = (i ≢ j) × Absent i is

abbrev pub Distinct : List ℕ → Type 0
Distinct [] = Unit {0}
Distinct (i ∷ is) = Absent i is × Distinct is

abbrev pub Apart : List ℕ → List ℕ → Type 0
Apart [] ys = Unit {0}
Apart (i ∷ is) ys = Absent i ys × Apart is ys

pub Linked-append :
    (h : Heap EventItem) (p : Option ℕ) (xs ys : List ℕ) (e : Option ℕ)
    → Linked h p (xs ++ ys) e
    → Linked h p xs (first e ys) × Linked h (last p xs) ys e
Linked-append h p [] ys e l = (tt, l)
Linked-append h p (x ∷ []) ys e l = ((l.0, l.1, tt), l.2)
Linked-append h p (x ∷ y ∷ xs) ys e l =
    let (a, b) = Linked-append h (some x) (y ∷ xs) ys e l.2 in ((l.0, l.1, a), b)

pub Linked-join :
    (h : Heap EventItem) (p : Option ℕ) (xs ys : List ℕ) (e : Option ℕ)
    → Linked h p xs (first e ys)
    → Linked h (last p xs) ys e
    → Linked h p (xs ++ ys) e
Linked-join h p [] ys e a b = b
Linked-join h p (x ∷ []) ys e a b = (a.0, a.1, b)
Linked-join h p (x ∷ y ∷ xs) ys e a b = (a.0, a.1, Linked-join h (some x) (y ∷ xs) ys e a.2 b)

pub Absent-append : (i : ℕ) (xs ys : List ℕ) → Absent i (xs ++ ys) → Absent i xs × Absent i ys
Absent-append i [] ys a = (tt, a)
Absent-append i (x ∷ xs) ys a = let (b, c) = Absent-append i xs ys a.1 in ((a.0, b), c)

pub Absent-join : (i : ℕ) (xs ys : List ℕ) → Absent i xs → Absent i ys → Absent i (xs ++ ys)
Absent-join i [] ys a b = b
Absent-join i (x ∷ xs) ys a b = (a.0, Absent-join i xs ys a.1 b)

pub Distinct-append :
    (xs ys : List ℕ) → Distinct (xs ++ ys) → Distinct xs × Distinct ys × Apart xs ys
Distinct-append [] ys d = (tt, d, tt)
Distinct-append (x ∷ xs) ys d =
    let (dx, dy, ap') = Distinct-append xs ys d.1 in
    let (a, b) = Absent-append x xs ys d.0 in ((a, dx), dy, (b, ap'))

pub Distinct-join : (xs ys : List ℕ) → Distinct xs → Distinct ys → Apart xs ys → Distinct (xs ++ ys)
Distinct-join [] ys dx dy a = dy
Distinct-join (x ∷ xs) ys dx dy a = (Absent-join x xs ys dx.0 a.0, Distinct-join xs ys dx.1 dy a.1)

-- A write to another item leaves a segment alone.
pub Linked-store :
    (h : Heap EventItem) (i : ℕ) (x : EventItem) (p : Option ℕ) (is : List ℕ) (e : Option ℕ)
    → Absent i is
    → Linked h p is e
    → Linked (store h i x) p is e
Linked-store h i x p [] e a l = tt
Linked-store h i x p (j ∷ is) e a l =
    (ground arith, ground arith, Linked-store h i x (some j) is e a.1 l.2)

-- The last item of a nonempty list is none of those that are absent from it.
last-Absent : (i d : ℕ) (is : List ℕ) → i ≢ d → Absent i is → last (some d) is ≢ some i
last-Absent i d [] ne a e = ne (ground arith)
last-Absent i d (j ∷ is) ne a e = last-Absent i j is a.0 a.1 e

set_next-other : (h : Heap EventItem) (q o : Option ℕ) (i : ℕ) → q ≢ some i → set_next q o h i ≡ h i
set_next-other h none o i ne = refl
set_next-other h (some p) o i ne = ground arith

-- A new item behind the last.
pub Linked-set_next :
    (h : Heap EventItem) (p : Option ℕ) (is : List ℕ) (e o q : Option ℕ)
    → Distinct is
    → q ≡ last p is
    → Linked h p is e
    → Linked (set_next q o h) p is o
Linked-set_next h p [] e o q d eq l = tt
Linked-set_next h p (i ∷ []) e o none d eq l = cc
Linked-set_next h p (i ∷ []) e o (some r) d eq l = (ground arith, ground arith, tt)
Linked-set_next h p (i ∷ j ∷ is) e o q d eq l =
    let same = set_next-other h q o i (rw eq (λ e. last-Absent i j is d.0.0 d.0.1 e)) in
    (rw same l.0, rw same l.1, Linked-set_next h (some i) (j ∷ is) e o q d.1 eq l.2)

pub Linked-set_next_other :
    (h : Heap EventItem) (q o p : Option ℕ) (is : List ℕ) (e : Option ℕ)
    → ((r : ℕ) → q ≡ some r → Absent r is)
    → Linked h p is e
    → Linked (set_next q o h) p is e
Linked-set_next_other h none o p is e a l = l
Linked-set_next_other h (some r) o p is e a l = Linked-store h r _ p is e (a r refl) l

pub Linked-set_prev_other :
    (h : Heap EventItem) (q o p : Option ℕ) (is : List ℕ) (e : Option ℕ)
    → ((r : ℕ) → q ≡ some r → Absent r is)
    → Linked h p is e
    → Linked (set_prev q o h) p is e
Linked-set_prev_other h none o p is e a l = l
Linked-set_prev_other h (some r) o p is e a l = Linked-store h r _ p is e (a r refl) l

-- Another item before the first.
pub Linked-set_prev :
    (h : Heap EventItem) (p o : Option ℕ) (is : List ℕ) (e : Option ℕ)
    → Distinct is
    → Linked h p is e
    → Linked (set_prev (first none is) o h) o is e
Linked-set_prev h p o [] e d l = tt
Linked-set_prev h p o (i ∷ is) e d l =
    (ground arith, ground arith, Linked-store h i _ (some i) is e d.0 l.2)

pub last-Apart : (xs ys : List ℕ) (r : ℕ) → Apart xs ys → last none xs ≡ some r → Absent r ys
last-Apart [] ys r a e = cc
last-Apart (x ∷ []) ys r a e = let same : x ≡ r = cc in rw (← same) a.0
last-Apart (x ∷ y ∷ xs) ys r a e = last-Apart (y ∷ xs) ys r a.1 e

pub first-Apart : (xs ys : List ℕ) (r : ℕ) → Apart xs ys → first none ys ≡ some r → Absent r xs
first-Apart [] ys r a e = tt
first-Apart (x ∷ xs) [] r a e = cc
first-Apart (x ∷ xs) (y ∷ ys) r a e = ((λ eq. a.0.0 (cc)), first-Apart xs (y ∷ ys) r a.1 e)
