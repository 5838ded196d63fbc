-- ===== src/Listeners/Refinement.antt =====
-- A list of listeners implements a sequence: Attach adds at its end, Detach takes one out.
use gumble.Prelude.{
  ℕ, suc, ◌<◌, ◌≡◌, ◌∙◌, refl, sym, ap, Option, none, some, List, [], ◌∷◌, ◌++◌, arith, All,
}
use gumble.Map.{Heap, store}
use gumble.Listeners.{EventItem, Listeners, set_next, set_prev, if_nil, attach, detach}
use gumble.Listeners.Links.{
  first, last, Linked, Absent, Distinct, Apart, Linked-append, Linked-join, Distinct-append,
  Distinct-join, Linked-store, Linked-set_next, Linked-set_next_other, Linked-set_prev,
  Linked-set_prev_other, last-Apart, first-Apart,
}

-- The items `is`, in this order, are those of the list.
pub record IsListOf (l : Listeners) (is : List ℕ) : Type 0 where
  pub head : l.head ≡ first none is
  pub tail : l.tail ≡ last none is
  pub linked : Linked l.item_at none is none
  pub distinct : Distinct is
  pub allocated : All (λ i. i < l.next_item) is

-- The listeners of some items.
unfoldable pub listeners_at : Heap EventItem → List ℕ → List ℕ
listeners_at h [] = []
listeners_at h (i ∷ is) = (h i).listener ∷ listeners_at h is

-- The sequence that a list stands for.
pub record Represents (l : Listeners) (xs : List ℕ) : Type 0 where
  pub items : List ℕ
  pub list : IsListOf l items
  pub listeners : listeners_at l.item_at items ≡ xs

allocated-Absent : (n : ℕ) (is : List ℕ) → All (λ i. i < n) is → Absent n is
allocated-Absent n [] a = tt
allocated-Absent n (i ∷ is) a = ((λ e. absurd (omega (arith, a.0, e))), allocated-Absent n is a.1)

Absent-Apart : (n : ℕ) (is : List ℕ) → Absent n is → Apart is (n ∷ [])
Absent-Apart n [] a = tt
Absent-Apart n (i ∷ is) a = (((λ e. a.0 (sym e)), tt), Absent-Apart n is a.1)

allocated-attach :
    (n : ℕ) (is : List ℕ) → All (λ i. i < n) is → All (λ i. i < suc n) (is ++ (n ∷ []))
allocated-attach n [] a = (omega arith, tt)
allocated-attach n (i ∷ is) a = (omega (arith, a.0), allocated-attach n is a.1)

last-append : (p : Option ℕ) (is : List ℕ) (n : ℕ) → last p (is ++ (n ∷ [])) ≡ some n
last-append p [] n = refl
last-append p (i ∷ is) n = last-append (some i) is n

last-allocated :
    (n i : ℕ) (is : List ℕ) (r : ℕ)
    → i < n
    → All (λ j. j < n) is
    → last (some i) is ≡ some r
    → r < n
last-allocated n i [] r h a e = ground arith
last-allocated n i (j ∷ is) r h a e = last-allocated n j is r a.0 a.1 e

last-lt : (n : ℕ) (is : List ℕ) (r : ℕ) → All (λ j. j < n) is → last none is ≡ some r → r < n
last-lt n [] r a e = cc
last-lt n (i ∷ is) r a e = last-allocated n i is r a.0 a.1 e

head-attach :
    (is : List ℕ) (n : ℕ)
    → if_nil (first none is) (some n) (first none is) ≡ first none (is ++ (n ∷ []))
head-attach [] n = refl
head-attach (i ∷ is) n = refl

pub attach-IsListOf :
    (x : ℕ) {l : Listeners} (is : List ℕ)
    → IsListOf l is
    → IsListOf (attach x l) (is ++ (l.next_item ∷ []))
unfolding attach
attach-IsListOf x {l} is v = record {
  head = rw v.head (head-attach is l.next_item);
  tail = sym (last-append none is l.next_item);
  linked =
      Linked-join (attach x l).item_at none is (l.next_item ∷ []) none
        (Linked-set_next with_item none is none (some l.next_item) l.tail v.distinct v.tail
          (Linked-store l.item_at l.next_item item none is none fresh v.linked))
        (Linked-set_next_other with_item l.tail (some l.next_item) (last none is) (l.next_item ∷ [])
          none other (ground (arith, v.tail), ground arith, tt));
  distinct =
      Distinct-join is (l.next_item ∷ []) v.distinct (tt, tt) (Absent-Apart l.next_item is fresh);
  allocated = allocated-attach l.next_item is v.allocated;
}
  where
    item : EventItem
    item = record { prev = l.tail; next = none; listener = x }

    with_item : Heap EventItem
    with_item = store l.item_at l.next_item item

    fresh : Absent l.next_item is
    fresh = allocated-Absent l.next_item is v.allocated

    other : (r : ℕ) → l.tail ≡ some r → Absent r (l.next_item ∷ [])
    other r e =
        let h = last-lt l.next_item is r v.allocated (sym v.tail ∙ e) in
        ((λ q. absurd (omega (arith, h, q))), tt)

if_nil-last {ℓ} : {A : Type ℓ} (a b : A) (y : ℕ) (zs : List ℕ) → if_nil (last (some y) zs) a b ≡ b
if_nil-last a b y [] = refl
if_nil-last a b y (z ∷ zs) = if_nil-last a b z zs

head-detach :
    (xs ys : List ℕ) (i : ℕ)
    → if_nil (last none xs) (first none ys) (first none (xs ++ (i ∷ ys))) ≡ first none (xs ++ ys)
head-detach [] ys i = refl
head-detach (x ∷ xs) ys i = if_nil-last _ _ x xs

last_join :
    (p q : Option ℕ) (xs ys : List ℕ) (i : ℕ)
    → if_nil (first none ys) (last p xs) (last q (i ∷ ys)) ≡ last (last p xs) ys
last_join p q xs [] i = refl
last_join p q xs (y ∷ ys) i = refl

last_of-append : (p : Option ℕ) (xs ys : List ℕ) → last p (xs ++ ys) ≡ last (last p xs) ys
last_of-append p [] ys = refl
last_of-append p (x ∷ xs) ys = last_of-append (some x) xs ys

allocated-detach :
    (n i : ℕ) (xs ys : List ℕ) → All (λ j. j < n) (xs ++ (i ∷ ys)) → All (λ j. j < n) (xs ++ ys)
allocated-detach n i [] ys a = a.1
allocated-detach n i (x ∷ xs) ys a = (a.0, allocated-detach n i xs ys a.1)

Apart-tail : (xs ys : List ℕ) (i : ℕ) → Apart xs (i ∷ ys) → Apart xs ys
Apart-tail [] ys i a = tt
Apart-tail (x ∷ xs) ys i a = (a.0.1, Apart-tail xs ys i a.1)

pub detach-IsListOf :
    {l : Listeners} (xs ys : List ℕ) (i : ℕ)
    → IsListOf l (xs ++ (i ∷ ys))
    → IsListOf (detach i l) (xs ++ ys)
unfolding detach
detach-IsListOf {l} xs ys i v =
    let (left, right) = Linked-append l.item_at none xs (i ∷ ys) none v.linked in
    let (dx, dy, apart) = Distinct-append xs (i ∷ ys) v.distinct in
    let away : Apart xs ys = Apart-tail xs ys i apart in
    let cut : Heap EventItem = set_next (last none xs) (first none ys) l.item_at in
    let kept = λ (r : ℕ) (e : last none xs ≡ some r). last-Apart xs ys r away e in
    record {
      head = rw (right.0, right.1, v.head) (head-detach xs ys i);
      tail =
          rw (right.0, right.1, v.tail, last_of-append none xs (i ∷ ys))
            (last_join none (last none xs) xs ys i ∙ sym (last_of-append none xs ys));
      linked =
          rw (right.0, right.1)
            (Linked-join (set_prev (first none ys) (last none xs) cut) none xs ys none
              (Linked-set_prev_other cut (first none ys) (last none xs) none xs (first none ys)
                (λ r e. first-Apart xs ys r away e)
                (Linked-set_next l.item_at none xs (some i) (first none ys) (last none xs) dx refl
                  left))
              (Linked-set_prev cut (some i) (last none xs) ys none dy.1 (
                Linked-set_next_other l.item_at (last none xs) (first none ys) (some i) ys none kept
                  right.2)));
      distinct = Distinct-join xs ys dx dy.1 away;
      allocated = allocated-detach l.next_item i xs ys v.allocated;
    }

-- Writing a link leaves every listener.
pub set_next-listener :
    (q o : Option ℕ) (h : Heap EventItem) (i : ℕ) → (set_next q o h i).listener ≡ (h i).listener
set_next-listener none o h i = refl
set_next-listener (some r) o h i = ground arith

pub set_prev-listener :
    (q o : Option ℕ) (h : Heap EventItem) (i : ℕ) → (set_prev q o h i).listener ≡ (h i).listener
set_prev-listener none o h i = refl
set_prev-listener (some r) o h i = ground arith

pub listeners_at-same :
    (h h' : Heap EventItem) (is : List ℕ)
    → ((i : ℕ) → (h' i).listener ≡ (h i).listener)
    → listeners_at h' is ≡ listeners_at h is
unfolding listeners_at
listeners_at-same h h' [] e = refl
listeners_at-same h h' (i ∷ is) e = rw (e i, listeners_at-same h h' is e)

pub listeners_at-append :
    (h : Heap EventItem) (is js : List ℕ)
    → listeners_at h (is ++ js) ≡ listeners_at h is ++ listeners_at h js
unfolding listeners_at
listeners_at-append h [] js = refl
listeners_at-append h (i ∷ is) js = ap (◌∷◌ (h i).listener) (listeners_at-append h is js)

listeners_at-store :
    (h : Heap EventItem) (n : ℕ) (x : EventItem) (is : List ℕ)
    → Absent n is
    → listeners_at (store h n x) is ≡ listeners_at h is
unfolding listeners_at
listeners_at-store h n x [] a = refl
listeners_at-store h n x (i ∷ is) a = ground (arith, listeners_at-store h n x is)

pub detach-listener :
    (i : ℕ) (l : Listeners) (j : ℕ) → ((detach i l).item_at j).listener ≡ (l.item_at j).listener
unfolding detach
detach-listener i l j =
    set_prev-listener (l.item_at i).next (l.item_at i).prev _ j
    ∙ set_next-listener (l.item_at i).prev (l.item_at i).next l.item_at j

-- Attach to a list that stands for the sequence xs gives one for xs with x at its end.
pub attach-Represents :
    (x : ℕ) {l : Listeners} {xs : List ℕ}
    → Represents l xs
    → Represents (attach x l) (xs ++ (x ∷ []))
unfolding attach
attach-Represents x {l} {xs} r = record {
  items = r.items ++ (l.next_item ∷ []);
  list = attach-IsListOf x r.items r.list;
  listeners =
      listeners_at-same with_item _ (r.items ++ (l.next_item ∷ []))
        (set_next-listener l.tail (some l.next_item) with_item)
      ∙ listeners_at-append with_item r.items (l.next_item ∷ [])
      ∙ ap (λ a. a ++ listeners_at with_item (l.next_item ∷ []))
          (listeners_at-store l.item_at l.next_item _ r.items
              (allocated-Absent l.next_item r.items r.list.allocated)
            ∙ r.listeners)
      ∙ unfold listeners_at in ground arith;
}
  where
    with_item : Heap EventItem
    with_item = store l.item_at l.next_item (record { prev = l.tail; next = none; listener = x })

-- Detach of an item takes its listener out of the sequence and keeps the others in their order.
pub detach-Represents :
    {l : Listeners} (xs ys : List ℕ) (i : ℕ)
    → IsListOf l (xs ++ (i ∷ ys))
    → Represents (detach i l) (listeners_at l.item_at xs ++ listeners_at l.item_at ys)
detach-Represents {l} xs ys i v = record {
  items = xs ++ ys;
  list = detach-IsListOf xs ys i v;
  listeners =
      listeners_at-same l.item_at _ (xs ++ ys) (detach-listener i l)
      ∙ listeners_at-append l.item_at xs ys;
}
