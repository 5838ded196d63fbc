-- ===== src/Listeners/Dispatch.antt =====
-- An event reaches every listener of the list, also where listeners detach themselves on the way.
use gumble.Prelude.{
  ℕ, zero, suc, ◌+◌, ◌<◌, ◌≡◌, ◌≢◌, ◌∙◌, refl, sym, ap, false, true, Option, none, some, List, [],
  ◌∷◌, ◌++◌, ◌⊎◌, inl, inr, length, arith, append_assoc, append-nil,
}
use gumble.Map.{Heap}
use gumble.Listeners.{
  EventItem, Listeners, Session, set_next, set_prev, detach, walk, on_event, ◌>>=◌, unlock,
}
use gumble.Listeners.Links.{first, last, Absent, Linked-append, Distinct-append, last-Apart}
use gumble.Listeners.Refinement.{
  IsListOf, listeners_at, detach-IsListOf, listeners_at-same, detach-listener,
}

-- The item that has just been detached still leads to its successor.
detach-next :
    {l : Listeners} (xs ys : List ℕ) (i : ℕ)
    → IsListOf l (xs ++ (i ∷ ys))
    → ((detach i l).item_at i).next ≡ first none ys
unfolding detach
detach-next {l} xs ys i v =
    let (left, right) = Linked-append l.item_at none xs (i ∷ ys) none v.linked in
    let (dx, dy, apart) = Distinct-append xs (i ∷ ys) v.distinct in
    rw (right.0, right.1)
      (prev_away _ _ (first none ys) (first_away ys dy.0)
        ∙ next_away _ (last none xs) (λ e. (last-Apart xs (i ∷ ys) i apart e).0 refl)
        ∙ right.1)
  where
    first_away : (zs : List ℕ) → Absent i zs → first none zs ≢ some i
    first_away [] a e = cc
    first_away (z ∷ zs) a e = a.0 (cc)

    next_away : (o q : Option ℕ) → q ≢ some i → (set_next q o l.item_at i).next ≡ (l.item_at i).next
    next_away o none ne = refl
    next_away o (some r) ne = ground arith

    prev_away :
        (h : Heap EventItem) (o q : Option ℕ) → q ≢ some i → (set_prev q o h i).next ≡ (h i).next
    prev_away h o none ne = refl
    prev_away h o (some r) ne = ground arith

-- Where the loop leads, for the items that are still to come.
record Visits (fuel : ℕ) (f : ℕ → Listeners → Listeners) (s : Session) (is : List ℕ) : Type 0 where
  after : Session
  kept : List ℕ
  returns : walk fuel f (first none is) s ≡ some after
  locked : after.locked ≡ true
  called : after.called ≡ s.called ++ listeners_at s.list.item_at is
  list : IsListOf after.list kept

-- What a listener may do to the list while it is called: nothing, or detach itself.
abbrev pub DetachesItself : (ℕ → Listeners → Listeners) → Type 0
DetachesItself f = (i : ℕ) (l : Listeners) → (f i l ≡ l) ⊎ (f i l ≡ detach i l)

abbrev inside : Listeners → List ℕ → Session
inside l called = record { list = l; locked = true; called = called }

-- One round: what the listener at `i` leaves behind, and the rest of the loop from there.
visit :
    (fuel : ℕ) (f : ℕ → Listeners → Listeners) (l l' : Listeners) (called is : List ℕ) (i : ℕ)
    → f i l ≡ l'
    → (l'.item_at i).next ≡ first none is
    → ((j : ℕ) → (l'.item_at j).listener ≡ (l.item_at j).listener)
    → Visits fuel f (inside l' (called ++ ((l.item_at i).listener ∷ []))) is
    → Visits (suc fuel) f (inside l called) (i ∷ is)
unfolding walk listeners_at
visit fuel f l l' called is i e next same v = record {
  after = v.after;
  kept = v.kept;
  returns = rw (e, next) v.returns;
  locked = v.locked;
  called =
      v.called
      ∙ ap (λ a. (called ++ ((l.item_at i).listener ∷ [])) ++ a)
          (listeners_at-same l.item_at l'.item_at is same)
      ∙ append_assoc called ((l.item_at i).listener ∷ []) (listeners_at l.item_at is);
  list = v.list;
}

walk-Visits :
    (fuel : ℕ) (f : ℕ → Listeners → Listeners)
    → DetachesItself f
    → (l : Listeners) (called xs is : List ℕ) → length is < fuel
    → IsListOf l (xs ++ is)
    → Visits fuel f (inside l called) is
unfolding walk listeners_at
walk-Visits zero f p l called xs is h v = absurd (omega (arith, h))
walk-Visits (suc fuel) f p l called xs [] h v = record {
  after = inside l called;
  kept = xs ++ [];
  returns = refl;
  locked = refl;
  called = sym (append-nil called);
  list = v;
}
walk-Visits (suc fuel) f p l called xs (i ∷ is) h v =
    let said : List ℕ = called ++ ((l.item_at i).listener ∷ []) in
    elim (p i l) [
      | inl e ↦
          visit fuel f l l called is i e
            (Linked-append l.item_at none xs (i ∷ is) none v.linked).1.1 (λ j. refl)
            (walk-Visits fuel f p l said (xs ++ (i ∷ [])) is (omega (arith, h))
              (rw (append_assoc xs (i ∷ []) is) v))
      | inr e ↦
          visit fuel f l (detach i l) called is i e (detach-next xs is i v) (detach-listener i l) (
            walk-Visits fuel f p (detach i l) said xs is (omega (arith, h))
              (detach-IsListOf xs is i v))
    ]

released :
    (d : Session)
    → d.locked ≡ true
    → unlock d ≡ some (record { list = d.list; locked = false; called = d.called })
released d e = rw e

-- While `volatile` is free, an event whose listeners do nothing to the list but detach themselves
-- reaches every listener once and in order; the method comes back with `volatile` free and a list in
-- good order. Fuel of two more than the number of items is enough.
pub on_event-IsListOf :
    (f : ℕ → Listeners → Listeners) (l : Listeners) (called is : List ℕ)
    → DetachesItself f
    → IsListOf l is
    → (d : Session) × (on_event
          (length is + 2)
          f
          (record { list = l; locked = false; called = called })
        ≡ some d)
      × (d.locked ≡ false)
      × (d.called ≡ called ++ listeners_at l.item_at is)
      × (kept : List ℕ) × IsListOf d.list kept
unfolding on_event
on_event-IsListOf f l called is p v =
    let w = walk-Visits (length is + 2) f p l called [] is (omega arith) v in
    (
      record { list = w.after.list; locked = false; called = w.after.called },
      ap (λ o. walk (length is + 2) f o (inside l called) >>= unlock) v.head
          ∙ ap (λ r. r >>= unlock) w.returns
          ∙ released w.after w.locked,
      refl,
      w.called,
      w.kept,
      w.list,
    )
