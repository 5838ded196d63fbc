-- ===== src/Listeners/Forward.antt =====
-- The links of the audio listeners lead forward, so a walk over them ends.
use gumble.Prelude.{
  ℕ, zero, suc, ◌+◌, ◌≤◌, ◌<◌, ◌≡◌, refl, Option, none, some, List, [], ◌∷◌, inl, inr, ◌==◌,
  Bool-cases, arith,
}
use gumble.Map.{Heap, store}
use gumble.Listeners.{
  EventItem, Listeners, no_listeners, set_next, set_prev, if_nil, detach, audio_attach,
}

-- The links lead from `o` along these items to nil, and each item is at `low` or later, later than the
-- one before it, and before `top`.
abbrev pub Runs : Heap EventItem → ℕ → ℕ → Option ℕ → List ℕ → Type 0
Runs h low top none [] = Unit {0}
Runs h low top (some i) (j ∷ is) =
    (j ≡ i) × (low ≤ i) × (i < top) × Runs h (suc i) top (h i).next is
Runs h low top _ _ = ⊥

-- A link to the next item leads to one that was made later, and one back to one that was made earlier.
-- Items from `top` on are free.
record IsOrdered (top : ℕ) (h : Heap EventItem) : Type 0 where
  later : (i j : ℕ) → (h i).next ≡ some j → i < j
  made : (i j : ℕ) → (h i).next ≡ some j → j < top
  earlier : (i j : ℕ) → (h i).prev ≡ some j → j < i

module _ {top : ℕ} {h : Heap EventItem} (f : IsOrdered top h) where
  set_next-IsOrdered :
      (o n : Option ℕ)
      → ((p j : ℕ) → o ≡ some p → n ≡ some j → (p < j) × (j < top))
      → IsOrdered top (set_next o n h)
  set_next-IsOrdered none n k = record { later = f.later; made = f.made; earlier = f.earlier }
  set_next-IsOrdered (some p) n k = record {
    later = λ i j e. elim (Bool-cases (i == p)) [
      | inl q ↦
          let here : i ≡ p = ground (arith, q) in omega (arith, here, (k p j refl (rw q at e)).0)
      | inr q ↦ f.later i j (rw q at e)
    ];
    made = λ i j e. elim (Bool-cases (i == p)) [
      | inl q ↦ (k p j refl (rw q at e)).1
      | inr q ↦ f.made i j (rw q at e)
    ];
    earlier = λ i j e. elim (Bool-cases (i == p)) [
      | inl q ↦
          let here : i ≡ p = ground (arith, q) in
          let old : (h p).prev ≡ some j = rw q at e in omega (arith, here, f.earlier p j old)
      | inr q ↦ f.earlier i j (rw q at e)
    ];
  }

  set_prev-IsOrdered :
      (o n : Option ℕ)
      → ((p j : ℕ) → o ≡ some p → n ≡ some j → j < p)
      → IsOrdered top (set_prev o n h)
  set_prev-IsOrdered none n k = record { later = f.later; made = f.made; earlier = f.earlier }
  set_prev-IsOrdered (some p) n k = record {
    later = λ i j e. elim (Bool-cases (i == p)) [
      | inl q ↦
          let here : i ≡ p = ground (arith, q) in
          let old : (h p).next ≡ some j = rw q at e in omega (arith, here, f.later p j old)
      | inr q ↦ f.later i j (rw q at e)
    ];
    made = λ i j e. elim (Bool-cases (i == p)) [
      | inl q ↦ f.made p j (rw q at e)
      | inr q ↦ f.made i j (rw q at e)
    ];
    earlier = λ i j e. elim (Bool-cases (i == p)) [
      | inl q ↦ let here : i ≡ p = ground (arith, q) in omega (arith, here, k p j refl (rw q at e))
      | inr q ↦ f.earlier i j (rw q at e)
    ];
  }

  fresh-IsOrdered :
      (o : Option ℕ) (x : ℕ)
      → ((j : ℕ) → o ≡ some j → j < top)
      → IsOrdered (suc top) (store h top (record { prev = o; next = none; listener = x }))
  fresh-IsOrdered o x k = record {
    later = λ i j e. elim (Bool-cases (i == top)) [
      | inl q ↦ let no : none ≡ some j = rw q at e in cc
      | inr q ↦ f.later i j (rw q at e)
    ];
    made = λ i j e. elim (Bool-cases (i == top)) [
      | inl q ↦ let no : none ≡ some j = rw q at e in cc
      | inr q ↦ let old = f.made i j (rw q at e) in omega arith
    ];
    earlier = λ i j e. elim (Bool-cases (i == top)) [
      | inl q ↦ let here : i ≡ top = ground (arith, q) in omega (arith, here, k j (rw q at e))
      | inr q ↦ f.earlier i j (rw q at e)
    ];
  }

-- Such a list, with its ends.
pub record IsForward (l : Listeners) : Type 0 where
  ordered : IsOrdered l.next_item l.item_at
  head_made : (i : ℕ) → l.head ≡ some i → i < l.next_item
  tail_made : (i : ℕ) → l.tail ≡ some i → i < l.next_item

pub no_listeners-IsForward : IsForward no_listeners
no_listeners-IsForward = record {
  ordered = record {
    later = λ i j e. absurd cc;
    made = λ i j e. absurd cc;
    earlier = λ i j e. absurd cc;
  };
  head_made = λ i e. absurd cc;
  tail_made = λ i e. absurd cc;
}

-- The end of a list after a change.
if_nil-made :
    (o a b : Option ℕ) (top : ℕ)
    → ((i : ℕ) → a ≡ some i → i < top)
    → ((i : ℕ) → b ≡ some i → i < top)
    → (i : ℕ) → if_nil o a b ≡ some i
    → i < top
if_nil-made none a b top h k i e = h i e
if_nil-made (some p) a b top h k i e = k i e

-- Attach keeps the links of the audio listeners forward.
pub audio_attach-IsForward : (x : ℕ) (l : Listeners) → IsForward l → IsForward (audio_attach x l)
unfolding audio_attach
audio_attach-IsForward x l f =
    let new : (i : ℕ) → some l.next_item ≡ some i → i < suc l.next_item =
      λ i e. let same : l.next_item ≡ i = cc in omega (arith, same) in
    record {
      ordered =
          set_next-IsOrdered (fresh-IsOrdered f.ordered l.tail x f.tail_made) l.tail
            (some l.next_item)
            (λ p j e g.
              let same : l.next_item ≡ j = cc in
              (omega (arith, f.tail_made p e, same), omega (arith, same)));
      head_made = if_nil-made l.head _ _ _ new (λ i e. omega (arith, f.head_made i e));
      tail_made = if_nil-made l.tail _ _ _ new (λ i e. omega (arith, f.tail_made i e));
    }

-- Detach of an item that was made does, too.
pub detach-IsForward :
    (i : ℕ) (l : Listeners) → i < l.next_item → IsForward l → IsForward (detach i l)
unfolding detach
detach-IsForward i l small f =
    let o = f.ordered in
    record {
      ordered =
          set_prev-IsOrdered
            (set_next-IsOrdered o (l.item_at i).prev (l.item_at i).next
              (λ p j e g. (omega (arith, o.earlier i p e, o.later i j g), o.made i j g)))
            (l.item_at i).next (l.item_at i).prev
            (λ p j e g. omega (arith, o.earlier i j g, o.later i p e));
      head_made = if_nil-made (l.item_at i).prev _ _ _ (λ j e. o.made i j e) f.head_made;
      tail_made =
          if_nil-made (l.item_at i).next _ _ _ (λ j e. omega (arith, o.earlier i j e, small))
            f.tail_made;
    }

-- The lists that Attach and Detach make of an empty one.
pub data Built : Listeners → Type 0 where
  empty : Built no_listeners
  attached : {l : Listeners} → Built l → (x : ℕ) → Built (audio_attach x l)
  detached : {l : Listeners} → Built l → (i : ℕ) → i < l.next_item → Built (detach i l)

Built-IsForward : {l : Listeners} → Built l → IsForward l
Built-IsForward empty = no_listeners-IsForward
Built-IsForward (attached b x) = audio_attach-IsForward x _ (Built-IsForward b)
Built-IsForward (detached b i h) = detach-IsForward i _ h (Built-IsForward b)

Runs-from :
    (rounds low top : ℕ) (h : Heap EventItem) (o : Option ℕ)
    → IsOrdered top h
    → ((i : ℕ) → o ≡ some i → (low ≤ i) × (i < top))
    → top ≤ low + rounds
    → (is : List ℕ) × Runs h low top o is
Runs-from rounds low top h none f k e = ([], tt)
Runs-from zero low top h (some i) f k e = let (a, b) = k i refl in absurd (omega arith)
Runs-from (suc rounds) low top h (some i) f k e =
    let (a, b) = k i refl in
    let (is, r) =
      Runs-from rounds (suc i) top h (h i).next f (λ j q. (f.later i j q, f.made i j q))
        (omega arith) in
    (i ∷ is, (refl, a, b, r))

-- Whatever listeners were attached and whatever items detached, in any order and the same item more than
-- once: the links of the audio listeners lead from the head to nil, over items each of which was made
-- after the one before it. So the loop of handleUDPTunnel ends.
pub Built-Runs : {l : Listeners} → Built l → (is : List ℕ) × Runs l.item_at 0 l.next_item l.head is
Built-Runs {l} b =
    let f = Built-IsForward b in
    Runs-from l.next_item 0 l.next_item l.item_at l.head f.ordered
      (λ i e. (omega arith, f.head_made i e)) (omega arith)
