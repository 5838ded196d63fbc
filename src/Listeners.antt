-- ===== src/Listeners.antt =====
-- gumble/listeners.go and gumble/audiolisteners.go: the doubly linked lists of listeners. Items lie in
-- a heap and a pointer is a number; references from `next_item` on are free. A listener is a number.
pub mod Links
pub mod Refinement
pub mod Dispatch
pub mod Audio
pub mod Forward
mod Tests
use gumble.Prelude.{
  ℕ, zero, suc, Bool, true, false, Option, none, some, List, [], ◌∷◌, ◌++◌, ◌==◌, if◌then◌else◌,
}
use gumble.Map.{Heap, store}

pub record EventItem : Type 0 where
  pub prev : Option ℕ
  pub next : Option ℕ
  pub listener : ℕ

pub record Listeners : Type 0 where
  pub head : Option ℕ
  pub tail : Option ℕ
  pub item_at : Heap EventItem
  pub next_item : ℕ

-- `p.next = o` and `p.prev = o`, where p may be nil and then nothing is done.
abbrev pub set_next : Option ℕ → Option ℕ → Heap EventItem → Heap EventItem
set_next none o h = h
set_next (some p) o h = store h p (record (h p) { next = o })

abbrev pub set_prev : Option ℕ → Option ℕ → Heap EventItem → Heap EventItem
set_prev none o h = h
set_prev (some p) o h = store h p (record (h p) { prev = o })

-- `if p == nil { a } else { b }`
abbrev pub if_nil {ℓ} : {A : Type ℓ} → Option ℕ → A → A → A
if_nil none a b = a
if_nil (some p) a b = b

-- An empty list.
abbrev pub no_listeners : Listeners
no_listeners = record {
  head = none;
  tail = none;
  item_at = λ _. record { prev = none; next = none; listener = 0 };
  next_item = 0;
}

-- (*eventItem).Detach.
unfoldable pub detach : ℕ → Listeners → Listeners
detach i l =
    let prev = (l.item_at i).prev in
    let next = (l.item_at i).next in
    record l {
      head = if_nil prev next l.head;
      tail = if_nil next prev l.tail;
      item_at = set_prev next prev (set_next prev next l.item_at);
    }

-- (*Listeners).Attach; the new item is the old `next_item`.
unfoldable pub attach : ℕ → Listeners → Listeners
attach x l =
    let i = l.next_item in
    record {
      head = if_nil l.head (some i) l.head;
      tail = some i;
      item_at =
          set_next l.tail (some i)
            (store l.item_at i (record { prev = l.tail; next = none; listener = x }));
      next_item = suc i;
    }

-- (*AudioListeners).Attach.
unfoldable pub audio_attach : ℕ → Listeners → Listeners
audio_attach x l =
    let i = l.next_item in
    record {
      head = if_nil l.head (some i) l.head;
      tail = if_nil l.tail (some i) l.tail;
      item_at =
          set_next l.tail (some i)
            (store l.item_at i (record { prev = l.tail; next = none; listener = x }));
      next_item = suc i;
    }

-- The list, `volatile`, and the listeners that have been called.
pub record Session : Type 0 where
  pub list : Listeners
  pub locked : Bool
  pub called : List ℕ

-- `none` is a goroutine that blocks, a panic, or a loop that has no fuel left.
infixl 5 ◌>>=◌
abbrev pub ◌>>=◌ : Option Session → (Session → Option Session) → Option Session
none >>= f = none
some s >>= f = f s

abbrev pub lock : Session → Option Session
lock s = if s.locked then none else some (record s { locked = true })

abbrev pub unlock : Session → Option Session
unlock s = if s.locked then some (record s { locked = false }) else none

-- `item.listener.OnX(event)`; `f` is what the listener at that item does to the list.
abbrev pub call : (ℕ → Listeners → Listeners) → ℕ → Session → Session
call f i s = record s { list = f i s.list; called = s.called ++ ((s.list.item_at i).listener ∷ []) }

-- The loop of the eleven methods, from the item `o` on.
unfoldable pub walk : ℕ → (ℕ → Listeners → Listeners) → Option ℕ → Session → Option Session
walk zero f o s = none
walk (suc fuel) f none s = some s
walk (suc fuel) f (some i) s =
    unlock s >>= λ a. lock (call f i a) >>= λ b. walk fuel f (b.list.item_at i).next b

-- onConnect, onDisconnect and the nine others, which differ in the method that they call.
unfoldable pub on_event : ℕ → (ℕ → Listeners → Listeners) → Session → Option Session
unfolding walk
on_event fuel f s = lock s >>= λ a. walk fuel f a.list.head a >>= unlock
