-- ===== src/Listeners/Audio.antt =====
-- The list of audio listeners: Attach leaves the tail where it is.
use gumble.Prelude.{ℕ, zero, suc, ◌<◌, ◌≡◌, refl, Option, none, some, List, [], ◌∷◌, arith}
use gumble.Map.{Heap}
use gumble.Listeners.{EventItem, Listeners, audio_attach}

-- The listeners that the loop `for item := head; item != nil; item = item.next` meets in so many rounds.
unfoldable pub heard : ℕ → Heap EventItem → Option ℕ → List ℕ
heard zero h o = []
heard (suc fuel) h none = []
heard (suc fuel) h (some i) = (h i).listener ∷ heard fuel h (h i).next

-- Attach, for one listener after the other.
unfoldable pub audio_attach_all : List ℕ → Listeners → Listeners
audio_attach_all [] l = l
audio_attach_all (x ∷ xs) l = audio_attach_all xs (audio_attach x l)

-- The list after its first Attach.
record Started (a x : ℕ) (l : Listeners) : Type 0 where
  head : l.head ≡ some a
  tail : l.tail ≡ some a
  listener : (l.item_at a).listener ≡ x
  allocated : a < l.next_item

attach-Started : (a x y : ℕ) (l : Listeners) → Started a x l → Started a x (audio_attach y l)
unfolding audio_attach
attach-Started a x y l v = record {
  head = rw v.head refl;
  tail = rw v.tail refl;
  listener = rw v.tail (ground (arith, v.allocated, v.listener));
  allocated = ground (arith, v.allocated);
}

attach_all-Started :
    (a x : ℕ) (ys : List ℕ) (l : Listeners) → Started a x l → Started a x (audio_attach_all ys l)
unfolding audio_attach_all
attach_all-Started a x [] l v = v
attach_all-Started a x (y ∷ ys) l v =
    attach_all-Started a x ys (audio_attach y l) (attach-Started a x y l v)

first-Started :
    (x : ℕ) (l : Listeners)
    → l.head ≡ none
    → l.tail ≡ none
    → Started l.next_item x (audio_attach x l)
unfolding audio_attach
first-Started x l h t = record {
  head = rw h refl;
  tail = rw t refl;
  listener = rw t (ground arith);
  allocated = ground arith;
}

heard-Started :
    (fuel a x y : ℕ) (l : Listeners)
    → Started a x l
    → heard (suc (suc (suc fuel))) (audio_attach y l).item_at (audio_attach y l).head ≡ x ∷ y ∷ []
unfolding heard audio_attach
heard-Started fuel a x y l v = rw (v.head, v.tail) (ground (arith, v.allocated, v.listener))

-- Of any number of audio listeners that are attached to an empty list, two at least, only the first
-- and the last are ever reached.
pub audio_attach_lem :
    (fuel x y : ℕ) (zs : List ℕ) (l : Listeners)
    → l.head ≡ none
    → l.tail ≡ none
    → heard
        (suc (suc (suc fuel)))
        (audio_attach y (audio_attach_all (x ∷ zs) l)).item_at
        (audio_attach y (audio_attach_all (x ∷ zs) l)).head
      ≡ x ∷ y ∷ []
unfolding audio_attach_all
audio_attach_lem fuel x y zs l h t =
    heard-Started fuel l.next_item x y _
      (attach_all-Started l.next_item x zs (audio_attach x l) (first-Started x l h t))
