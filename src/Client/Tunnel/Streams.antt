-- ===== src/Client/Tunnel/Streams.antt =====
-- What the loop over the audio listeners does: each that is reached gets the packet once, in the order
-- of the links.
use gumble.Prelude.{
  ℕ, ◌==◌, not, zero, suc, ◌+◌, ◌≤◌, ◌≡◌, ◌∙◌, refl, ap, Bool, true, false, Option, none, some,
  List, [], ◌∷◌, ◌++◌, append_assoc, append-nil, if◌then◌else◌, Bool-cases, inl, inr, arith,
}
use gumble.Map.{Heap, store}
use gumble.Listeners.{EventItem}
use gumble.Listeners.Forward.{Runs}
use gumble.Client.{Client, Event, AudioPacket, audio_stream, audio_packet}
use gumble.Client.Monad.{
  ◌>>=◌, ◌>>◌, returned, pure, lock, modify, emit, client, unlock_held, lock_free, then_returned,
}
use gumble.Client.Tunnel.{has_stream, send_to_item, send_to_items}

-- The items that the loop meets in so many rounds.
abbrev pub met : ℕ → Heap EventItem → Option ℕ → List ℕ
met rounds h none = []
met zero h (some i) = []
met (suc rounds) h (some i) = i ∷ met rounds h (h i).next

pub met-Runs :
    (rounds low top : ℕ) (h : Heap EventItem) (o : Option ℕ) (is : List ℕ)
    → Runs h low top o is
    → top ≤ low + rounds
    → met rounds h o ≡ is
met-Runs rounds low top h none [] r e = refl
met-Runs rounds low top h none (j ∷ is) r e = absurd r
met-Runs rounds low top h (some i) [] r e = absurd r
met-Runs zero low top h (some i) (j ∷ is) r e = absurd (omega (arith, r.1, r.2, e))
met-Runs (suc rounds) low top h (some i) (j ∷ is) r e =
    rw (r.0) (ap (◌∷◌ i) (met-Runs rounds (suc i) top h (h i).next is r.3 (omega (arith, e, r.1))))

-- How often the user is in the list.
abbrev occurrences : ℕ → List ℕ → ℕ
occurrences u [] = 0
occurrences u (v ∷ vs) = if v == u then suc (occurrences u vs) else occurrences u vs

abbrev has_none : ℕ → List ℕ → Bool
has_none u vs = occurrences u vs == 0

has_stream-has_none : (u : ℕ) (vs : List ℕ) → has_stream u vs ≡ not (has_none u vs)
has_stream-has_none u [] = refl
has_stream-has_none u (v ∷ vs) = ground (arith, has_stream-has_none u vs)

-- An item without a stream of the user gets one first.
abbrev pub item_events : ℕ → AudioPacket → ℕ → List ℕ → List Event
item_events u p listener streams =
    if has_none u streams
    then audio_stream listener u ∷ audio_packet listener p ∷ []
    else audio_packet listener p ∷ []

abbrev pub with_stream : ℕ → ℕ → Heap (List ℕ) → Heap (List ℕ)
with_stream u i st = if has_none u (st i) then store st i (u ∷ st i) else st

-- The events of the items and the streams behind them.
unfoldable pub heard : ℕ → AudioPacket → Heap EventItem → Heap (List ℕ) → List ℕ → List Event
heard u p h st [] = []
heard u p h st (i ∷ is) =
    item_events u p (h i).listener (st i) ++ heard u p h (with_stream u i st) is

unfoldable pub with_streams : ℕ → Heap (List ℕ) → List ℕ → Heap (List ℕ)
with_streams u st [] = st
with_streams u st (i ∷ is) = with_streams u (with_stream u i st) is

module _ (u : ℕ) (p : AudioPacket) (c : Client) where
  abbrev at : Bool → List Event → Heap (List ℕ) → Client
  at l es st = record c { locked = l; events = es; audio_streams = st }

  send_to_item_lem :
      (l : Bool) (es : List Event) (st : Heap (List ℕ)) (i : ℕ)
      → send_to_item u p i (at l es st)
        ≡ returned tt (
            at l
              (es ++ item_events u p (c.audio_listeners.item_at i).listener (st i))
              (with_stream u i st))
  unfolding send_to_item ◌>>◌ ◌>>=◌ client modify emit
  send_to_item_lem l es st i =
      let x = (c.audio_listeners.item_at i).listener in
      let same = has_stream-has_none u (st i) in
      elim (Bool-cases (has_none u (st i))) [
        | inr e ↦ rw (same, e, send_to_item)
        | inl e ↦
            rw (same, e, send_to_item, ◌>>◌, ◌>>=◌)
              (ap (λ (es : List Event). returned tt (at l es (store st i (u ∷ st i))))
                (append_assoc es (audio_stream x u ∷ []) (audio_packet x p ∷ [])))
      ]

  pub send_to_items_lem :
      (rounds : ℕ) (es : List Event) (st : Heap (List ℕ)) (o : Option ℕ)
      → send_to_items rounds u p o (at true es st)
        ≡ returned tt (
            at true
              (es
                ++ heard u p c.audio_listeners.item_at st (met rounds c.audio_listeners.item_at o))
              (with_streams u st (met rounds c.audio_listeners.item_at o)))
  unfolding send_to_items pure heard with_streams ◌>>=◌ client
  send_to_items_lem rounds es st none = rw (append-nil es)
  send_to_items_lem zero es st (some i) = rw (append-nil es)
  send_to_items_lem (suc rounds) es st (some i) =
      let item = c.audio_listeners.item_at i in
      let rest =
        client >>= λ (d : Client). send_to_items rounds u p (d.audio_listeners.item_at i).next in
      let one = send_to_item u p i in
      let es' = es ++ item_events u p item.listener (st i) in
      let st' = with_stream u i st in
      unlock_held (one >> (lock >> rest)) (at true es st) refl
      ∙ then_returned one (lock >> rest) (at false es st) (send_to_item_lem false es st i)
      ∙ lock_free rest (at false es' st') refl
      ∙ send_to_items_lem rounds es' st' item.next
      ∙ rw
          (append_assoc es (item_events u p item.listener (st i)) (
            heard u p c.audio_listeners.item_at st'
              (met rounds c.audio_listeners.item_at item.next)))
          refl
