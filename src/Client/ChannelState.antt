-- ===== src/Client/ChannelState.antt =====
-- handleChannelState of gumble/handlers.go.
pub mod Graph
use gumble.Prelude.{
  ℕ, Bool, true, false, not, Option, none, some, List, [], ◌∷◌, ◌==◌, if◌then◌else◌, bit_or,
}
use gumble.Prelude.Int.{ℤ, pos, negsuc}
use gumble.Map
use gumble.Map.{Map}
use gumble.Client.{
  Channel, World, Client, Text, Bytes, Event, channel_change, ChannelChangeEvent, text_eq,
}
use gumble.Client.Monad.{
  M, ◌>>=◌, ◌>>◌, pure, lock, unlock, world, set_world, emit_if_synced, unmarshalled, required,
}
use gumble.Client.Graph.{set_channel, create_channel, move_channel}
use gumble.Client.ChannelChange

-- The fields of MumbleProto.ChannelState that the handler reads; an optional field that is not set is
-- `none`, and a repeated one is empty.
pub record ChannelState : Type 0 where
  pub channel_id : Option ℕ
  pub parent : Option ℕ
  pub name : Option Text
  pub links : List ℕ
  pub links_add : List ℕ
  pub links_remove : List ℕ
  pub description : Option Text
  pub temporary : Option Bool
  pub position : Option ℤ
  pub description_hash : Option Bytes
  pub max_users : Option ℕ

-- A channel with the event type that has been gathered.
abbrev pub Changed : Type 0
Changed = World × ℕ

abbrev pub int_eq : ℤ → ℤ → Bool
int_eq (pos a) (pos b) = a == b
int_eq (negsuc a) (negsuc b) = a == b
int_eq _ _ = false

abbrev pub ref_eq : Option ℕ → Option ℕ → Bool
ref_eq none none = true
ref_eq (some a) (some b) = a == b
ref_eq _ _ = false

abbrev pub is_empty {ℓ} : {A : Type ℓ} → List A → Bool
is_empty [] = true
is_empty _ = false

-- `event.Type |= f` if the test holds.
abbrev pub flag : Bool → ℕ → ℕ → ℕ
flag true f t = bit_or t f
flag false f t = t

-- The channel of the packet, created if it is not known.
unfoldable pub find_or_create : ℕ → World → ℕ × World × ℕ
unfolding create_channel
find_or_create id w = elim (Map.get w.channels id) [
  | some c ↦ (c, w, 0)
  | none ↦
      let made = create_channel id w in
      let x = made.channel_at w.next_channel in
      (
        w.next_channel,
        set_channel made w.next_channel (record x { has_client = true }),
        bit_or 0 ChannelChange.created,
      )
]

-- `if packet.Parent != nil { … }`
unfoldable pub update_parent : ℕ → ℕ → Option ℕ → Changed → Changed
unfolding move_channel
update_parent id c none s = s
update_parent id c (some p) (w, t) =
    let parent = Map.get w.channels p in
    (
      move_channel id c parent w,
      flag (not (ref_eq parent (w.channel_at c).parent)) ChannelChange.moved t,
    )

unfoldable pub update_name : ℕ → Option Text → Changed → Changed
update_name c none s = s
update_name c (some n) (w, t) =
    let x = w.channel_at c in
    (set_channel w c (record x { name = n }), flag (not (text_eq n x.name)) ChannelChange.name t)

-- The entries of `ids` that are known channels.
unfoldable pub known_links : World → List ℕ → Map ℕ → Map ℕ
known_links w [] m = m
known_links w (i ∷ ids) m =
    known_links w ids (elim (Map.get w.channels i) [ some c ↦ Map.put m i c | none ↦ m ])

-- `if packet.Links != nil { channel.Links = make(Channels); … }`
unfoldable pub update_links : ℕ → List ℕ → Changed → Changed
unfolding known_links
update_links c [] s = s
update_links c (i ∷ ids) (w, t) =
    let x = w.channel_at c in
    (
      set_channel w c (record x { links = known_links w (i ∷ ids) [] }),
      bit_or t ChannelChange.links,
    )

-- `channel.Links[id] = c`, as a step on the heap.
abbrev pub add_link : ℕ → ℕ → ℕ → World → World
add_link c id target w =
    let x = w.channel_at c in set_channel w c (record x { links = Map.put x.links id target })

abbrev pub drop_link : ℕ → ℕ → World → World
drop_link c id w =
    let x = w.channel_at c in set_channel w c (record x { links = Map.delete x.links id })

-- `for _, channelID := range packet.LinksAdd { … }`
unfoldable pub link_one : ℕ → ℕ → Changed → Changed
link_one c i (w, t) = elim (Map.get w.channels i) [
  | some l ↦
      let there = add_link c i l w in
      (add_link l (there.channel_at c).id c there, bit_or t ChannelChange.links)
  | none ↦ (w, t)
]

unfoldable pub add_links : ℕ → List ℕ → Changed → Changed
unfolding link_one
add_links c [] s = s
add_links c (i ∷ ids) s = add_links c ids (link_one c i s)

unfoldable pub unlink_one : ℕ → ℕ → Changed → Changed
unlink_one c i (w, t) = elim (Map.get w.channels i) [
  | some l ↦
      let there = drop_link c i w in
      (drop_link l (there.channel_at c).id there, bit_or t ChannelChange.links)
  | none ↦ (w, t)
]

unfoldable pub remove_links : ℕ → List ℕ → Changed → Changed
unfolding unlink_one
remove_links c [] s = s
remove_links c (i ∷ ids) s = remove_links c ids (unlink_one c i s)

unfoldable pub update_description : ℕ → Option Text → Changed → Changed
update_description c none s = s
update_description c (some d) (w, t) =
    let x = w.channel_at c in
    (
      set_channel w c (record x { description = d; description_hash = none }),
      flag (not (text_eq d x.description)) ChannelChange.description t,
    )

unfoldable pub update_temporary : ℕ → Option Bool → Changed → Changed
update_temporary c none s = s
update_temporary c (some b) (w, t) =
    let x = w.channel_at c in (set_channel w c (record x { temporary = b }), t)

unfoldable pub update_position : ℕ → Option ℤ → Changed → Changed
update_position c none s = s
update_position c (some p) (w, t) =
    let x = w.channel_at c in
    (
      set_channel w c (record x { position = p }),
      flag (not (int_eq p x.position)) ChannelChange.position t,
    )

unfoldable pub update_description_hash : ℕ → Option Bytes → Changed → Changed
update_description_hash c none s = s
update_description_hash c (some h) (w, t) =
    let x = w.channel_at c in
    (
      set_channel w c (record x { description_hash = some h; description = [] }),
      bit_or t ChannelChange.description,
    )

unfoldable pub update_max_users : ℕ → Option ℕ → Changed → Changed
update_max_users c none s = s
update_max_users c (some n) (w, t) =
    let x = w.channel_at c in
    (set_channel w c (record x { max_users = n }), bit_or t ChannelChange.max_users)

-- The body between the parent and the unlock, in the order of the code.
unfoldable pub update_attributes : ℕ → ChannelState → Changed → Changed
update_attributes c p s = update_max_users c p.max_users (
    update_description_hash c p.description_hash (
      update_position c p.position (
        update_temporary c p.temporary (
          update_description c p.description (
            remove_links c p.links_remove
              (add_links c p.links_add (update_links c p.links (update_name c p.name s))))))))

-- The event's channel and type, with the world after the packet.
unfoldable pub apply_channel_state : ℕ → ChannelState → World → ℕ × World × ℕ
unfolding find_or_create
apply_channel_state id p w =
    let (c, found, t) = find_or_create id w in
    let (w', t') = update_attributes c p (update_parent id c p.parent (found, t)) in (c, w', t')

unfoldable pub handle_channel_state : (Bytes → Option ChannelState) → Bytes → M (Unit {0})
handle_channel_state unmarshal buffer = do
  packet ← unmarshalled unmarshal buffer
  id ← required packet.channel_id
  lock
  w ← world
  let (c, w', t) = apply_channel_state id packet w
  set_world w'
  unlock
  emit_if_synced (channel_change (record { type = t; channel = some c }))
