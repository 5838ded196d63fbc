-- ===== src/Client/UserState.antt =====
-- handleUserState of gumble/handlers.go.
pub mod Graph
pub mod Update
use gumble.Prelude.{
  ℕ, ◌-◌, ◌^◌, Bool, true, false, not, ◌&&◌, Option, none, some, List, [], ◌==◌, if◌then◌else◌,
  bit_or, bit_and,
}
use gumble.Map
use gumble.Client.{User, World, Client, Text, Bytes, Event, user_change, text_eq}
use gumble.Client.Monad.{
  M, ◌>>=◌, ◌>>◌, pure, throw, invalid_protobuf, lock, unlock, world, set_world, emit_if_synced,
  unmarshalled, required, some_or_unlock,
}
use gumble.Client.Graph.{set_user, create_user, place_user, move_user}
use gumble.Client.ChannelState.{Changed, flag, ref_eq}
use gumble.Client.UserRemove.{find_actor}
use gumble.Client.UserChange

-- The fields of MumbleProto.UserState that the handler reads.
pub record UserState : Type 0 where
  pub session : Option ℕ
  pub actor : Option ℕ
  pub name : Option Text
  pub user_id : Option ℕ
  pub channel_id : Option ℕ
  pub mute : Option Bool
  pub deaf : Option Bool
  pub suppress : Option Bool
  pub self_mute : Option Bool
  pub self_deaf : Option Bool
  pub texture : Option Bytes
  pub comment : Option Text
  pub hash : Option Text
  pub comment_hash : Option Bytes
  pub texture_hash : Option Bytes
  pub priority_speaker : Option Bool
  pub recording : Option Bool

abbrev pub max_uint32 : ℕ
max_uint32 = 2 ^ 32 - 1

-- `t.Has(f)`
abbrev pub has : ℕ → ℕ → Bool
has t f = bit_and t f == f

abbrev pub bool_eq : Bool → Bool → Bool
bool_eq true b = b
bool_eq false b = not b

-- `Users.create`, and `user.client = c`.
unfoldable pub connect_user : ℕ → World → World
unfolding create_user
connect_user session w =
    let made = create_user session w in
    let x = made.user_at w.next_user in set_user made w.next_user (record x { has_client = true })

-- The user of the session, created in the root channel if it is not known: the user, the world, and
-- the event type, which is missing if there is no root channel.
unfoldable pub find_or_connect : ℕ → World → ℕ × World × Option ℕ
unfolding connect_user place_user
find_or_connect session w = elim (Map.get w.users session) [
  | some u ↦ (u, w, some 0)
  | none ↦
      let u = w.next_user in
      let joined = connect_user session w in
      elim (Map.get w.channels 0) [
        | some root ↦ (
          u,
          place_user u session root joined,
          some (bit_or (bit_or 0 UserChange.connected) UserChange.channel),
        )
        | none ↦ (u, joined, none)
      ]
]

-- One `if packet.F != nil { … }` block on a field of the user: its new value, and whether the event
-- type gets the bit.
abbrev pub update {ℓ} :
    {A : Type ℓ} → ℕ → (User → A → User) → (User → A → Bool) → ℕ → Option A → Changed → Changed
update u assign differs f none s = s
update u assign differs f (some a) (w, t) =
    let x = w.user_at u in (set_user w u (assign x a), flag (differs x a) f t)

abbrev pub always {ℓ} : {A : Type ℓ} → User → A → Bool
always x a = true

unfoldable pub update_name : ℕ → Option Text → Changed → Changed
update_name u =
    update u (λ x n. record x { name = n }) (λ x n. not (text_eq n x.name)) UserChange.name

-- A user id of 2^32 - 1 takes the registration away.
unfoldable pub update_user_id : ℕ → Option ℕ → Changed → Changed
update_user_id u none s = s
update_user_id u (some i) (w, t) =
    let x = w.user_at u in
    if not (i == x.user_id) && not (has t UserChange.connected)
    then (if not (i == max_uint32)
        then (set_user w u (record x { user_id = i }), bit_or t UserChange.registered)
        else (set_user w u (record x { user_id = 0 }), bit_or t UserChange.unregistered))
    else (set_user w u (record x { user_id = i }), t)

-- The move to a known channel.
unfoldable pub update_channel : ℕ → Option ℕ → Changed → Changed
unfolding move_user
update_channel u none s = s
update_channel u (some c) (w, t) =
    (move_user u c w, flag (not (ref_eq (some c) (w.user_at u).channel)) UserChange.channel t)

unfoldable pub update_mute : ℕ → Option Bool → Changed → Changed
update_mute u =
    update u (λ x b. record x { muted = b }) (λ x b. not (bool_eq b x.muted)) UserChange.audio

unfoldable pub update_deaf : ℕ → Option Bool → Changed → Changed
update_deaf u =
    update u (λ x b. record x { deafened = b }) (λ x b. not (bool_eq b x.deafened)) UserChange.audio

unfoldable pub update_suppress : ℕ → Option Bool → Changed → Changed
update_suppress u =
    update u (λ x b. record x { suppressed = b }) (λ x b. not (bool_eq b x.suppressed))
      UserChange.audio

unfoldable pub update_self_mute : ℕ → Option Bool → Changed → Changed
update_self_mute u =
    update u (λ x b. record x { self_muted = b }) (λ x b. not (bool_eq b x.self_muted))
      UserChange.audio

unfoldable pub update_self_deaf : ℕ → Option Bool → Changed → Changed
update_self_deaf u =
    update u (λ x b. record x { self_deafened = b }) (λ x b. not (bool_eq b x.self_deafened))
      UserChange.audio

unfoldable pub update_texture : ℕ → Option Bytes → Changed → Changed
update_texture u =
    update u (λ x b. record x { texture = some b; texture_hash = none }) always UserChange.texture

unfoldable pub update_comment : ℕ → Option Text → Changed → Changed
update_comment u =
    update u (λ x s. record x { comment = s; comment_hash = none })
      (λ x s. not (text_eq s x.comment)) UserChange.comment

unfoldable pub update_hash : ℕ → Option Text → Changed → Changed
update_hash u = update u (λ x s. record x { hash = s }) (λ x s. false) 0

unfoldable pub update_comment_hash : ℕ → Option Bytes → Changed → Changed
update_comment_hash u =
    update u (λ x b. record x { comment_hash = some b; comment = [] }) always UserChange.comment

unfoldable pub update_texture_hash : ℕ → Option Bytes → Changed → Changed
update_texture_hash u =
    update u (λ x b. record x { texture_hash = some b; texture = none }) always UserChange.texture

unfoldable pub update_priority_speaker : ℕ → Option Bool → Changed → Changed
update_priority_speaker u =
    update u (λ x b. record x { priority_speaker = b }) (λ x b. not (bool_eq b x.priority_speaker))
      UserChange.priority_speaker

unfoldable pub update_recording : ℕ → Option Bool → Changed → Changed
update_recording u =
    update u (λ x b. record x { recording = b }) (λ x b. not (bool_eq b x.recording))
      UserChange.recording

-- The blocks before the move and those behind it, in the order of the code.
unfoldable pub update_identity : ℕ → UserState → Changed → Changed
update_identity u p s = update_user_id u p.user_id (update_name u p.name s)

unfoldable pub update_status : ℕ → UserState → Changed → Changed
update_status u p s = update_recording u p.recording (
    update_priority_speaker u p.priority_speaker (
      update_texture_hash u p.texture_hash (
        update_comment_hash u p.comment_hash (
          update_hash u p.hash (
            update_comment u p.comment (
              update_texture u p.texture (
                update_self_deaf u p.self_deaf (
                  update_self_mute u p.self_mute (
                    update_suppress u p.suppress
                      (update_deaf u p.deaf (update_mute u p.mute s)))))))))))

-- `c.Channels[*packet.ChannelId]`. Where the channel is not known the code calls `Lock` a second time
-- before it returns its error; the entry that it has just deleted from the old channel is not seen by
-- anyone, since the mutex is never free again.
unfoldable pub find_channel : World → Option ℕ → M (Option ℕ)
find_channel w none = pure none
find_channel w (some i) = elim (Map.get w.channels i) [
  | some c ↦ pure (some c)
  | none ↦ lock >> throw invalid_protobuf
]

unfoldable pub handle_user_state : (Bytes → Option UserState) → Bytes → M (Unit {0})
handle_user_state unmarshal buffer = do
  packet ← unmarshalled unmarshal buffer
  session ← required packet.session
  lock
  w ← world
  let (u, present, type) = find_or_connect session w
  set_world present
  t ← some_or_unlock type
  actor ← find_actor present packet.actor
  let (w1, t1) = update_identity u packet (present, t)
  channel ← find_channel w1 packet.channel_id
  let (w2, t2) = update_status u packet (update_channel u channel (w1, t1))
  set_world w2
  unlock
  emit_if_synced (user_change (record { type = t2; user = some u; actor = actor; string = [] }))
