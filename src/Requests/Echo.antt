-- ===== src/Requests/Echo.antt =====
-- What a request changes on a client when the server sends it back to all.
use gumble.Prelude.{ℕ, ◌≡◌, refl, Bool, false, not, bit_or, none, some, []}
use gumble.Prelude.Int.{ℤ}
use gumble.Map
use gumble.Client.UserChange
use gumble.Client.Monad.{Outcome}
use gumble.Client.UserState.Update.{handle_user_state_stays}
use gumble.Client.UserState.{bool_eq}
use gumble.Client.ChannelState.{flag}
use gumble.Client.{text_eq, Client, user_change, User, World, Text}
use gumble.Client.Graph.{set_channel, set_user}
use gumble.Client.ChannelState.{
  ChannelState, find_or_create, update_parent, update_attributes, update_name, update_links,
  add_links, remove_links, update_description, update_temporary, update_position,
  update_description_hash, update_max_users, apply_channel_state,
}
use gumble.Client.Monad.{emit_if_synced}
use gumble.Client.UserState.{
  UserState, handle_user_state, update_identity, update_status, update_name as update_user_name,
  update_user_id, update_mute, update_deaf, update_suppress, update_self_mute, update_self_deaf,
  update_texture, update_comment, update_hash, update_comment_hash, update_texture_hash,
  update_priority_speaker, update_recording,
}
use gumble.Requests.{
  set_name, set_description, set_position, set_max_users, set_muted, set_deafened, set_suppressed,
  set_self_muted, set_self_deafened, set_comment, set_texture, set_priority_speaker, set_recording,
}

-- The world after a packet about a known channel.
echoed :
    (id : ℕ) (p : ChannelState) (w : World) {c : ℕ}
    → Map.get w.channels id ≡ some c
    → (apply_channel_state id p w).1
      ≡ (update_attributes c p (update_parent id c p.parent (w, 0))).0
unfolding apply_channel_state find_or_create
echoed id p w e = rw (e, apply_channel_state, find_or_create)

-- A setter of a known channel, sent back, sets that field of the channel, and changes nothing else
-- but the description's hash, which the description takes away.
setters_echo :
    (w : World) (c : ℕ) (name description : Text) (position : ℤ) (max_users : ℕ)
    → Map.get w.channels (w.channel_at c).id ≡ some c
    → ((apply_channel_state (w.channel_at c).id (set_name (w.channel_at c) name) w).1
        ≡ set_channel w c (record (w.channel_at c) { name = name }))
      × ((apply_channel_state
            (w.channel_at c).id
            (set_description (w.channel_at c) description)
            w).1
          ≡ set_channel w c
              (record (w.channel_at c) { description = description; description_hash = none }))
      × ((apply_channel_state (w.channel_at c).id (set_position (w.channel_at c) position) w).1
          ≡ set_channel w c (record (w.channel_at c) { position = position }))
      × ((apply_channel_state (w.channel_at c).id (set_max_users (w.channel_at c) max_users) w).1
          ≡ set_channel w c (record (w.channel_at c) { max_users = max_users }))
unfolding set_name set_description set_position set_max_users update_attributes update_parent
    update_name update_links add_links remove_links update_description update_temporary
    update_position update_description_hash update_max_users
setters_echo w c name description position max_users e =
    (echoed _ _ w e, echoed _ _ w e, echoed _ _ w e, echoed _ _ w e)

-- The user at u is now x, and the listeners of a synced client get an event of type t about it.
abbrev user_becomes : Client → ℕ → User → ℕ → Outcome (Unit {0})
user_becomes c u x t =
    emit_if_synced (user_change (record { type = t; user = some u; actor = none; string = [] }))
      (record c { locked = false; world = set_user c.world u x })

-- A setter of a known user, sent back to an unlocked client without an actor, sets that field of the
-- user and changes nothing else but the hash that a comment or a texture takes away; the event's type
-- has the field's bit where the value is new, and always for a texture.
pub user_setters_echo :
    (c : Client) (u : ℕ) (b : Bool) (s : Text)
    → c.locked ≡ false
    → Map.get c.world.users (c.world.user_at u).session ≡ some u
    → (handle_user_state (λ _. some (set_muted (c.world.user_at u) b)) [] c
        ≡ user_becomes c u
            (record (c.world.user_at u) { muted = b })
            (flag (not (bool_eq b (c.world.user_at u).muted)) UserChange.audio 0))
      × (handle_user_state (λ _. some (set_deafened (c.world.user_at u) b)) [] c
          ≡ user_becomes c u
              (record (c.world.user_at u) { deafened = b })
              (flag (not (bool_eq b (c.world.user_at u).deafened)) UserChange.audio 0))
      × (handle_user_state (λ _. some (set_suppressed (c.world.user_at u) b)) [] c
          ≡ user_becomes c u
              (record (c.world.user_at u) { suppressed = b })
              (flag (not (bool_eq b (c.world.user_at u).suppressed)) UserChange.audio 0))
      × (handle_user_state (λ _. some (set_self_muted (c.world.user_at u) b)) [] c
          ≡ user_becomes c u
              (record (c.world.user_at u) { self_muted = b })
              (flag (not (bool_eq b (c.world.user_at u).self_muted)) UserChange.audio 0))
      × (handle_user_state (λ _. some (set_self_deafened (c.world.user_at u) b)) [] c
          ≡ user_becomes c u
              (record (c.world.user_at u) { self_deafened = b })
              (flag (not (bool_eq b (c.world.user_at u).self_deafened)) UserChange.audio 0))
      × (handle_user_state (λ _. some (set_priority_speaker (c.world.user_at u) b)) [] c
          ≡ user_becomes c u
              (record (c.world.user_at u) { priority_speaker = b })
              (flag
                (not (bool_eq b (c.world.user_at u).priority_speaker))
                UserChange.priority_speaker
                0))
      × (handle_user_state (λ _. some (set_recording (c.world.user_at u) b)) [] c
          ≡ user_becomes c u
              (record (c.world.user_at u) { recording = b })
              (flag (not (bool_eq b (c.world.user_at u).recording)) UserChange.recording 0))
      × (handle_user_state (λ _. some (set_comment (c.world.user_at u) s)) [] c
          ≡ user_becomes c u
              (record (c.world.user_at u) { comment = s; comment_hash = none })
              (flag (not (text_eq s (c.world.user_at u).comment)) UserChange.comment 0))
      × (handle_user_state (λ _. some (set_texture (c.world.user_at u) s)) [] c
          ≡ user_becomes c u
              (record (c.world.user_at u) { texture = some s; texture_hash = none })
              (bit_or 0 UserChange.texture))
unfolding set_muted set_deafened set_suppressed set_self_muted set_self_deafened
    set_priority_speaker set_recording set_comment set_texture update_identity update_status
    update_user_name update_user_id update_mute update_deaf update_suppress update_self_mute
    update_self_deaf update_texture update_comment update_hash update_comment_hash
    update_texture_hash update_priority_speaker update_recording
user_setters_echo c u b s free known = (
  stays _ refl refl refl,
  stays _ refl refl refl,
  stays _ refl refl refl,
  stays _ refl refl refl,
  stays _ refl refl refl,
  stays _ refl refl refl,
  stays _ refl refl refl,
  stays _ refl refl refl,
  stays _ refl refl refl,
)
  where
    stays :
        (p : UserState)
        → p.session ≡ some (c.world.user_at u).session
        → p.actor ≡ none
        → p.channel_id ≡ none
        → handle_user_state (λ _. some p) [] c
          ≡ emit_if_synced
              (user_change (record {
                type = (update_status u p (update_identity u p (c.world, 0))).1;
                user = some u;
                actor = none;
                string = [];
              }))
              (record c {
                locked = false;
                world = (update_status u p (update_identity u p (c.world, 0))).0;
              })
    stays p e ea ec =
        handle_user_state_stays (λ _. some p) [] c p (c.world.user_at u).session u free refl e known
          ea ec
