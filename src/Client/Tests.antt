-- ===== src/Client/Tests.antt =====
-- The handlers and the graph at concrete clients.
use gumble.Prelude.{
  none-some, zero, suc, ◌<◌, arith, ℕ, ◌≡◌, refl, ◌≢◌, true, none, some, [], ◌∷◌, ap, sym, ◌∙◌,
}
use gumble.Map.{store}
use gumble.Map
use gumble.Client.Notices.{handle_text_message, text_message_packet}
use gumble.Client.Notices.Reports.{handle_text_message-text_message_packet}
use gumble.Client.{text_message, World, new_channel}
use gumble.Client.Monad.{blocked, returned}
use gumble.Client.Sound.{IsIdle, Ends}
use gumble.Client.Graph.{create_channel}
use gumble.Client.ChannelState.{
  apply_channel_state, find_or_create, update_parent, update_attributes, update_name, update_links,
  add_links, link_one, remove_links, update_description, update_temporary, update_position,
  update_description_hash, update_max_users, handle_channel_state,
}
use gumble.Client.ChannelRemove.{handle_channel_remove}
use gumble.Client.UserRemove.{UserRemove, handle_user_remove}
use gumble.Client.UserState.{UserState, handle_user_state}
use gumble.Client.Safety.{handle_channel_state-Ends, handle_channel_remove-Ends}
use gumble.Client.Safety.Users.{handle_user_remove-Ends, handle_user_state-Ends}
use gumble.Client.Safety.Deadlock.{handle_user_state_blocked}
use gumble.Client.Samples.{
  no_world, child_state, root_world, root_world-Consistent, client_of, idle, user_world,
  user_world-Consistent,
}

abbrev joining : UserState
joining = record {
  session = some 5;
  actor = none;
  name = some (b'b' ∷ []);
  user_id = none;
  channel_id = some 0;
  mute = some true;
  deaf = none;
  suppress = none;
  self_mute = none;
  self_deaf = none;
  texture = none;
  comment = none;
  hash = none;
  comment_hash = none;
  texture_hash = none;
  priority_speaker = none;
  recording = none;
}

abbrev kicked : UserRemove
kicked = record { session = some 5; actor = some 5; reason = none; ban = some true }

handle_channel_state-Ends_example :
    Ends (λ _ d. IsIdle d) (handle_channel_state (λ _. some child_state) [] (client_of root_world))
handle_channel_state-Ends_example =
    handle_channel_state-Ends (λ _. some child_state) [] (client_of root_world)
      (idle root_world-Consistent)

handle_channel_remove-Ends_example :
    Ends
      (λ _ d. IsIdle d)
      (handle_channel_remove (λ _. some (record { channel_id = some 0 })) [] (client_of user_world))
handle_channel_remove-Ends_example =
    handle_channel_remove-Ends (λ _. some (record { channel_id = some 0 })) []
      (client_of user_world) (idle user_world-Consistent)

handle_user_remove-Ends_example :
    Ends (λ _ d. IsIdle d) (handle_user_remove (λ _. some kicked) [] (client_of user_world))
handle_user_remove-Ends_example =
    handle_user_remove-Ends (λ _. some kicked) [] (client_of user_world)
      (idle user_world-Consistent)

root_known : Map.get root_world.channels 0 ≡ some 0
unfolding Map.get Map.put apply_channel_state find_or_create create_channel update_attributes
    update_parent update_name update_links add_links link_one remove_links update_description
    update_temporary update_position update_description_hash update_max_users
root_known = refl

joins_root :
    (p : UserState) (i : ℕ)
    → some joining ≡ some p
    → p.channel_id ≡ some i
    → Map.get root_world.channels i ≢ none
joins_root p i e k n =
    let root : i ≡ 0 = cc in
    none-some _ (sym n ∙ ap (Map.get root_world.channels) root ∙ root_known)

handle_user_state-Ends_example :
    Ends (λ _ d. IsIdle d) (handle_user_state (λ _. some joining) [] (client_of root_world))
handle_user_state-Ends_example =
    handle_user_state-Ends (λ _. some joining) [] (client_of root_world)
      (idle root_world-Consistent) joins_root

-- User 5 to channel 9, which is not there.
abbrev lost : UserState
lost = record joining { channel_id = some 9 }

abbrev member_world : World
member_world = record no_world { users = (5, 0) ∷ [] }

member_known : Map.get member_world.users 5 ≡ some 0
unfolding Map.get
member_known = refl

lost_channel : Map.get member_world.channels 9 ≡ none
unfolding Map.get
lost_channel = refl

handle_user_state_blocked_example :
    handle_user_state (λ _. some lost) [] (client_of member_world) ≡ blocked
handle_user_state_blocked_example =
    handle_user_state_blocked (λ _. some lost) [] (client_of member_world) lost 5 0 9 refl refl refl
      member_known refl refl lost_channel

-- Channel 1 at reference 1 is linked to channel 0 and back, and channel 2 has a link to it that it
-- does not return.
abbrev linked_world : World
linked_world = record no_world {
  channels = (0, 0) ∷ (1, 1) ∷ (2, 2) ∷ [];
  permissions = (1, 7) ∷ [];
  channel_at =
      store
        (store (λ n. record (new_channel n) { links = (1, 1) ∷ [] }) 0
          (record (new_channel 0) { links = (1, 1) ∷ [] }))
        1 (record (new_channel 1) { links = (0, 0) ∷ [] });
  next_channel = 3;
}

channel_known :
    (i : ℕ) → i < 3 → Map.get linked_world.channels (linked_world.channel_at i).id ≡ some i
unfolding Map.get
channel_known zero h = refl
channel_known (suc zero) h = refl
channel_known (suc (suc zero)) h = refl
channel_known (suc (suc (suc i))) h = absurd (omega arith)

-- To channel 1, and to the tree of channel 0.
handle_text_message-text_message_packet_example :
    handle_text_message
      (λ _. some (text_message_packet linked_world [] (1 ∷ []) (0 ∷ []) (b'a' ∷ [])))
      []
      (client_of linked_world)
    ≡ returned tt (record (client_of linked_world) {
      events =
          text_message (record {
            sender = none;
            users = [];
            channels = 1 ∷ [];
            trees = 0 ∷ [];
            message = b'a' ∷ [];
          })
          ∷ [];
    })
handle_text_message-text_message_packet_example =
    handle_text_message-text_message_packet (client_of linked_world) [] (1 ∷ []) (0 ∷ [])
      (b'a' ∷ []) tt (channel_known 1 (omega arith), tt) (channel_known 0 (omega arith), tt)
