-- ===== src/Protocol/Numbers.antt =====
-- The two tables agree.
use gumble.Prelude.{ℕ, ◌≤◌, ◌≡◌, ◌⊎◌, inl, inr, refl, none, some, arith}
use gumble.Protocol.{
  Message, version, udp_tunnel, authenticate, ping, reject, server_sync, channel_remove,
  channel_state, user_remove, user_state, ban_list, text_message, permission_denied, acl,
  query_users, crypt_setup, context_action_modify, context_action, user_list, voice_target,
  permission_query, codec_version, user_stats, request_blob, server_config, suggest_config,
  proto_type, dispatch,
}

-- A message that WriteProto can send is dispatched to the handler of its own type by a peer that uses
-- the same table, and the tunnelled audio packet is the only one that it cannot send.
dispatch-proto_type :
    (m : Message)
    → ((m ≡ udp_tunnel) × (proto_type m ≡ none))
      ⊎ ((t : ℕ) × (proto_type m ≡ some t) × (dispatch t ≡ some m))
unfolding proto_type dispatch
dispatch-proto_type version = inr (0, refl, refl)
dispatch-proto_type udp_tunnel = inl (refl, refl)
dispatch-proto_type authenticate = inr (2, refl, refl)
dispatch-proto_type ping = inr (3, refl, refl)
dispatch-proto_type reject = inr (4, refl, refl)
dispatch-proto_type server_sync = inr (5, refl, refl)
dispatch-proto_type channel_remove = inr (6, refl, refl)
dispatch-proto_type channel_state = inr (7, refl, refl)
dispatch-proto_type user_remove = inr (8, refl, refl)
dispatch-proto_type user_state = inr (9, refl, refl)
dispatch-proto_type ban_list = inr (10, refl, refl)
dispatch-proto_type text_message = inr (11, refl, refl)
dispatch-proto_type permission_denied = inr (12, refl, refl)
dispatch-proto_type acl = inr (13, refl, refl)
dispatch-proto_type query_users = inr (14, refl, refl)
dispatch-proto_type crypt_setup = inr (15, refl, refl)
dispatch-proto_type context_action_modify = inr (16, refl, refl)
dispatch-proto_type context_action = inr (17, refl, refl)
dispatch-proto_type user_list = inr (18, refl, refl)
dispatch-proto_type voice_target = inr (19, refl, refl)
dispatch-proto_type permission_query = inr (20, refl, refl)
dispatch-proto_type codec_version = inr (21, refl, refl)
dispatch-proto_type user_stats = inr (22, refl, refl)
dispatch-proto_type request_blob = inr (23, refl, refl)
dispatch-proto_type server_config = inr (24, refl, refl)
dispatch-proto_type suggest_config = inr (25, refl, refl)

-- A packet of a type from 26 on is dropped.
dispatch_unknown : (t : ℕ) → 26 ≤ t → dispatch t ≡ none
unfolding dispatch
dispatch_unknown t h = ground arith
