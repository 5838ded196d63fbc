-- ===== src/Client/Session.antt =====
-- readRoutine and Disconnect of gumble/client.go: the handlers, run on the packets of a connection.
pub mod Harmless
pub mod Quiet
pub mod Routine
pub mod Handshake
mod Tests
use gumble.Prelude.{ℕ, zero, suc, Option, none, some, List, true, if◌then◌else◌}
use gumble.Prelude.Int.{ℤ}
use gumble.Version.{ReceivedVersion}
use gumble.Conn.{read_packet, packet, read_error, maximum_packet_bytes}
use gumble.Protocol.{
  Message, dispatch, version, udp_tunnel, authenticate, ping, reject, server_sync, channel_remove,
  channel_state, user_remove, user_state, ban_list, text_message, permission_denied, acl,
  query_users, crypt_setup, context_action_modify, context_action, user_list, voice_target,
  permission_query, codec_version, user_stats, request_blob, server_config, suggest_config,
}
use gumble.Client.{Client, Text, Bytes, State, disconnected, synced, disconnect, error, user}
use gumble.Client.Monad.{M, Outcome, returned, failed, panicked, blocked, pure, emit}
use gumble.Client.ChannelState.{ChannelState, handle_channel_state}
use gumble.Client.ChannelRemove.{ChannelRemove, handle_channel_remove}
use gumble.Client.UserRemove.{UserRemove, handle_user_remove}
use gumble.Client.UserState.{UserState, handle_user_state}
use gumble.Client.Bans.{BanEntry, handle_ban_list}
use gumble.Client.Notices.{
  TextMessagePacket, handle_text_message, PermissionDeniedPacket, handle_permission_denied,
  ServerConfig, handle_server_config,
}
use gumble.Client.UserList.{UserListUser, handle_user_list}
use gumble.Client.PermissionQuery.{PermissionQuery, handle_permission_query}
use gumble.Client.Sync.{
  handle_unimplemented, handle_version, Reject, handle_reject, ServerSync, handle_server_sync,
  CodecVersion, handle_codec_version, SuggestConfig, handle_suggest_config,
}
use gumble.Client.ContextActions.{ContextActionModify, handle_context_action_modify}
use gumble.Client.AccessControl.{AclPacket, handle_acl, QueryUsers, handle_query_users}
use gumble.Client.Stats.{UserStatsPacket, handle_user_stats}
use gumble.Client.Ping.{FloatOps, Ping, handle_ping}
use gumble.Client.Tunnel.{handle_udp_tunnel}

-- The code of other projects that the handlers call: proto.Unmarshal at each message, and the
-- parameters of the single handlers.
pub record Externals : Type 0 where
  pub to_version : Bytes → Option ReceivedVersion
  pub to_ping : Bytes → Option Ping
  pub to_reject : Bytes → Option Reject
  pub to_server_sync : Bytes → Option ServerSync
  pub to_channel_remove : Bytes → Option ChannelRemove
  pub to_channel_state : Bytes → Option ChannelState
  pub to_user_remove : Bytes → Option UserRemove
  pub to_user_state : Bytes → Option UserState
  pub to_ban_list : Bytes → Option (List BanEntry)
  pub to_text_message : Bytes → Option TextMessagePacket
  pub to_permission_denied : Bytes → Option PermissionDeniedPacket
  pub to_acl : Bytes → Option AclPacket
  pub to_query_users : Bytes → Option QueryUsers
  pub to_context_action_modify : Bytes → Option ContextActionModify
  pub to_user_list : Bytes → Option (List UserListUser)
  pub to_permission_query : Bytes → Option PermissionQuery
  pub to_codec_version : Bytes → Option CodecVersion
  pub to_user_stats : Bytes → Option UserStatsPacket
  pub to_server_config : Bytes → Option ServerConfig
  pub to_suggest_config : Bytes → Option SuggestConfig
  pub new_decoder : ℕ → ℕ
  pub samples : ℕ → Bytes → ℕ → Option (List ℤ)
  pub ops : FloatOps
  pub millis : ℕ → ℕ
  pub cidr_mask : ℕ → ℕ → Bytes
  pub parse_time : Text → ℕ
  pub h9k : ℕ
  pub registered_codec : Option ℕ
  pub new_encoder : ℕ → ℕ
  pub parse_certificate : Bytes → Option ℕ
  pub ago : ℕ → ℕ

-- The function that the table `handlers` holds for a message.
unfoldable pub handler_of : Externals → Message → Bytes → M (Unit {0})
handler_of x version = handle_version x.to_version
handler_of x udp_tunnel = handle_udp_tunnel x.new_decoder x.samples
handler_of x authenticate = handle_unimplemented
handler_of x ping = handle_ping x.ops x.millis x.to_ping
handler_of x reject = handle_reject x.to_reject
handler_of x server_sync = handle_server_sync x.to_server_sync
handler_of x channel_remove = handle_channel_remove x.to_channel_remove
handler_of x channel_state = handle_channel_state x.to_channel_state
handler_of x user_remove = handle_user_remove x.to_user_remove
handler_of x user_state = handle_user_state x.to_user_state
handler_of x ban_list = handle_ban_list x.cidr_mask x.parse_time x.to_ban_list
handler_of x text_message = handle_text_message x.to_text_message
handler_of x permission_denied = handle_permission_denied x.h9k x.to_permission_denied
handler_of x acl = handle_acl x.to_acl
handler_of x query_users = handle_query_users x.to_query_users
handler_of x crypt_setup = handle_unimplemented
handler_of x context_action_modify = handle_context_action_modify x.to_context_action_modify
handler_of x context_action = handle_unimplemented
handler_of x user_list = handle_user_list x.parse_time x.to_user_list
handler_of x voice_target = handle_unimplemented
handler_of x permission_query = handle_permission_query x.to_permission_query
handler_of x codec_version =
    handle_codec_version x.registered_codec x.new_encoder x.to_codec_version
handler_of x user_stats = handle_user_stats x.parse_certificate x.ago x.to_user_stats
handler_of x request_blob = handle_unimplemented
handler_of x server_config = handle_server_config x.to_server_config
handler_of x suggest_config = handle_suggest_config x.to_suggest_config

-- `if int(pType) < len(handlers) { handlers[pType](c, data) }`
unfoldable pub handle_packet : Externals → ℕ → Bytes → M (Unit {0})
unfolding handler_of pure
handle_packet x t body = elim (dispatch t) [ some m ↦ handler_of x m body | none ↦ pure tt ]

-- The loop, on the bytes that the connection carries until it ends or is closed; what a handler
-- returns is not looked at. `some panicked` is a panic of a handler, which ends the program, and
-- `some blocked` a handler that never comes back, so that the loop does not end; `none` is a loop that
-- has no fuel left.
unfoldable pub read_loop : ℕ → Externals → Bytes → Client → Option (Outcome (Unit {0}))
unfolding handle_packet
read_loop zero x s c = none
read_loop (suc fuel) x s c = elim (read_packet maximum_packet_bytes s) [
  | read_error e ↦ some (returned tt c)
  | packet t body rest ↦ elim (handle_packet x t body c) [
    | returned u d ↦ read_loop fuel x rest d
    | failed e d ↦ read_loop fuel x rest d
    | panicked ↦ some panicked
    | blocked ↦ some blocked
  ]
]

-- What follows the loop: the state is set and the channel `end` is closed before the listeners hear.
unfoldable pub end_routine : Client → Outcome (Unit {0})
unfolding emit
end_routine c =
    let stopped = record c { state = disconnected; end_closed = true } in
    if c.end_closed then panicked else elim c.state [
      | synced ↦ emit (disconnect c.disconnect_type) stopped
      | _ ↦ returned tt stopped
    ]

unfoldable pub read_routine : ℕ → Externals → Bytes → Client → Option (Outcome (Unit {0}))
unfolding read_loop end_routine
read_routine fuel x s c = elim (read_loop fuel x s (record c { disconnect_type = error })) [
  | some (returned u d) ↦ some (end_routine d)
  | o ↦ o
]

-- Disconnect, which gives an error, `none`, where the client is not connected.
unfoldable pub request_disconnect : Client → Option Client
request_disconnect c = elim c.state [
  | disconnected ↦ none
  | _ ↦ some (record c { disconnect_type = user; conn_closed = true })
]
