-- ===== src/Client/Session/Quiet.antt =====
-- A harmless packet changes nothing of the connection.

use gumble.Protocol.{
  Message, version, udp_tunnel, authenticate, ping, reject, server_sync, channel_remove,
  channel_state, user_remove, user_state, ban_list, text_message, permission_denied, acl,
  query_users, crypt_setup, context_action_modify, context_action, user_list, voice_target,
  permission_query, codec_version, user_stats, request_blob, server_config, suggest_config,
}
use gumble.Client.{Bytes}
use gumble.Client.Quiet.{IsQuiet}
use gumble.Client.Quiet.Handlers.{
  handle_channel_state-IsQuiet, handle_user_state-IsQuiet, handle_user_remove-IsQuiet,
  handle_channel_remove-IsQuiet, handle_user_list-IsQuiet, handle_permission_query-IsQuiet,
  handle_permission_denied-IsQuiet, handle_context_action_modify-IsQuiet,
}
use gumble.Client.Quiet.Others.{
  handle_unimplemented-IsQuiet, handle_version-IsQuiet, handle_ban_list-IsQuiet,
  handle_text_message-IsQuiet, handle_server_config-IsQuiet, handle_codec_version-IsQuiet,
  handle_suggest_config-IsQuiet, handle_acl-IsQuiet, handle_query_users-IsQuiet,
  handle_user_stats-IsQuiet, handle_ping-IsQuiet, handle_udp_tunnel-IsQuiet,
}
use gumble.Client.Session.{Externals, handler_of}
use gumble.Client.Session.Harmless.{IsHarmless}

pub handler_of-IsQuiet :
    (x : Externals) (m : Message) (b : Bytes) → IsHarmless x m b → IsQuiet (handler_of x m b)
unfolding handler_of
handler_of-IsQuiet x version b h = handle_version-IsQuiet b x.to_version
handler_of-IsQuiet x udp_tunnel b h = handle_udp_tunnel-IsQuiet x.new_decoder x.samples b
handler_of-IsQuiet x authenticate b h = handle_unimplemented-IsQuiet b
handler_of-IsQuiet x ping b h = handle_ping-IsQuiet b x.ops x.millis x.to_ping
handler_of-IsQuiet x reject b h = absurd h
handler_of-IsQuiet x server_sync b h = absurd h
handler_of-IsQuiet x channel_remove b h = handle_channel_remove-IsQuiet b x.to_channel_remove
handler_of-IsQuiet x channel_state b h = handle_channel_state-IsQuiet b x.to_channel_state
handler_of-IsQuiet x user_remove b h = handle_user_remove-IsQuiet b x.to_user_remove
handler_of-IsQuiet x user_state b h = handle_user_state-IsQuiet b x.to_user_state
handler_of-IsQuiet x ban_list b h = handle_ban_list-IsQuiet b x.cidr_mask x.parse_time x.to_ban_list
handler_of-IsQuiet x text_message b h = handle_text_message-IsQuiet b x.to_text_message
handler_of-IsQuiet x permission_denied b h =
    handle_permission_denied-IsQuiet b x.h9k x.to_permission_denied
handler_of-IsQuiet x acl b h = handle_acl-IsQuiet b x.to_acl
handler_of-IsQuiet x query_users b h = handle_query_users-IsQuiet b x.to_query_users
handler_of-IsQuiet x crypt_setup b h = handle_unimplemented-IsQuiet b
handler_of-IsQuiet x context_action_modify b h =
    handle_context_action_modify-IsQuiet b x.to_context_action_modify
handler_of-IsQuiet x context_action b h = handle_unimplemented-IsQuiet b
handler_of-IsQuiet x user_list b h = handle_user_list-IsQuiet b x.parse_time x.to_user_list
handler_of-IsQuiet x voice_target b h = handle_unimplemented-IsQuiet b
handler_of-IsQuiet x permission_query b h = handle_permission_query-IsQuiet b x.to_permission_query
handler_of-IsQuiet x codec_version b h =
    handle_codec_version-IsQuiet b x.registered_codec x.new_encoder x.to_codec_version
handler_of-IsQuiet x user_stats b h =
    handle_user_stats-IsQuiet b x.parse_certificate x.ago x.to_user_stats
handler_of-IsQuiet x request_blob b h = handle_unimplemented-IsQuiet b
handler_of-IsQuiet x server_config b h = handle_server_config-IsQuiet b x.to_server_config
handler_of-IsQuiet x suggest_config b h = handle_suggest_config-IsQuiet b x.to_suggest_config
