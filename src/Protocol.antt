-- ===== src/Protocol.antt =====
-- The numbers of the messages: WriteProto of gumble/conn.go on the way out, the table `handlers` of
-- gumble/handlers.go and the dispatch of readRoutine in gumble/client.go on the way in.
pub mod Numbers
use gumble.Prelude.{ℕ, zero, suc, Option, none, some, List, [], ◌∷◌, ltb, length, if◌then◌else◌}

-- The message types of MumbleProto, and the tunnelled audio packet, which is none.
pub data Message : Type 0 where
  version udp_tunnel authenticate ping reject server_sync channel_remove channel_state : Message
  user_remove user_state ban_list text_message permission_denied acl query_users : Message
  crypt_setup context_action_modify context_action user_list voice_target permission_query : Message
  codec_version user_stats request_blob server_config suggest_config : Message

-- `switch message.(type)` of WriteProto; `none` is the default.
unfoldable pub proto_type : Message → Option ℕ
proto_type version = some 0
proto_type udp_tunnel = none
proto_type authenticate = some 2
proto_type ping = some 3
proto_type reject = some 4
proto_type server_sync = some 5
proto_type channel_remove = some 6
proto_type channel_state = some 7
proto_type user_remove = some 8
proto_type user_state = some 9
proto_type ban_list = some 10
proto_type text_message = some 11
proto_type permission_denied = some 12
proto_type acl = some 13
proto_type query_users = some 14
proto_type crypt_setup = some 15
proto_type context_action_modify = some 16
proto_type context_action = some 17
proto_type user_list = some 18
proto_type voice_target = some 19
proto_type permission_query = some 20
proto_type codec_version = some 21
proto_type user_stats = some 22
proto_type request_blob = some 23
proto_type server_config = some 24
proto_type suggest_config = some 25

-- The table, each handler named for its message.
unfoldable pub handlers : List Message
handlers =
    version ∷ udp_tunnel ∷ authenticate ∷ ping ∷ reject ∷ server_sync ∷ channel_remove
    ∷ channel_state ∷ user_remove ∷ user_state ∷ ban_list ∷ text_message ∷ permission_denied ∷ acl
    ∷ query_users ∷ crypt_setup ∷ context_action_modify ∷ context_action ∷ user_list ∷ voice_target
    ∷ permission_query ∷ codec_version ∷ user_stats ∷ request_blob ∷ server_config ∷ suggest_config
    ∷ []

unfoldable pub handler_at : List Message → ℕ → Option Message
handler_at [] t = none
handler_at (m ∷ ms) zero = some m
handler_at (m ∷ ms) (suc t) = handler_at ms t

-- `if int(pType) < len(handlers) { handlers[pType](c, data) }`
unfoldable pub dispatch : ℕ → Option Message
unfolding handlers handler_at
dispatch t = if ltb t (length handlers) then handler_at handlers t else none
