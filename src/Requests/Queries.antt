-- ===== src/Requests/Queries.antt =====
-- gumble/channel.go, user.go and userlist.go: the requests whose packets no handler reads back, and the
-- message to a user.
use gumble.Prelude.{ℕ, Bool, true, Option, some, [], ◌∷◌}
use gumble.Client.{Channel, User, World, Text, Bytes, AclUser, RegisteredUser}
use gumble.Client.Notices.{TextMessagePacket, text_message_packet}

-- MumbleProto.ACL, where it is a query.
pub record AclQuery : Type 0 where
  pub channel_id : Option ℕ
  pub query : Option Bool

unfoldable pub request_acl : Channel → AclQuery
request_acl c = record { channel_id = some c.id; query = some true }

-- MumbleProto.UserStats, with the field that is set.
pub record StatsQuery : Type 0 where
  pub session : Option ℕ

unfoldable pub request_stats : User → StatsQuery
request_stats u = record { session = some u.session }

-- (*User).Send.
unfoldable pub send_user : World → ℕ → Text → TextMessagePacket
unfolding text_message_packet
send_user w u message = text_message_packet w (u ∷ []) [] [] message

-- MumbleProto.UserState with the plugin data, which no handler reads.
pub record PluginState : Type 0 where
  pub session : Option ℕ
  pub plugin_context : Bytes
  pub plugin_identity : Option Text

unfoldable pub set_plugin : User → Bytes → Text → PluginState
set_plugin u context identity = record {
  session = some u.session;
  plugin_context = context;
  plugin_identity = some identity;
}

-- (*RegisteredUser).ACLUser.
unfoldable pub acl_user : RegisteredUser → AclUser
acl_user r = record { user_id = r.user_id; name = r.name }
