-- ===== src/Client/Notices.antt =====
-- handleTextMessage, handlePermissionDenied and handleServerConfig of gumble/handlers.go, which only
-- report to the listeners, and the encoder of gumble/textmessage.go.
pub mod Reports
use gumble.Prelude.{
  ℕ, Bool, true, false, Option, none, some, List, [], ◌∷◌, map, ◌==◌, if◌then◌else◌,
}
use gumble.Map.{Map}
use gumble.Map
use gumble.Client.{
  World, Text, Bytes, text_message, permission_denied, server_config, no_server_config,
}
use gumble.Client.Monad.{M, ◌>>=◌, ◌>>◌, pure, throw, invalid_protobuf, world, emit, unmarshalled}
use gumble.Client.UserRemove.{text_or_empty}

-- The fields of MumbleProto.TextMessage; a repeated field that is not set is empty.
pub record TextMessagePacket : Type 0 where
  pub actor : Option ℕ
  pub session : List ℕ
  pub channel_id : List ℕ
  pub tree_id : List ℕ
  pub message : Option Text

-- `c.Users[*packet.Actor]`, which may be nil.
abbrev pub find_optional : Map ℕ → Option ℕ → Option ℕ
find_optional m none = none
find_optional m (some k) = Map.get m k

-- The loops that collect the objects that are known.
unfoldable pub find_known : Map ℕ → List ℕ → List ℕ
find_known m [] = []
find_known m (k ∷ ks) =
    let rest = find_known m ks in elim (Map.get m k) [ some r ↦ r ∷ rest | none ↦ rest ]

unfoldable pub handle_text_message : (Bytes → Option TextMessagePacket) → Bytes → M (Unit {0})
unfolding find_known
handle_text_message unmarshal buffer = do
  packet ← unmarshalled unmarshal buffer
  w ← world
  emit (
      text_message (record {
        sender = find_optional w.users packet.actor;
        users = find_known w.users packet.session;
        channels = find_known w.channels packet.channel_id;
        trees = find_known w.channels packet.tree_id;
        message = text_or_empty packet.message;
      }))

-- (*TextMessage).writeMessage: the packet that it sends.
unfoldable pub text_message_packet : World → List ℕ → List ℕ → List ℕ → Text → TextMessagePacket
text_message_packet w users channels trees message = record {
  actor = none;
  session = map (λ u. (w.user_at u).session) users;
  channel_id = map (λ c. (w.channel_at c).id) channels;
  tree_id = map (λ c. (w.channel_at c).id) trees;
  message = some message;
}

-- The fields of MumbleProto.PermissionDenied that the handler reads.
pub record PermissionDeniedPacket : Type 0 where
  pub type : Option ℕ
  pub reason : Option Text
  pub name : Option Text
  pub session : Option ℕ
  pub channel_id : Option ℕ
  pub permission : Option ℕ

-- A missing type and `h9k`, the number of MumbleProto.PermissionDenied_H9K, are refused.
unfoldable pub denied_type : ℕ → Option ℕ → M ℕ
unfolding pure throw
denied_type h9k none = throw invalid_protobuf
denied_type h9k (some t) = if t == h9k then throw invalid_protobuf else pure t

-- The name is written over the reason.
abbrev pub denied_string : Option Text → Option Text → Text
denied_string reason none = text_or_empty reason
denied_string reason (some name) = name

-- An object that must be known where the packet names one; the mutex is not held.
unfoldable pub find_named : Map ℕ → Option ℕ → M (Option ℕ)
unfolding pure throw
find_named m none = pure none
find_named m (some k) = elim (Map.get m k) [
  | some r ↦ pure (some r)
  | none ↦ throw invalid_protobuf
]

abbrev pub or_zero : Option ℕ → ℕ
or_zero none = 0
or_zero (some p) = p

unfoldable pub handle_permission_denied :
    ℕ → (Bytes → Option PermissionDeniedPacket) → Bytes → M (Unit {0})
handle_permission_denied h9k unmarshal buffer = do
  packet ← unmarshalled unmarshal buffer
  t ← denied_type h9k packet.type
  w ← world
  u ← find_named w.users packet.session
  c ← find_named w.channels packet.channel_id
  emit (
      permission_denied (record {
        type = t;
        channel = c;
        user = u;
        permission = or_zero packet.permission;
        string = denied_string packet.reason packet.name;
      }))

-- The fields of MumbleProto.ServerConfig. `int` of a uint32 keeps its value.
pub record ServerConfig : Type 0 where
  pub max_bandwidth : Option ℕ
  pub welcome_text : Option Text
  pub allow_html : Option Bool
  pub message_length : Option ℕ
  pub image_message_length : Option ℕ
  pub max_users : Option ℕ

unfoldable pub handle_server_config : (Bytes → Option ServerConfig) → Bytes → M (Unit {0})
handle_server_config unmarshal buffer = do
  packet ← unmarshalled unmarshal buffer
  emit (
      server_config (record no_server_config {
        maximum_bitrate = packet.max_bandwidth;
        welcome_message = packet.welcome_text;
        allow_html = packet.allow_html;
        maximum_message_length = packet.message_length;
        maximum_image_message_length = packet.image_message_length;
        maximum_users = packet.max_users;
      }))
