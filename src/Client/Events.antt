-- ===== src/Client/Events.antt =====
-- gumble/event.go, and the values that events carry: what the listeners are called with. A string is
-- the list of its bytes, and users and channels are references.
use gumble.Prelude.{ℕ, Bool, true, false, Option, none, List, [], ◌∷◌, ◌==◌, ◌&&◌}
use gumble.Prelude.Int.{ℤ}
use gumble.Map.{Map}

abbrev pub Text : Type 0
Text = List ℕ

abbrev pub Bytes : Type 0
Bytes = List ℕ

-- `s == t` on strings.
unfoldable pub text_eq : Text → Text → Bool
text_eq [] [] = true
text_eq (x ∷ s) (y ∷ t) = x == y && text_eq s t
text_eq _ _ = false

pub data DisconnectType : Type 0 where
  error kicked banned user : DisconnectType

pub record UserChangeEvent : Type 0 where
  pub type : ℕ
  pub user : Option ℕ
  pub actor : Option ℕ
  pub string : Text

pub record ChannelChangeEvent : Type 0 where
  pub type : ℕ
  pub channel : Option ℕ

-- A missing list of receivers and an empty one are not told apart.
pub record TextMessage : Type 0 where
  pub sender : Option ℕ
  pub users : List ℕ
  pub channels : List ℕ
  pub trees : List ℕ
  pub message : Text

pub record PermissionDeniedEvent : Type 0 where
  pub type : ℕ
  pub channel : Option ℕ
  pub user : Option ℕ
  pub permission : ℕ
  pub string : Text

pub record ServerConfigEvent : Type 0 where
  pub maximum_bitrate : Option ℕ
  pub welcome_message : Option Text
  pub allow_html : Option Bool
  pub maximum_message_length : Option ℕ
  pub maximum_image_message_length : Option ℕ
  pub maximum_users : Option ℕ
  pub codec_alpha : Option ℤ
  pub codec_beta : Option ℤ
  pub codec_prefer_alpha : Option Bool
  pub codec_opus : Option Bool
  -- The number of the version, which is its only field that is set.
  pub suggest_version : Option ℕ
  pub suggest_positional : Option Bool
  pub suggest_push_to_talk : Option Bool

-- An event in which no field is set.
abbrev pub no_server_config : ServerConfigEvent
no_server_config = record {
  maximum_bitrate = none;
  welcome_message = none;
  allow_html = none;
  maximum_message_length = none;
  maximum_image_message_length = none;
  maximum_users = none;
  codec_alpha = none;
  codec_beta = none;
  codec_prefer_alpha = none;
  codec_opus = none;
  suggest_version = none;
  suggest_positional = none;
  suggest_push_to_talk = none;
}

pub record ConnectEvent : Type 0 where
  pub welcome_message : Option Text
  pub maximum_bitrate : Option ℕ

pub record AclUser : Type 0 where
  pub user_id : ℕ
  pub name : Text

-- A nil map of users and an empty one are not told apart.
pub record AclGroup : Type 0 where
  pub name : Text
  pub inherited : Bool
  pub inherit_users : Bool
  pub inheritable : Bool
  pub users_add : Map AclUser
  pub users_remove : Map AclUser
  pub users_inherited : Map AclUser

-- A pointer to the group at a place of the list's groups, or to a group of its own with that name.
pub data RuleGroup : Type 0 where
  listed : ℕ → RuleGroup
  unlisted : Text → RuleGroup

pub record AclRule : Type 0 where
  pub applies_current : Bool
  pub applies_children : Bool
  pub inherited : Bool
  pub granted : ℕ
  pub denied : ℕ
  pub user : Option AclUser
  pub group : Option RuleGroup

pub record Acl : Type 0 where
  pub channel : ℕ
  pub groups : List AclGroup
  pub rules : List AclRule
  pub inherits : Bool

pub record ContextAction : Type 0 where
  pub type : ℕ
  pub name : Text
  pub label : Text

pub data ContextActionChangeType : Type 0 where
  action_added action_removed : ContextActionChangeType

-- The samples of the packet, and its position as the bits of three float32.
pub record AudioPacket : Type 0 where
  pub sender : ℕ
  pub target : ℕ
  pub audio_buffer : List ℤ
  pub position : Option (ℕ × ℕ × ℕ)

-- A time is a number that the library's parser gives, 0 the zero time.
pub record RegisteredUser : Type 0 where
  pub user_id : ℕ
  pub name : Text
  pub last_seen : ℕ
  pub last_channel : Option ℕ
  pub changed : Bool
  pub deregister : Bool

-- An address and a mask are byte slices, an empty one for nil. A duration is the number of its
-- nanoseconds, and not negative.
pub record Ban : Type 0 where
  pub address : Bytes
  pub mask : Bytes
  pub name : Text
  pub hash : Text
  pub reason : Text
  pub start : ℕ
  pub duration : ℕ
  pub unban : Bool

pub data Event : Type 0 where
  user_change : UserChangeEvent → Event
  channel_change : ChannelChangeEvent → Event
  text_message : TextMessage → Event
  permission_denied : PermissionDeniedEvent → Event
  server_config : ServerConfigEvent → Event
  user_list : List RegisteredUser → Event
  ban_list : List Ban → Event
  connect : ConnectEvent → Event
  disconnect : DisconnectType → Event
  acl : Acl → Event
  context_action_change : ContextActionChangeType → ContextAction → Event
  -- A listener gets a new stream of a user, and a packet on the stream that it has.
  audio_stream : ℕ → ℕ → Event
  audio_packet : ℕ → AudioPacket → Event
