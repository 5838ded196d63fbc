-- ===== src/Requests.antt =====
-- gumble/channel.go and gumble/user.go: the packets that the methods of a channel and of a user send.
-- A packet is the record that the handler of its type reads; fields that no handler reads are left out.
pub mod Echo
pub mod Queries
mod Tests
use gumble.Prelude.{ltb, ℕ, Bool, true, false, Option, none, some, List, [], ◌∷◌, ◌==◌, map}
use gumble.Prelude.Int.{ℤ}
use gumble.Map.{Map}
use gumble.Map
use gumble.Client.{Channel, User, World, Text, Bytes, text_eq}
use gumble.Client.ChannelState.{ChannelState, is_empty}
use gumble.Client.ChannelRemove.{ChannelRemove}
use gumble.Client.UserRemove.{UserRemove}
use gumble.Client.UserState.{UserState}
use gumble.Client.PermissionQuery.{PermissionQuery}

-- `MumbleProto.ChannelState{}` and `MumbleProto.UserState{}`.
abbrev pub no_channel_state : ChannelState
no_channel_state = record {
  channel_id = none;
  parent = none;
  name = none;
  links = [];
  links_add = [];
  links_remove = [];
  description = none;
  temporary = none;
  position = none;
  description_hash = none;
  max_users = none;
}

abbrev pub no_user_state : UserState
no_user_state = record {
  session = none;
  actor = none;
  name = none;
  user_id = none;
  channel_id = none;
  mute = none;
  deaf = none;
  suppress = none;
  self_mute = none;
  self_deaf = none;
  texture = none;
  comment = none;
  hash = none;
  comment_hash = none;
  texture_hash = none;
  priority_speaker = none;
  recording = none;
}

-- Methods of Channel.
unfoldable pub add : Channel → Text → Bool → ChannelState
add c name temporary = record no_channel_state {
  parent = some c.id;
  name = some name;
  temporary = some temporary;
}

unfoldable pub remove : Channel → ChannelRemove
remove c = record { channel_id = some c.id }

unfoldable pub set_name : Channel → Text → ChannelState
set_name c name = record no_channel_state { channel_id = some c.id; name = some name }

unfoldable pub set_description : Channel → Text → ChannelState
set_description c d = record no_channel_state { channel_id = some c.id; description = some d }

unfoldable pub set_position : Channel → ℤ → ChannelState
set_position c p = record no_channel_state { channel_id = some c.id; position = some p }

unfoldable pub set_max_users : Channel → ℕ → ChannelState
set_max_users c n = record no_channel_state { channel_id = some c.id; max_users = some n }

unfoldable pub link : Channel → List Channel → ChannelState
link c others = record no_channel_state {
  channel_id = some c.id;
  links_add = map (λ o. o.id) others;
}

-- The keys of a map, in the order of `range`.
abbrev pub keys : Map ℕ → List ℕ
keys [] = []
keys ((k, v) ∷ m) = k ∷ keys m

unfoldable pub unlink : Channel → List Channel → ChannelState
unlink c [] = record no_channel_state { channel_id = some c.id; links_remove = keys c.links }
unlink c (o ∷ others) = record no_channel_state {
  channel_id = some c.id;
  links_remove = map (λ x. x.id) (o ∷ others);
}

-- (*Channel).Find: the child of the first matching name only is searched on.
unfoldable pub find_child : World → Map ℕ → Text → Option ℕ
find_child w [] name = none
find_child w ((_, c) ∷ m) name = elim (text_eq (w.channel_at c).name name) [
  | true ↦ some c
  | false ↦ find_child w m name
]

unfoldable pub find : World → ℕ → List Text → Option ℕ
unfolding find_child
find w c [] = some c
find w c (name ∷ names) = elim (find_child w (w.channel_at c).children name) [
  | some child ↦ find w child names
  | none ↦ none
]

-- Methods of User.
unfoldable pub set_texture : User → Bytes → UserState
set_texture u t = record no_user_state { session = some u.session; texture = some t }

unfoldable pub set_priority_speaker : User → Bool → UserState
set_priority_speaker u b = record no_user_state {
  session = some u.session;
  priority_speaker = some b;
}

unfoldable pub set_recording : User → Bool → UserState
set_recording u b = record no_user_state { session = some u.session; recording = some b }

unfoldable pub register : User → UserState
register u = record no_user_state { session = some u.session; user_id = some 0 }

unfoldable pub set_comment : User → Text → UserState
set_comment u s = record no_user_state { session = some u.session; comment = some s }

unfoldable pub move : User → Channel → UserState
move u c = record no_user_state { session = some u.session; channel_id = some c.id }

unfoldable pub kick : User → Text → UserRemove
kick u reason = record { session = some u.session; actor = none; reason = some reason; ban = none }

unfoldable pub ban : User → Text → UserRemove
ban u reason = record {
  session = some u.session;
  actor = none;
  reason = some reason;
  ban = some true;
}

unfoldable pub set_muted : User → Bool → UserState
set_muted u b = record no_user_state { session = some u.session; mute = some b }

unfoldable pub set_suppressed : User → Bool → UserState
set_suppressed u b = record no_user_state { session = some u.session; suppress = some b }

unfoldable pub set_deafened : User → Bool → UserState
set_deafened u b = record no_user_state { session = some u.session; deaf = some b }

unfoldable pub set_self_muted : User → Bool → UserState
set_self_muted u b = record no_user_state { session = some u.session; self_mute = some b }

unfoldable pub set_self_deafened : User → Bool → UserState
set_self_deafened u b = record no_user_state { session = some u.session; self_deaf = some b }

-- MumbleProto.RequestBlob, for descriptions, textures and comments that the server sends as hashes.
pub record RequestBlob : Type 0 where
  pub channel_description : List ℕ
  pub session_texture : List ℕ
  pub session_comment : List ℕ

unfoldable pub request_description : Channel → RequestBlob
request_description c = record {
  channel_description = c.id ∷ [];
  session_texture = [];
  session_comment = [];
}

unfoldable pub request_texture : User → RequestBlob
request_texture u = record {
  channel_description = [];
  session_texture = u.session ∷ [];
  session_comment = [];
}

unfoldable pub request_comment : User → RequestBlob
request_comment u = record {
  channel_description = [];
  session_texture = [];
  session_comment = u.session ∷ [];
}

-- RequestPermission: the query that asks for the channel's permissions.
unfoldable pub request_permission : Channel → PermissionQuery
request_permission c = record { channel_id = some c.id; permissions = none; flush = none }

unfoldable pub is_root : Channel → Bool
is_root c = c.id == 0

unfoldable pub is_registered : User → Bool
is_registered u = ltb 0 u.user_id

-- Channels.Find on the client's channels; no names give the root.
unfoldable pub find_channel_path : World → List Text → Option ℕ
unfolding find
find_channel_path w names = elim (Map.get w.channels 0) [
  | some root ↦ find w root names
  | none ↦ none
]

-- Users.Find.
unfoldable pub find_user : World → Map ℕ → Text → Option ℕ
find_user w [] name = none
find_user w ((_, u) ∷ m) name = elim (text_eq (w.user_at u).name name) [
  | true ↦ some u
  | false ↦ find_user w m name
]

-- (*Channel).Send: the channels and the trees of the text message.
unfoldable pub send_to : ℕ → Bool → List ℕ × List ℕ
send_to c true = ([], c ∷ [])
send_to c false = (c ∷ [], [])
