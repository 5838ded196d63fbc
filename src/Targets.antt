-- ===== src/Targets.antt =====
-- gumble/voicetarget.go, accesstokens.go and permission.go: the packets of voice targets and of access
-- tokens, and the test of a permission.
pub mod Bitmask
pub mod Resolved
use gumble.Prelude.{
  ℕ, Bool, true, false, Option, none, some, List, [], ◌∷◌, ◌++◌, map, ◌==◌, bit_and,
}
use gumble.Client.{World, Text}

-- voiceTargetChannel.
pub record VoiceTargetChannel : Type 0 where
  pub channel : ℕ
  pub links : Bool
  pub recursive : Bool
  pub group : Text

pub record VoiceTarget : Type 0 where
  pub id : ℕ
  pub users : List ℕ
  pub channels : List VoiceTargetChannel

abbrev pub voice_target_loopback : VoiceTarget
voice_target_loopback = record { id = 31; users = []; channels = [] }

unfoldable pub clear : VoiceTarget → VoiceTarget
clear v = record v { users = []; channels = [] }

unfoldable pub add_user : ℕ → VoiceTarget → VoiceTarget
add_user u v = record v { users = v.users ++ (u ∷ []) }

unfoldable pub add_channel : ℕ → Bool → Bool → Text → VoiceTarget → VoiceTarget
add_channel c recursive links group v = record v {
  channels =
      v.channels
      ++ (record { channel = c; links = links; recursive = recursive; group = group } ∷ []);
}

-- MumbleProto.VoiceTarget_Target, and a VoiceTarget is an id with a list of them.
pub record Target : Type 0 where
  pub session : List ℕ
  pub channel_id : Option ℕ
  pub group : Option Text
  pub links : Option Bool
  pub children : Option Bool

unfoldable pub user_target : World → ℕ → Target
user_target w u = record {
  session = (w.user_at u).session ∷ [];
  channel_id = none;
  group = none;
  links = none;
  children = none;
}

-- `if vtChannel.group != "" { target.Group = &vtChannel.group }`
abbrev pub optional_group : Text → Option Text
optional_group [] = none
optional_group (c ∷ cs) = some (c ∷ cs)

unfoldable pub channel_target : World → VoiceTargetChannel → Target
channel_target w c = record {
  session = [];
  channel_id = some (w.channel_at c.channel).id;
  group = optional_group c.group;
  links = some c.links;
  children = some c.recursive;
}

-- (*VoiceTarget).writeMessage: the id and the targets of the packet.
unfoldable pub voice_target_packet : World → VoiceTarget → ℕ × List Target
voice_target_packet w v = (v.id, map (user_target w) v.users ++ map (channel_target w) v.channels)

-- (AccessTokens).writeMessage: MumbleProto.Authenticate with its field of tokens only.
pub record Authenticate : Type 0 where
  pub username : Option Text
  pub password : Option Text
  pub tokens : List Text
  pub opus : Option Bool

unfoldable pub access_tokens_packet : List Text → Authenticate
access_tokens_packet tokens = record {
  username = none;
  password = none;
  tokens = tokens;
  opus = none;
}

-- The authentication packet of DialWithDialer; `opus` is whether a codec is registered.
unfoldable pub authentication_packet : Text → Text → List Text → Bool → Authenticate
authentication_packet username password tokens opus = record {
  username = some username;
  password = some password;
  tokens = tokens;
  opus = some opus;
}

-- (Permission).Has; a permission is not negative.
unfoldable pub has_permission : ℕ → ℕ → Bool
has_permission p o = bit_and p o == o
