-- ===== src/Client/Samples.antt =====
-- Small clients: an empty one, one with the root channel, and one with a user in it.
use gumble.Prelude.{replicate, refl, true, false, none, some, [], ◌∷◌, none-some}
use gumble.Map
use gumble.Listeners.{no_listeners}
use gumble.Client.{waiting, Client, World, new_channel, new_user, synced, error}
use gumble.Client.Consistent.{Consistent}
use gumble.Client.Sound.{IsIdle}
use gumble.Client.ChannelState.{ChannelState, apply_channel_state}
use gumble.Client.ChannelState.Graph.{apply_channel_state-Consistent}
use gumble.Client.UserState.{find_or_connect}
use gumble.Client.UserState.Graph.{find_or_connect-Consistent}

abbrev pub no_world : World
no_world = record {
  users = [];
  channels = [];
  permissions = [];
  user_at = λ _. new_user 0;
  channel_at = λ _. new_channel 0;
  next_user = 0;
  next_channel = 0;
}

pub no_world-Consistent : Consistent no_world
unfolding Map.get
no_world-Consistent = record {
  user_keys = λ s u h. absurd (none-some _ h);
  channel_keys = λ i c h. absurd (none-some _ h);
  located = λ s u c h k. absurd (none-some _ h);
  members = λ c s u h k. absurd (none-some _ k);
  parents = λ i c p h k. absurd (none-some _ h);
  children = λ p i c h k. absurd (none-some _ k);
}

-- A named channel below channel 0, with two links.
abbrev pub child_state : ChannelState
child_state = record {
  channel_id = some 1;
  parent = some 0;
  name = some (b'a' ∷ []);
  links = [];
  links_add = 0 ∷ [];
  links_remove = [];
  description = none;
  temporary = some true;
  position = none;
  description_hash = none;
  max_users = some 3;
}

abbrev pub root_state : ChannelState
root_state = record child_state { channel_id = some 0; parent = none; links_add = [] }

abbrev pub root_world : World
root_world = (apply_channel_state 0 root_state no_world).1

pub root_world-Consistent : Consistent root_world
root_world-Consistent = apply_channel_state-Consistent 0 root_state no_world-Consistent

abbrev pub client_of : World → Client
client_of w = record {
  self = none;
  world = w;
  state = synced;
  locked = false;
  disconnect_type = error;
  events = [];
  dial = waiting;
  connect_closed = false;
  end_closed = false;
  conn_closed = false;
  tmp_acl = none;
  context_actions = none;
  audio_codec = none;
  audio_encoder = none;
  audio_listeners = no_listeners;
  audio_streams = λ _. [];
  ping = record { received = 0; times = replicate 12 0; average = 0; variance = 0 };
}

pub idle : {w : World} → Consistent w → IsIdle (client_of w)
idle v = record { free = refl; consistent = v }

-- The user of session 5 in the root channel.
abbrev pub user_world : World
user_world = (find_or_connect 5 root_world).1

pub user_world-Consistent : Consistent user_world
user_world-Consistent = find_or_connect-Consistent root_world-Consistent 5
