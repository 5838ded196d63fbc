-- ===== src/Requests/Tests.antt =====
-- A channel that is renamed and a user who is muted.
use gumble.Prelude.{replicate, ◌≡◌, refl, true, false, none, some, [], ◌∷◌}
use gumble.Map
use gumble.Listeners.{no_listeners}
use gumble.Client.Monad.{emit_if_synced}
use gumble.Client.UserChange
use gumble.Client.UserState.{handle_user_state}
use gumble.Client.{waiting, Client, user_change, synced, error, World, new_channel, new_user}
use gumble.Client.Graph.{set_user}
use gumble.Requests.{set_muted}
use gumble.Requests.Echo.{user_setters_echo}

abbrev tree : World
tree = record {
  users = [];
  channels = (4, 0) ∷ [];
  permissions = [];
  user_at = λ _. new_user 0;
  channel_at = λ _. new_channel 4;
  next_user = 0;
  next_channel = 1;
}

abbrev client : Client
client = record {
  self = none;
  world = record tree { users = (3, 0) ∷ []; user_at = λ _. new_user 3; next_user = 1 };
  state = synced;
  locked = false;
  disconnect_type = error;
  events = [];
  dial = waiting;
  connect_closed = false;
  end_closed = false;
  conn_closed = false;
  tmp_acl = none;
  context_actions = none;
  audio_codec = none;
  audio_encoder = none;
  audio_listeners = no_listeners;
  audio_streams = λ _. [];
  ping = record { received = 0; times = replicate 12 0; average = 0; variance = 0 };
}

user_known : Map.get client.world.users 3 ≡ some 0
unfolding Map.get
user_known = refl

-- User 3 is muted, and everyone hears of it.
user_setters_echo_example :
    handle_user_state (λ _. some (set_muted (new_user 3) true)) [] client
    ≡ emit_if_synced
        (user_change (record { type = UserChange.audio; user = some 0; actor = none; string = [] }))
        (record client { world = set_user client.world 0 (record (new_user 3) { muted = true }) })
user_setters_echo_example = (user_setters_echo client 0 true [] refl user_known).0
