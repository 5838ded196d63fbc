-- ===== src/Client.antt =====
-- gumble/client.go, channel.go, user.go, userstats.go: the client and the objects that its handlers change.
-- Users and channels are shared by pointers, so they lie in two heaps, and a pointer is a number;
-- `nil` is `none`. A string is the list of its bytes. What the listeners of the configuration are
-- called with is logged in `events`; a listener is code of the application.
pub mod Events
pub mod Monad
pub mod UserChange
pub mod ChannelChange
pub mod Graph
pub mod Consistent
pub mod Sound
pub mod Safety
pub mod ChannelState
pub mod ChannelRemove
pub mod UserRemove
pub mod UserState
pub mod Notices
pub mod UserList
pub mod Bans
pub mod PermissionQuery
pub mod Sync
pub mod ContextActions
pub mod AccessControl
pub mod Stats
pub mod Ping
pub mod Texts
pub mod Tunnel
pub mod Quiet
pub mod Session
pub mod Samples
mod Tests
use gumble.Prelude.{
  ℕ, ◌≡◌, Bool, true, false, Option, none, some, List, [], ◌∷◌, ◌==◌, if◌then◌else◌, ◌&&◌,
}
use gumble.Prelude.Int.{ℤ}
unfoldable pub use Events.*
use gumble.Map.{Map, Heap}
use gumble.Version.{Version}
use gumble.Listeners.{Listeners}

pub record Channel : Type 0 where
  pub id : ℕ
  pub name : Text
  pub parent : Option ℕ
  pub children : Map ℕ
  pub links : Map ℕ
  pub users : Map ℕ
  pub description : Text
  pub description_hash : Option Bytes
  pub max_users : ℕ
  pub position : ℤ
  pub temporary : Bool
  -- `client != nil`
  pub has_client : Bool

-- Stats about UDP packets.
pub record UserStatsUdp : Type 0 where
  pub good : ℕ
  pub late : ℕ
  pub lost : ℕ
  pub resync : ℕ

-- A float32 is its bits, a time a number, and a duration the number of its nanoseconds; a certificate
-- is what the parser of package x509 gives.
pub record UserStats : Type 0 where
  pub from_client : UserStatsUdp
  pub from_server : UserStatsUdp
  pub udp_packets : ℕ
  pub udp_ping_average : ℕ
  pub udp_ping_variance : ℕ
  pub tcp_packets : ℕ
  pub tcp_ping_average : ℕ
  pub tcp_ping_variance : ℕ
  pub version : Version
  pub connected : ℕ
  pub idle : ℕ
  pub bandwidth : ℕ
  pub certificates : List ℕ
  pub strong_certificate : Bool
  pub celt_versions : List ℤ
  pub opus : Bool
  pub ip : Bytes

pub record User : Type 0 where
  pub session : ℕ
  pub user_id : ℕ
  pub name : Text
  pub channel : Option ℕ
  pub muted : Bool
  pub deafened : Bool
  pub suppressed : Bool
  pub self_muted : Bool
  pub self_deafened : Bool
  pub priority_speaker : Bool
  pub recording : Bool
  pub comment : Text
  pub comment_hash : Option Bytes
  pub hash : Text
  pub texture : Option Bytes
  pub texture_hash : Option Bytes
  pub stats : Option UserStats
  pub decoder : Option ℕ
  pub has_client : Bool

-- The zero values with the key set, as `Channels.create` and `Users.create` allocate them.
abbrev pub new_channel : ℕ → Channel
new_channel id = record {
  id = id;
  name = [];
  parent = none;
  children = [];
  links = [];
  users = [];
  description = [];
  description_hash = none;
  max_users = 0;
  position = ℤ.pos 0;
  temporary = false;
  has_client = false;
}

abbrev pub new_user : ℕ → User
new_user session = record {
  session = session;
  user_id = 0;
  name = [];
  channel = none;
  muted = false;
  deafened = false;
  suppressed = false;
  self_muted = false;
  self_deafened = false;
  priority_speaker = false;
  recording = false;
  comment = [];
  comment_hash = none;
  hash = [];
  texture = none;
  texture_hash = none;
  stats = none;
  decoder = none;
  has_client = false;
}

-- The part of the client that mirrors the server, with the heaps behind it. References from
-- `next_user` and `next_channel` on are free.
pub record World : Type 0 where
  pub users : Map ℕ
  pub channels : Map ℕ
  pub permissions : Map ℕ
  pub user_at : Heap User
  pub channel_at : Heap Channel
  pub next_user : ℕ
  pub next_channel : ℕ

pub data State : Type 0 where
  disconnected connected synced : State

pub record RejectError : Type 0 where
  pub type : ℕ
  pub reason : Text

-- What DialWithDialer has got from the channel `connect`: it waits, it has given up, the channel was
-- closed, or it has got an error.
pub data Dial : Type 0 where
  waiting timed_out succeeded : Dial
  rejected : RejectError → Dial

-- The statistics of the ping packets; a float32 is its bits.
pub record PingStats : Type 0 where
  pub received : ℕ
  pub times : List ℕ
  pub average : ℕ
  pub variance : ℕ

pub record Client : Type 0 where
  pub self : Option ℕ
  pub world : World
  pub state : State
  -- `volatile` is held by the goroutine that runs the handlers.
  pub locked : Bool
  pub disconnect_type : DisconnectType
  pub events : List Event
  pub dial : Dial
  -- The channels `connect` and `end`, and the connection, are closed.
  pub connect_closed : Bool
  pub end_closed : Bool
  pub conn_closed : Bool
  pub tmp_acl : Option Acl
  -- `none` is a nil map; the keys are the names.
  pub context_actions : Option (List ContextAction)
  pub audio_codec : Option ℕ
  pub audio_encoder : Option ℕ
  -- `Config.AudioListeners`, and for each of its items the users that have a stream there.
  pub audio_listeners : Listeners
  pub audio_streams : Heap (List ℕ)
  pub ping : PingStats
