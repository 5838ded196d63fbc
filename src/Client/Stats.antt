-- ===== src/Client/Stats.antt =====
-- handleUserStats of gumble/handlers.go.
pub mod Safety
use gumble.Prelude.{ℕ, ◌*◌, Bool, true, false, Option, none, some, List, [], ◌∷◌}
use gumble.Prelude.Int.{ℤ}
use gumble.Map
use gumble.Version.{Version, ReceivedVersion, parse_version, or_else}
use gumble.Client.{World, Bytes, User, UserStats, UserStatsUdp, user_change}
use gumble.Client.Monad.{
  M, ◌>>=◌, ◌>>◌, pure, panic, invalid_protobuf, lock, unlock, world, set_world, emit, unmarshalled,
  required, some_or_throw,
}
use gumble.Client.Graph.{set_user}
use gumble.Client.UserRemove.{is_true}
use gumble.Client.Bans.{second}
use gumble.Client.UserChange

-- MumbleProto.UserStats_Stats.
pub record StatsPacket : Type 0 where
  pub good : Option ℕ
  pub late : Option ℕ
  pub lost : Option ℕ
  pub resync : Option ℕ

-- The fields of MumbleProto.UserStats that the handler reads; a certificate may be nil.
pub record UserStatsPacket : Type 0 where
  pub session : Option ℕ
  pub from_client : Option StatsPacket
  pub from_server : Option StatsPacket
  pub udp_packets : Option ℕ
  pub udp_ping_avg : Option ℕ
  pub udp_ping_var : Option ℕ
  pub tcp_packets : Option ℕ
  pub tcp_ping_avg : Option ℕ
  pub tcp_ping_var : Option ℕ
  pub version : Option ReceivedVersion
  pub onlinesecs : Option ℕ
  pub idlesecs : Option ℕ
  pub bandwidth : Option ℕ
  pub address : Option Bytes
  pub certificates : List (Option Bytes)
  pub strong_certificate : Option Bool
  pub celt_versions : List ℤ
  pub opus : Option Bool

-- `if packet.FromClient != nil { … }`
abbrev pub from_client_of : Option StatsPacket → UserStatsUdp
from_client_of none = record { good = 0; late = 0; lost = 0; resync = 0 }
from_client_of (some s) = record {
  good = or_else 0 s.good;
  late = or_else 0 s.late;
  lost = or_else 0 s.lost;
  resync = or_else 0 s.resync;
}

-- `if packet.FromClient.F != nil { … = *packet.FromClient.F }` in the block of FromServer.
abbrev pub late_of : StatsPacket → StatsPacket → UserStatsUdp
late_of server client = record {
  good = or_else 0 server.good;
  late = or_else 0 client.late;
  lost = or_else 0 client.lost;
  resync = or_else 0 client.resync;
}

-- `if packet.FromServer != nil { … }`, which reads through packet.FromClient.
unfoldable pub from_server_of : Option StatsPacket → Option StatsPacket → M UserStatsUdp
unfolding pure panic
from_server_of client none = pure (record { good = 0; late = 0; lost = 0; resync = 0 })
from_server_of none (some s) = panic
from_server_of (some c) (some s) = pure (late_of s c)

-- The certificates that parse.
abbrev pub certificates_of : (Bytes → Option ℕ) → List (Option Bytes) → List ℕ
certificates_of parse [] = []
certificates_of parse (none ∷ cs) = certificates_of parse cs
certificates_of parse (some b ∷ cs) = elim (parse b) [
  | some cert ↦ cert ∷ certificates_of parse cs
  | none ↦ certificates_of parse cs
]

abbrev pub version_of : Option ReceivedVersion → Version
version_of none = record { version = 0; release = []; os = []; os_version = [] }
version_of (some p) = parse_version p

-- The zero time, or `time.Now()` less so many seconds.
abbrev pub connected_of : (ℕ → ℕ) → Option ℕ → ℕ
connected_of ago none = 0
connected_of ago (some s) = ago s

-- `parse` is x509.ParseCertificate, and `ago s` the time s seconds before now.
unfoldable pub stats_of : (Bytes → Option ℕ) → (ℕ → ℕ) → UserStatsPacket → UserStatsUdp → UserStats
stats_of parse ago p from_server = record {
  from_client = from_client_of p.from_client;
  from_server = from_server;
  udp_packets = or_else 0 p.udp_packets;
  udp_ping_average = or_else 0 p.udp_ping_avg;
  udp_ping_variance = or_else 0 p.udp_ping_var;
  tcp_packets = or_else 0 p.tcp_packets;
  tcp_ping_average = or_else 0 p.tcp_ping_avg;
  tcp_ping_variance = or_else 0 p.tcp_ping_var;
  version = version_of p.version;
  connected = connected_of ago p.onlinesecs;
  idle = or_else 0 p.idlesecs * second;
  bandwidth = or_else 0 p.bandwidth;
  certificates = certificates_of parse p.certificates;
  strong_certificate = is_true p.strong_certificate;
  celt_versions = p.celt_versions;
  opus = is_true p.opus;
  ip = or_else [] p.address;
}

abbrev pub set_stats : ℕ → UserStats → World → World
set_stats u s w = let x = w.user_at u in set_user w u (record x { stats = some s })

unfoldable pub handle_user_stats :
    (Bytes → Option ℕ) → (ℕ → ℕ) → (Bytes → Option UserStatsPacket) → Bytes → M (Unit {0})
handle_user_stats parse ago unmarshal buffer = do
  packet ← unmarshalled unmarshal buffer
  session ← required packet.session
  w ← world
  u ← some_or_throw invalid_protobuf (Map.get w.users session)
  lock
  from_server ← from_server_of packet.from_client packet.from_server
  set_world (set_stats u (stats_of parse ago packet from_server) w)
  unlock
  emit (user_change (record { type = UserChange.stats; user = some u; actor = none; string = [] }))
