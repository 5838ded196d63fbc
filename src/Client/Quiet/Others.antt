-- ===== src/Client/Quiet/Others.antt =====
-- The handlers of lists, statistics, pings and audio, and of the server's configuration, are quiet.
use gumble.Prelude.{ℕ, Option-cases, inl, inr, zero, suc, Option, none, some, List, [], ◌∷◌}
use gumble.Prelude.Int.{ℤ, pos, negsuc}
use gumble.Version.{ReceivedVersion}
use gumble.Client.{Client, Text, Bytes, AudioPacket}
use gumble.Client.Monad.{◌>>=◌, ◌>>◌, pure, panic, modify, some_or_throw, no_codec, set_world}
use gumble.Client.Bans.{BanEntry, handle_ban_list}
use gumble.Client.Notices.{
  TextMessagePacket, handle_text_message, ServerConfig, handle_server_config,
}
use gumble.Client.Sync.{
  handle_unimplemented, handle_version, use_codec, CodecVersion, handle_codec_version,
  SuggestConfig, handle_suggest_config,
}
use gumble.Client.AccessControl.{
  AclChanGroup, AclPacket, groups_of, handle_acl, QueryUsers, handle_query_users,
}
use gumble.Client.Stats.{StatsPacket, from_server_of, UserStatsPacket, handle_user_stats}
use gumble.Client.Ping.{FloatOps, Ping, note_ping, note_timestamp, handle_ping}
use gumble.Client.Tunnel.{
  require_opus, after_number, find_decoder, audio_size, send_to_item, send_to_items,
  handle_udp_tunnel,
}
use gumble.Client.Graph.{set_user}
use gumble.Client.Quiet.{
  IsQuiet, quiet_rules, pure-IsQuiet, throw-IsQuiet, panic-IsQuiet, bind-IsQuiet, then-IsQuiet,
  client-IsQuiet, lock-IsQuiet, unlock-IsQuiet,
}

pub use_codec-IsQuiet : (encoder : ℕ → ℕ) (o : Option ℕ) → IsQuiet (use_codec encoder o)
unfolding use_codec
use_codec-IsQuiet encoder none = pure-IsQuiet tt
use_codec-IsQuiet encoder (some codec) = search quiet_rules

pub groups_of-IsQuiet : (gs : List AclChanGroup) → IsQuiet (groups_of gs)
unfolding groups_of
groups_of-IsQuiet [] = pure-IsQuiet []
groups_of-IsQuiet (g ∷ gs) = elim (Option-cases g.name) [
  | inl e ↦ rw (e, groups_of) (search quiet_rules)
  | inr (n, e) ↦ rw (e, groups_of) (search (groups_of-IsQuiet gs, quiet_rules))
]

pub from_server_of-IsQuiet : (c s : Option StatsPacket) → IsQuiet (from_server_of c s)
unfolding from_server_of
from_server_of-IsQuiet c none = pure-IsQuiet _
from_server_of-IsQuiet none (some s) = panic-IsQuiet
from_server_of-IsQuiet (some c) (some s) = pure-IsQuiet _

pub note_timestamp-IsQuiet :
    (ops : FloatOps) (millis : ℕ → ℕ) (t : Option ℕ) → IsQuiet (note_timestamp ops millis t)
unfolding note_timestamp
note_timestamp-IsQuiet ops millis none = pure-IsQuiet tt
note_timestamp-IsQuiet ops millis (some t) = bind-IsQuiet _ _ client-IsQuiet λ c.
    elim (note_ping ops (millis t) c.ping.received c.ping)
      as (λ o.
        IsQuiet {A = Unit {0}}
          (elim o [ none ↦ panic | some s ↦ modify (λ c. record c { ping = s }) ])) [
            | none ↦ panic-IsQuiet
            | some s ↦ search quiet_rules
          ]

pub require_opus-IsQuiet : (t : ℕ) → IsQuiet (require_opus t)
unfolding require_opus
require_opus-IsQuiet t = search quiet_rules

pub after_number-IsQuiet : (r : ℤ × ℕ) (b : Bytes) → IsQuiet (after_number r b)
unfolding after_number
after_number-IsQuiet (v, zero) b = throw-IsQuiet _
after_number-IsQuiet (v, suc n) b = pure-IsQuiet _

pub find_decoder-IsQuiet : (new_decoder : ℕ → ℕ) (u : ℕ) → IsQuiet (find_decoder new_decoder u)
unfolding find_decoder
find_decoder-IsQuiet new_decoder u =
    bind-IsQuiet _ _ client-IsQuiet λ c. cases c (c.world.user_at u).decoder
  where
    cases :
        (c : Client) (o : Option ℕ)
        → IsQuiet {A = ℕ} (elim o [
          | some d ↦ pure d
          | none ↦ some_or_throw no_codec c.audio_codec >>= λ codec.
              set_world (
                set_user c.world u
                  (record (c.world.user_at u) { decoder = some (new_decoder codec) }))
              >> pure (new_decoder codec)
        ])
    cases c (some d) = pure-IsQuiet d
    cases c none = search quiet_rules depth 8

pub audio_size-IsQuiet : (l : ℤ) (b : Bytes) → IsQuiet (audio_size l b)
unfolding audio_size
audio_size-IsQuiet (negsuc n) b = panic-IsQuiet
audio_size-IsQuiet (pos l) b = search quiet_rules

send_to_item-IsQuiet : (u : ℕ) (p : AudioPacket) (i : ℕ) → IsQuiet (send_to_item u p i)
unfolding send_to_item
send_to_item-IsQuiet u p i = search quiet_rules

pub send_to_items-IsQuiet :
    (rounds u : ℕ) (p : AudioPacket) (o : Option ℕ) → IsQuiet (send_to_items rounds u p o)
unfolding send_to_items
send_to_items-IsQuiet rounds u p none = pure-IsQuiet tt
send_to_items-IsQuiet zero u p (some i) = pure-IsQuiet tt
send_to_items-IsQuiet (suc rounds) u p (some i) = then-IsQuiet _ _ unlock-IsQuiet (
    then-IsQuiet _ _ (send_to_item-IsQuiet u p i) (
      then-IsQuiet _ _ lock-IsQuiet (
        bind-IsQuiet _ _ client-IsQuiet
          λ c. send_to_items-IsQuiet rounds u p (c.audio_listeners.item_at i).next)))

ruleset part_rules = (
  quiet_rules, use_codec-IsQuiet, groups_of-IsQuiet, from_server_of-IsQuiet, note_timestamp-IsQuiet,
  require_opus-IsQuiet, after_number-IsQuiet, find_decoder-IsQuiet, audio_size-IsQuiet,
  send_to_items-IsQuiet,
)

module _ (buffer : Bytes) where
  pub handle_unimplemented-IsQuiet : IsQuiet (handle_unimplemented buffer)
  unfolding handle_unimplemented
  handle_unimplemented-IsQuiet = throw-IsQuiet _

  pub handle_version-IsQuiet :
      (unmarshal : Bytes → Option ReceivedVersion) → IsQuiet (handle_version unmarshal buffer)
  unfolding handle_version
  handle_version-IsQuiet unmarshal = search part_rules

  pub handle_ban_list-IsQuiet :
      (cidr_mask : ℕ → ℕ → Bytes) (parse : Text → ℕ) (unmarshal : Bytes → Option (List BanEntry))
      → IsQuiet (handle_ban_list cidr_mask parse unmarshal buffer)
  unfolding handle_ban_list
  handle_ban_list-IsQuiet cidr_mask parse unmarshal = search part_rules

  pub handle_text_message-IsQuiet :
      (unmarshal : Bytes → Option TextMessagePacket)
      → IsQuiet (handle_text_message unmarshal buffer)
  unfolding handle_text_message
  handle_text_message-IsQuiet unmarshal = search part_rules depth 8

  pub handle_server_config-IsQuiet :
      (unmarshal : Bytes → Option ServerConfig) → IsQuiet (handle_server_config unmarshal buffer)
  unfolding handle_server_config
  handle_server_config-IsQuiet unmarshal = search part_rules

  pub handle_codec_version-IsQuiet :
      (registered : Option ℕ) (encoder : ℕ → ℕ) (unmarshal : Bytes → Option CodecVersion)
      → IsQuiet (handle_codec_version registered encoder unmarshal buffer)
  unfolding handle_codec_version
  handle_codec_version-IsQuiet registered encoder unmarshal = search part_rules depth 8

  pub handle_suggest_config-IsQuiet :
      (unmarshal : Bytes → Option SuggestConfig) → IsQuiet (handle_suggest_config unmarshal buffer)
  unfolding handle_suggest_config
  handle_suggest_config-IsQuiet unmarshal = search part_rules

  pub handle_acl-IsQuiet :
      (unmarshal : Bytes → Option AclPacket) → IsQuiet (handle_acl unmarshal buffer)
  unfolding handle_acl
  handle_acl-IsQuiet unmarshal = search part_rules depth 12

  pub handle_query_users-IsQuiet :
      (unmarshal : Bytes → Option QueryUsers) → IsQuiet (handle_query_users unmarshal buffer)
  unfolding handle_query_users
  handle_query_users-IsQuiet unmarshal = search part_rules depth 12

  pub handle_user_stats-IsQuiet :
      (parse : Bytes → Option ℕ) (ago : ℕ → ℕ) (unmarshal : Bytes → Option UserStatsPacket)
      → IsQuiet (handle_user_stats parse ago unmarshal buffer)
  unfolding handle_user_stats
  handle_user_stats-IsQuiet parse ago unmarshal = search part_rules depth 20

  pub handle_ping-IsQuiet :
      (ops : FloatOps) (millis : ℕ → ℕ) (unmarshal : Bytes → Option Ping)
      → IsQuiet (handle_ping ops millis unmarshal buffer)
  unfolding handle_ping
  handle_ping-IsQuiet ops millis unmarshal = search part_rules depth 8

pub handle_udp_tunnel-IsQuiet :
    (new_decoder : ℕ → ℕ) (samples : ℕ → Bytes → ℕ → Option (List ℤ)) (buffer : Bytes)
    → IsQuiet (handle_udp_tunnel new_decoder samples buffer)
unfolding handle_udp_tunnel
handle_udp_tunnel-IsQuiet new_decoder samples [] = throw-IsQuiet _
handle_udp_tunnel-IsQuiet new_decoder samples (first ∷ buffer) = search part_rules depth 30
