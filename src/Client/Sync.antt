-- ===== src/Client/Sync.antt =====
-- handleVersion, handleReject, handleServerSync, handleCodecVersion and handleSuggestConfig of
-- gumble/handlers.go, and the handlers that are not implemented.
pub mod Safety
mod Tests
use gumble.Prelude.{ℕ, Bool, true, false, Option, none, some, if◌then◌else◌}
use gumble.Prelude.Int.{ℤ}
use gumble.Map
use gumble.Version.{ReceivedVersion, or_else}
use gumble.Client.{
  Client, Text, Bytes, State, disconnected, connected, synced, Dial, waiting, timed_out, succeeded,
  rejected, RejectError, ConnectEvent, connect, server_config, no_server_config,
}
use gumble.Client.Monad.{
  M, ◌>>=◌, ◌>>◌, pure, throw, invalid_protobuf, unimplemented_handler, panicked, blocked, returned,
  lock, unlock, world, client, modify, emit, unmarshalled,
}
use gumble.Client.UserRemove.{text_or_empty, is_true}
use gumble.Client.Notices.{find_optional, or_zero}

-- handleAuthenticate, handleCryptSetup, handleContextAction, handleVoiceTarget, handleRequestBlob.
unfoldable pub handle_unimplemented : Bytes → M (Unit {0})
unfolding throw
handle_unimplemented buffer = throw unimplemented_handler

unfoldable pub handle_version : (Bytes → Option ReceivedVersion) → Bytes → M (Unit {0})
unfolding pure
handle_version unmarshal buffer = do packet ← unmarshalled unmarshal buffer; pure tt

-- The fields of MumbleProto.Reject.
pub record Reject : Type 0 where
  pub type : Option ℕ
  pub reason : Option Text

-- `c.State() != StateConnected`
unfoldable pub require_connected : M (Unit {0})
require_connected c = elim c.state [ connected ↦ returned tt c | _ ↦ throw invalid_protobuf c ]

-- `c.connect <- err`, which waits for a receiver: only a dialer that is still waiting is one.
unfoldable pub send_connect : RejectError → M (Unit {0})
send_connect err c =
    if c.connect_closed
    then panicked
    else elim c.dial [ waiting ↦ returned tt (record c { dial = rejected err }) | _ ↦ blocked ]

unfoldable pub handle_reject : (Bytes → Option Reject) → Bytes → M (Unit {0})
handle_reject unmarshal buffer = do
  packet ← unmarshalled unmarshal buffer
  require_connected
  send_connect (record { type = or_zero packet.type; reason = text_or_empty packet.reason })
  modify (λ c. record c { conn_closed = true })

-- The fields of MumbleProto.ServerSync that the handler reads.
pub record ServerSync : Type 0 where
  pub session : Option ℕ
  pub welcome_text : Option Text
  pub max_bandwidth : Option ℕ

abbrev pub welcome : ServerSync → ConnectEvent
welcome p = record { welcome_message = p.welcome_text; maximum_bitrate = p.max_bandwidth }

abbrev pub set_self : Option ℕ → Client → Client
set_self s c = record c { self = find_optional c.world.users s }

-- `if packet.Session != nil { … }`
unfoldable pub note_session : Option ℕ → M (Unit {0})
unfolding pure lock unlock modify ◌>>◌
note_session none = pure tt
note_session (some s) = lock >> (modify (set_self (some s)) >> unlock)

abbrev pub dial_closed : Dial → Dial
dial_closed waiting = succeeded
dial_closed d = d

-- `close(c.connect)`
unfoldable pub close_connect : M (Unit {0})
close_connect c =
    if c.connect_closed
    then panicked
    else returned tt (record c { connect_closed = true; dial = dial_closed c.dial })

unfoldable pub handle_server_sync : (Bytes → Option ServerSync) → Bytes → M (Unit {0})
handle_server_sync unmarshal buffer = do
  packet ← unmarshalled unmarshal buffer
  note_session packet.session
  modify (λ c. record c { state = synced })
  emit (connect (welcome packet))
  close_connect

-- The fields of MumbleProto.CodecVersion; GetPreferAlpha is true where the field is not set.
pub record CodecVersion : Type 0 where
  pub alpha : Option ℤ
  pub beta : Option ℤ
  pub prefer_alpha : Option Bool
  pub opus : Option Bool

-- `getAudioCodec(audioCodecIDOpus)`, which is `registered`, and NewEncoder of it.
abbrev pub find_codec : Bool → Option ℕ → Option ℕ
find_codec true registered = registered
find_codec false registered = none

-- `if codec != nil { … }`; `encoder` is what its NewEncoder returns.
unfoldable pub use_codec : (ℕ → ℕ) → Option ℕ → M (Unit {0})
unfolding pure lock unlock modify ◌>>◌
use_codec encoder none = pure tt
use_codec encoder (some codec) =
    modify (λ c. record c { audio_codec = some codec })
    >> (lock >> (modify (λ c. record c { audio_encoder = some (encoder codec) }) >> unlock))

unfoldable pub handle_codec_version :
    Option ℕ → (ℕ → ℕ) → (Bytes → Option CodecVersion) → Bytes → M (Unit {0})
handle_codec_version registered encoder unmarshal buffer = do
  packet ← unmarshalled unmarshal buffer
  let opus = is_true packet.opus
  use_codec encoder (find_codec opus registered)
  emit (
      server_config (record no_server_config {
        codec_alpha = packet.alpha;
        codec_beta = packet.beta;
        codec_prefer_alpha = some (or_else true packet.prefer_alpha);
        codec_opus = some opus;
      }))

-- The fields of MumbleProto.SuggestConfig.
pub record SuggestConfig : Type 0 where
  pub version : Option ℕ
  pub positional : Option Bool
  pub push_to_talk : Option Bool

unfoldable pub handle_suggest_config : (Bytes → Option SuggestConfig) → Bytes → M (Unit {0})
handle_suggest_config unmarshal buffer = do
  packet ← unmarshalled unmarshal buffer
  emit (
      server_config (record no_server_config {
        suggest_version = packet.version;
        suggest_positional = packet.positional;
        suggest_push_to_talk = packet.push_to_talk;
      }))
