-- ===== src/Client/Session/Tests.antt =====
-- A connection with a channel, a packet of an unknown type, and the user list, and then nothing, with and without a handshake.
use gumble.Prelude.{
  ℕ, suc, ◌+◌, ◌-◌, ◌*◌, ◌/◌, ◌≡◌, refl, none, some, List, [], ◌∷◌, ◌++◌, All, length, arith,
}
use gumble.Prelude.Int.{pos}
use gumble.Conn.{
  write_packet, unexpected_eof, read_packet, read_full, read_error, maximum_packet_bytes,
}
use gumble.Protocol.{Message, dispatch, handlers, handler_at, channel_state, codec_version}
use gumble.Client.{Client, Bytes}
use gumble.Client.Monad.{returned}
use gumble.Client.Samples.{child_state}
use gumble.Client.Sync.{ServerSync}
use gumble.Client.Session.Handshake.{IsGreeting, IsOver, read_routine-IsOver}
use gumble.Dial.{new_client}
use gumble.Dial.Fresh.{new_client-IsDialing}
use gumble.Client.Session.{Externals, read_routine}
use gumble.Client.Session.Harmless.{IsHarmless}
use gumble.Client.Session.Routine.{IsTame, frames}

abbrev greeting : ServerSync
greeting = record { session = none; welcome_text = some (b'h' ∷ []); max_bandwidth = some 72000 }

abbrev externals : Externals
externals = record {
  to_version = λ _. none;
  to_ping = λ _. none;
  to_reject = λ _. none;
  to_server_sync = λ _. some greeting;
  to_channel_remove = λ _. none;
  to_channel_state = λ _. some child_state;
  to_user_remove = λ _. none;
  to_user_state = λ _. none;
  to_ban_list = λ _. some [];
  to_text_message = λ _. none;
  to_permission_denied = λ _. none;
  to_acl = λ _. none;
  to_query_users = λ _. none;
  to_context_action_modify = λ _. none;
  to_user_list = λ _. none;
  to_permission_query = λ _. none;
  to_codec_version = λ _. none;
  to_user_stats = λ _. none;
  to_server_config = λ _. none;
  to_suggest_config = λ _. none;
  new_decoder = λ codec. codec;
  samples = λ d b n. some (pos 7 ∷ []);
  ops = record {
    add = λ x y. x + y;
    subtract = λ x y. x - y;
    multiply = λ x y. x * y;
    divide = λ x y. x / y;
    of_int = λ n. n;
  };
  millis = λ t. t;
  cidr_mask = λ n w. [];
  parse_time = λ s. 0;
  h9k = 9;
  registered_codec = some 4;
  new_encoder = λ codec. codec;
  parse_certificate = λ b. none;
  ago = λ s. s;
}

abbrev packets : List (ℕ × Bytes)
packets = (7, 1 ∷ 2 ∷ []) ∷ (30, []) ∷ (21, 3 ∷ []) ∷ []

channel-IsHarmless : (b : Bytes) (m : Message) → dispatch 7 ≡ some m → IsHarmless externals m b
unfolding dispatch handlers handler_at
channel-IsHarmless b m e = let same : channel_state ≡ m = cc in rw (← same) tt

unknown-IsHarmless : (b : Bytes) (m : Message) → dispatch 30 ≡ some m → IsHarmless externals m b
unfolding dispatch handlers handler_at
unknown-IsHarmless b m e = cc

codec-IsHarmless : (b : Bytes) (m : Message) → dispatch 21 ≡ some m → IsHarmless externals m b
unfolding dispatch handlers handler_at
codec-IsHarmless b m e = let same : codec_version ≡ m = cc in rw (← same) tt

packets-IsTame : All (IsTame externals) packets
packets-IsTame = (
  record { type_fits = omega arith; data_fits = omega arith; harmless = channel-IsHarmless _ },
  (
    record { type_fits = omega arith; data_fits = omega arith; harmless = unknown-IsHarmless _ },
    (
      record { type_fits = omega arith; data_fits = omega arith; harmless = codec-IsHarmless _ },
      tt,
    ),
  ),
)

closed : read_packet maximum_packet_bytes [] ≡ read_error unexpected_eof
unfolding read_packet read_full
closed = refl

greeting-IsGreeting : IsGreeting externals (5, 9 ∷ []) greeting
unfolding dispatch handlers handler_at
greeting-IsGreeting = record {
  is_sync = refl;
  type_fits = omega arith;
  data_fits = omega arith;
  parsed = refl;
}

-- The packets, the greeting, and the packets again.
read_routine-IsOver_example :
    (d : Client) × IsOver greeting new_client d
    × (read_routine
          (length packets + suc (length packets + 1))
          externals
          (frames packets ++ (write_packet 5 (9 ∷ []) ++ (frames packets ++ [])))
          new_client
        ≡ some (returned tt d))
read_routine-IsOver_example =
    read_routine-IsOver externals packets packets (5, 9 ∷ []) greeting [] unexpected_eof new_client
      packets-IsTame greeting-IsGreeting packets-IsTame closed new_client-IsDialing
