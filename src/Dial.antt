-- ===== src/Dial.antt =====
-- DialWithDialer and pingRoutine of gumble/client.go: the client that is made, how long the dial waits
-- for the handshake, and the pings. A time is a number of nanoseconds, and `none` is the zero time.
pub mod Limit
pub mod Fresh
mod Tests
use gumble.Prelude.{
  ℕ, zero, suc, ◌+◌, ◌-◌, Bool, true, false, Option, none, some, List, [], ◌∷◌, ltb, if◌then◌else◌,
  replicate,
}
use gumble.Listeners.{no_listeners}
use gumble.Client.{
  Client, World, RejectError, connected, waiting, error, new_user, new_channel, PingStats,
}

abbrev empty_world : World
empty_world = record {
  users = [];
  channels = [];
  permissions = [];
  user_at = λ _. new_user 0;
  channel_at = λ _. new_channel 0;
  next_user = 0;
  next_channel = 0;
}

-- `&Client{ … }`, before its goroutines start.
unfoldable pub new_client : Client
new_client = record {
  self = none;
  world = empty_world;
  state = connected;
  locked = false;
  disconnect_type = error;
  events = [];
  dial = waiting;
  connect_closed = false;
  end_closed = false;
  conn_closed = false;
  tmp_acl = none;
  context_actions = none;
  audio_codec = none;
  audio_encoder = none;
  audio_listeners = no_listeners;
  audio_streams = λ _. [];
  ping = record { received = 0; times = replicate 12 0; average = 0; variance = 0 };
}

-- `if deadline.IsZero() || diff.Before(deadline) { deadline = diff }`
abbrev pub earlier : ℕ → Option ℕ → Option ℕ
earlier diff none = some diff
earlier diff (some d) = if ltb diff d then some diff else some d

-- The variable `deadline`, for the dialer's fields Deadline and Timeout.
unfoldable pub deadline_of : ℕ → Option ℕ → ℕ → Option ℕ
deadline_of start deadline zero = deadline
deadline_of start deadline (suc n) = earlier (start + suc n) deadline

-- When the timer fires: it is made at the time `now`, behind the TLS dial, to run for the time from
-- `start` to the deadline.
unfoldable pub fires_at : ℕ → ℕ → Option ℕ → Option ℕ
fires_at start now none = none
fires_at start now (some deadline) = some (now + (deadline - start))

pub data DialResult : Type 0 where
  -- The TLS connection is not made.
  not_connected : DialResult
  connected_client : DialResult
  rejected_by : RejectError → DialResult
  synchronization_timeout : DialResult
  -- Neither channel is ever ready.
  waits : DialResult

-- What is received from `connect`: nil once it is closed.
abbrev pub received : Option RejectError → DialResult
received none = connected_client
received (some err) = rejected_by err

-- The select, on the time when the timer fires and the time when `connect` is ready; where both are
-- ready at once, `timer_first` is the choice of the runtime.
unfoldable pub wait : Bool → Option ℕ → Option (ℕ × Option RejectError) → DialResult
wait timer_first none none = waits
wait timer_first none (some (t, err)) = received err
wait timer_first (some f) none = synchronization_timeout
wait timer_first (some f) (some (t, err)) =
    if ltb f t
    then synchronization_timeout
    else if ltb t f
    then received err
    else if timer_first
    then synchronization_timeout
    else received err

-- DialWithDialer: `dialed` is the time when the TLS dial is over, if it is.
unfoldable pub dial_with_dialer :
    Bool → ℕ → Option ℕ → Option ℕ → ℕ → Option (ℕ × Option RejectError) → DialResult
unfolding deadline_of fires_at wait
dial_with_dialer timer_first start none deadline timeout answer = not_connected
dial_with_dialer timer_first start (some now) deadline timeout answer =
    wait timer_first (fires_at start now (deadline_of start deadline timeout)) answer

-- The packet of pingRoutine.
pub record PingPacket : Type 0 where
  pub timestamp : ℕ
  pub tcp_packets : ℕ
  pub tcp_ping_avg : ℕ
  pub tcp_ping_var : ℕ

abbrev pub ping_packet : ℕ → PingStats → PingPacket
ping_packet t s = record {
  timestamp = t;
  tcp_packets = s.received;
  tcp_ping_avg = s.average;
  tcp_ping_var = s.variance;
}

-- What the select gives: a tick with its time and the statistics that the loop then reads, or `end`.
pub data Wake : Type 0 where
  tick : ℕ → PingStats → Wake
  ended : Wake

-- The packets of pingRoutine from the time t on.
unfoldable pub ping_routine : ℕ → PingStats → List Wake → List PingPacket
ping_routine t s [] = ping_packet t s ∷ []
ping_routine t s (ended ∷ ws) = ping_packet t s ∷ []
ping_routine t s (tick t' s' ∷ ws) = ping_packet t s ∷ ping_routine t' s' ws
