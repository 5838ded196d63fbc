-- ===== src/UdpPing.antt =====
-- gumble/ping.go: Ping, which asks a server by UDP. What the network, the clock and the random source
-- give is a list of happenings, in the order in which the goroutines meet them.
pub mod Answers
mod Tests
use gumble.Prelude.{
  ℕ, zero, suc, ◌+◌, ◌-◌, ◌*◌, ◌^◌, Bool, true, false, Option, none, some, List, [], ◌∷◌, ◌++◌,
  take, drop, get_or, if◌then◌else◌,
}
use gumble.Prelude.Int.{ℤ, pos, negsuc}
use gumble.Client.{Bytes, text_eq}

pub record PingResponse : Type 0 where
  pub ping : ℕ
  pub version : ℕ
  pub connected_users : ℕ
  pub maximum_users : ℕ
  pub maximum_bitrate : ℕ

-- The map `ids`: the newest time of an id comes first.
abbrev pub Ids : Type 0
Ids = List (Bytes × ℕ)

unfoldable pub find_id : Bytes → Ids → Option ℕ
find_id id [] = none
find_id id ((i, t) ∷ ids) = if text_eq id i then some t else find_id id ids

pub data Happening : Type 0 where
  -- buildSendPacket at a time, with the eight random bytes, if there are any.
  send : ℕ → Option Bytes → Happening
  -- At a time, io.ReadFull gives 24 bytes.
  incoming : ℕ → Bytes → Happening
  -- io.ReadFull fails, as it does at the deadline.
  read_fails : Happening

unfoldable pub note_send : ℕ → Option Bytes → Ids → Ids
note_send t none ids = ids
note_send t (some id) ids = (id, t) ∷ ids

-- The packet that is sent.
unfoldable pub ping_packet : Bytes → Bytes
ping_packet id = 0 ∷ 0 ∷ 0 ∷ 0 ∷ id

-- `binary.BigEndian.Uint32`
abbrev pub uint32_of : Bytes → ℕ
uint32_of b = get_or b 0 0 * 2 ^ 24 + get_or b 1 0 * 2 ^ 16 + get_or b 2 0 * 2 ^ 8 + get_or b 3 0

-- `incoming[4:12]`
abbrev pub id_of : Bytes → Bytes
id_of b = take 8 (drop 4 b)

unfoldable pub response_of : ℕ → Bytes → PingResponse
response_of elapsed b = record {
  ping = elapsed;
  version = uint32_of b;
  connected_users = uint32_of (drop 12 b);
  maximum_users = uint32_of (drop 16 b);
  maximum_bitrate = uint32_of (drop 20 b);
}

pub data PingResult : Type 0 where
  responded : PingResponse → PingResult
  read_error : PingResult
  negative_timeout : PingResult
  dial_error : PingResult
  -- The list has ended and the function has not returned.
  waiting : PingResult

-- The loop, with the packets that are sent in between.
unfoldable pub ping_loop : List Happening → Ids → PingResult
unfolding find_id note_send response_of
ping_loop [] ids = waiting
ping_loop (send t id ∷ hs) ids = ping_loop hs (note_send t id ids)
ping_loop (read_fails ∷ hs) ids = read_error
ping_loop (incoming t b ∷ hs) ids =
    let rest = ping_loop hs ids in
    elim (find_id (id_of b) ids) [ none ↦ rest | some sent ↦ responded (response_of (t - sent) b) ]

-- Ping, where `dials` says whether the connection is made, and a first packet is sent at a time.
unfoldable pub ping : ℤ → Bool → ℕ → Option Bytes → List Happening → PingResult
unfolding ping_loop note_send
ping (negsuc n) dials t id hs = negative_timeout
ping (pos n) false t id hs = dial_error
ping (pos n) true t id hs = ping_loop hs (note_send t id [])
