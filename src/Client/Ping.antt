-- ===== src/Client/Ping.antt =====
-- handlePing of gumble/handlers.go: the times of the last twelve pings, and their statistics.
pub mod Window
mod Tests
use gumble.Prelude.{
  ℕ, zero, suc, ◌+◌, ◌-◌, ◌%◌, ◌^◌, Option, none, some, List, [], ◌∷◌, leb, if◌then◌else◌, length,
  take,
}
use gumble.Client.{Client, Bytes, PingStats}
use gumble.Client.Monad.{M, ◌>>=◌, ◌>>◌, pure, panic, client, modify, unmarshalled}

-- The operations of float32 on the bits of their operands; 0 is the bits of 0.0.
pub record FloatOps : Type 0 where
  pub add : ℕ → ℕ → ℕ
  pub subtract : ℕ → ℕ → ℕ
  pub multiply : ℕ → ℕ → ℕ
  pub divide : ℕ → ℕ → ℕ
  pub of_int : ℕ → ℕ

-- `for i := 1; i < len(times); i++ { times[i-1] = times[i] }`
unfoldable pub shift : List ℕ → List ℕ
shift [] = []
shift (x ∷ []) = x ∷ []
shift (x ∷ y ∷ xs) = y ∷ shift (y ∷ xs)

-- `times[i] = t`, for an index of the array.
unfoldable pub set_at : ℕ → ℕ → List ℕ → List ℕ
set_at i t [] = []
set_at zero t (x ∷ xs) = t ∷ xs
set_at (suc i) t (x ∷ xs) = x ∷ set_at i t xs

-- `for … { sum += f(x) }`
unfoldable pub sum_of : FloatOps → (ℕ → ℕ) → ℕ → List ℕ → ℕ
sum_of ops f sum [] = sum
sum_of ops f sum (x ∷ xs) = sum_of ops f (ops.add sum (f x)) xs

unfoldable pub average_of : FloatOps → List ℕ → ℕ
unfolding sum_of
average_of ops xs = ops.divide (sum_of ops (λ x. x) 0 xs) (ops.of_int (length xs))

unfoldable pub variance_of : FloatOps → ℕ → List ℕ → ℕ
unfolding sum_of
variance_of ops avg xs =
    let square : ℕ → ℕ = λ x. ops.multiply (ops.subtract avg x) (ops.subtract avg x) in
    ops.divide (sum_of ops square 0 xs) (ops.of_int (length xs))

-- `atomic.AddUint32(&c.tcpPacketsReceived, 1)`
abbrev pub count : PingStats → PingStats
count s = record s { received = (s.received + 1) % 2 ^ 32 }

-- The array and the index behind `if index >= len(c.tcpPingTimes) { … }`.
abbrev pub make_room : ℕ → List ℕ → List ℕ × ℕ
make_room index times =
    if leb (length times) index then (shift times, length times - 1) else (times, index)

abbrev pub note_at : FloatOps → ℕ → PingStats → List ℕ × ℕ → PingStats
note_at ops ping s (times, index) =
    let times' = set_at index ping times in
    let seen = take (suc index) times' in
    let avg = average_of ops seen in
    record s { times = times'; average = avg; variance = variance_of ops avg seen }

-- The body of `if packet.Timestamp != nil { … }`, for the number of packets; the index is one less, and
-- at -1 the array panics.
unfoldable pub note_ping : FloatOps → ℕ → ℕ → PingStats → Option PingStats
unfolding shift set_at average_of variance_of
note_ping ops ping zero s = none
note_ping ops ping (suc index) s = some (note_at ops ping s (make_room index s.times))

-- MumbleProto.Ping, as far as the handler reads it.
pub record Ping : Type 0 where
  pub timestamp : Option ℕ

-- `millis t` is float32 of the milliseconds since the time t.
unfoldable pub note_timestamp : FloatOps → (ℕ → ℕ) → Option ℕ → M (Unit {0})
unfolding ◌>>=◌ client modify pure panic note_ping
note_timestamp ops millis none = pure tt
note_timestamp ops millis (some t) = client >>= λ c.
    elim (note_ping ops (millis t) c.ping.received c.ping) [
      | none ↦ panic
      | some s ↦ modify (λ c. record c { ping = s })
    ]

unfoldable pub handle_ping : FloatOps → (ℕ → ℕ) → (Bytes → Option Ping) → Bytes → M (Unit {0})
handle_ping ops millis unmarshal buffer = do
  packet ← unmarshalled unmarshal buffer
  modify (λ c. record c { ping = count c.ping })
  note_timestamp ops millis packet.timestamp
