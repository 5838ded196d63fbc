-- ===== src/Util/Bitrate.antt =====
-- gumbleutil/bitrate.go: the size of the audio data, from the bitrate that the server allows,
-- and the audio fields of gumble/config.go.
use gumble.Prelude.{
  ℕ, true, ◌==◌, ◌+◌, ◌-◌, ◌*◌, ◌/◌, ◌^◌, ◌≤◌, ◌<◌, ◌≡◌, Option, none, some, leb, false,
  if◌then◌else◌, arith, if_cases,
}
use native.Mathlib.Nat.{le-div_iff_mul-le, div-lt_iff_lt-mul}
use gumble.Prelude.Int.{ℤ, pos, negsuc}
use gumble.Client.{ConnectEvent, connect}
use gumble.Client.Bans.{second}
use gumble.Util.{Listener, no_listener, notify}

-- The fields of the configuration that AutoBitrate uses; a duration is its nanoseconds.
pub record AudioConfig : Type 0 where
  pub audio_interval : ℕ
  pub audio_data_bytes : ℤ

-- NewConfig of gumble/config.go: 10 ms and 40 bytes.
abbrev pub new_config : AudioConfig
new_config = record { audio_interval = 10 * 1000 * 1000; audio_data_bytes = pos 40 }

-- AudioFrameSize of gumble/config.go: the samples of an interval, 480 for each 10 ms.
unfoldable pub audio_frame_size : AudioConfig → ℕ
audio_frame_size c = c.audio_interval / (10 * 1000 * 1000) * (48000 / 100)

-- `n - 32 - 10`
abbrev pub without_overhead : ℕ → ℤ
without_overhead n = if leb 42 n then pos (n - 32 - 10) else negsuc (32 + 10 - n - 1)

abbrev pub packet_rate : ℕ → ℕ
packet_rate interval = second / interval + 5

-- The function of Connect; `none` is the panic of a division by zero.
unfoldable pub set_data_bytes : ConnectEvent → Option AudioConfig → Option AudioConfig
set_data_bytes e none = none
set_data_bytes e (some c) = elim e.maximum_bitrate [
  | none ↦ some c
  | some bitrate ↦
      if c.audio_interval == 0
      then none
      else some (record c {
        audio_data_bytes = without_overhead (bitrate / (8 * packet_rate c.audio_interval));
      })
]

unfoldable pub auto_bitrate : Listener (Option AudioConfig)
unfolding set_data_bytes
auto_bitrate = record no_listener { on_connect = some set_data_bytes }

-- With k packets in a second, data of n bytes each fits the bitrate if five packets more would do so
-- too; a packet has 42 bytes besides, of 8 bits.
abbrev load : ℕ → ℕ → ℕ
load n k = (n + 42) * (8 * (k + 5))

-- The data fits at as many packets as there are intervals in a second, and one byte more does not. A
-- negative size is set where not even empty data fits.
abbrev pub Fits : ℕ → ℕ → ℤ → Type 0
Fits bitrate interval (pos n) =
    ((k : ℕ) → k * interval ≤ 10 ^ 9 → load n k ≤ bitrate)
    × ((k : ℕ) × (k * interval ≤ 10 ^ 9) × (bitrate < load (n + 1) k))
Fits bitrate interval (negsuc n) = (k : ℕ) × (k * interval ≤ 10 ^ 9) × (bitrate < load 0 k)

-- The number of intervals in a second.
intervals-most : (interval k : ℕ) → 0 < interval → k * interval ≤ 10 ^ 9 → k ≤ second / interval
intervals-most interval k h q = (le-div_iff_mul-le h).1 q

without_overhead-Fits :
    (bitrate interval : ℕ)
    → 0 < interval
    → Fits bitrate interval (without_overhead (bitrate / (8 * packet_rate interval)))
without_overhead-Fits bitrate interval h =
    if_cases (Fits bitrate interval) (leb 42 n) _ _
      (λ e. (λ k q. below e k ((le-div_iff_mul-le h).1 q), (most, all_fit, heavier e)))
      (λ e. (most, all_fit, empty e))
  where
    most : ℕ
    most = second / interval

    n : ℕ
    n = bitrate / (8 * packet_rate interval)

    positive : 0 < 8 * packet_rate interval
    positive = omega arith

    all_fit : most * interval ≤ 10 ^ 9
    all_fit = (le-div_iff_mul-le h).0 (omega arith)

    whole : n * (8 * (most + 5)) ≤ bitrate
    whole = (le-div_iff_mul-le positive).0 (omega arith)

    above : (m : ℕ) → n < m → bitrate < m * (8 * (most + 5))
    above m q = (div-lt_iff_lt-mul positive).0 q

    below : leb 42 n ≡ true → (k : ℕ) → k ≤ most → load (n - 32 - 10) k ≤ bitrate
    below e k q =
        let same : n - 32 - 10 + 42 ≡ n = ground arith in
        let more : n * (8 * (k + 5)) ≤ n * (8 * (most + 5)) = grind (arith, q) in
        rw same (omega (arith, more, whole))

    heavier : leb 42 n ≡ true → bitrate < load (n - 32 - 10 + 1) most
    heavier e = above _ (ground arith)

    empty : leb 42 n ≡ false → bitrate < load 0 most
    empty e = above 42 (ground arith)

-- On a connect event with a bitrate, and an audio interval above 0, AutoBitrate sets the data size, and
-- changes nothing else. It is the greatest that fits: with 42 bytes of overhead, as many packets as
-- there are whole intervals in a second, and five more, have at most the bits of the bitrate. It is
-- negative if not even empty data fits.
pub auto_bitrate-Fits :
    (c : AudioConfig) (e : ConnectEvent) (bitrate : ℕ)
    → e.maximum_bitrate ≡ some bitrate
    → 0 < c.audio_interval
    → (n : ℤ) × Fits bitrate c.audio_interval n
      × (notify auto_bitrate (connect e) (some c) ≡ some (record c { audio_data_bytes = n }))
unfolding auto_bitrate set_data_bytes notify
auto_bitrate-Fits c e bitrate q h =
    let positive : (c.audio_interval == 0) ≡ false = ground arith in
    (
      without_overhead (bitrate / (8 * packet_rate c.audio_interval)),
      without_overhead-Fits bitrate c.audio_interval h,
      rw (q, set_data_bytes, positive),
    )
