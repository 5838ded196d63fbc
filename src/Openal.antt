-- ===== src/Openal.antt =====
-- gumbleopenal/stream.go: the playback of a user's stream, and the capture of samples. The OpenAL
-- library is a parameter: its calls on a source, with what its manual says of them.
pub mod Samples
pub mod Buffers
pub mod Panic
pub mod Source
mod Tests
use gumble.Prelude.{
  ℕ, zero, suc, ◌+◌, ◌-◌, ◌*◌, ◌/◌, ◌%◌, ◌^◌, ◌≤◌, ◌≡◌, Bool, true, false, Option, none, some, List,
  [], ◌∷◌, ◌++◌, ltb, ◌==◌, if◌then◌else◌, length, take, drop,
}
use gumble.Prelude.Int.{ℤ, pos, negsuc}
use gumble.Conn.{Bytes}

-- The calls on an OpenAL source of type S; a buffer is its name, a number. `elapse t` is what the
-- device does by itself in the time t.
pub record SourceOps (S : Type 0) : Type 0 where
  pub buffers_processed : S → ℕ
  pub unqueue_buffers : ℕ → S → List ℕ × S
  pub set_data : ℕ → Bytes → S → S
  pub queue_buffer : ℕ → S → S
  pub is_playing : S → Bool
  pub play : S → S
  pub elapse : ℕ → S → S

-- What the manual says: a source has a queue of buffers, whose first ones are processed; these are
-- what is unqueued, and a buffer is queued at the end. A buffer keeps the data that it was given.
pub record SourceLaws {S : Type 0} (o : SourceOps S) : Type 0 where
  pub queued : S → List ℕ
  pub data_of : S → ℕ → Bytes
  pub processed_bound : (s : S) → o.buffers_processed s ≤ length (queued s)
  pub unqueue_front :
      (n : ℕ) (s : S)
      → n ≤ o.buffers_processed s
      → ((o.unqueue_buffers n s).0 ≡ take n (queued s))
        × (queued (o.unqueue_buffers n s).1 ≡ drop n (queued s))
  pub set_data_queued : (b : ℕ) (d : Bytes) (s : S) → queued (o.set_data b d s) ≡ queued s
  pub set_data_stored : (b : ℕ) (d : Bytes) (s : S) → data_of (o.set_data b d s) b ≡ d
  pub queue_back : (b : ℕ) (s : S) → queued (o.queue_buffer b s) ≡ queued s ++ (b ∷ [])
  pub queue_stored : (b : ℕ) (s : S) → data_of (o.queue_buffer b s) ≡ data_of s
  pub play_queued : (s : S) → queued (o.play s) ≡ queued s
  pub play_stored : (s : S) → data_of (o.play s) ≡ data_of s
  pub elapse_queued : (t : ℕ) (s : S) → queued (o.elapse t s) ≡ queued s

-- `len(raw)`, which is `gumble.AudioMaximumFrameSize * 2`.
abbrev pub raw_size : ℕ
raw_size = 48000 / 1000 * 60 * 2

-- `uint16(value)` of an int16, and back.
abbrev pub to_uint16 : ℤ → ℕ
to_uint16 (pos n) = n % 2 ^ 16
to_uint16 (negsuc n) = 2 ^ 16 - 1 - n % 2 ^ 16

abbrev pub to_int16 : ℕ → ℤ
to_int16 w = if ltb w (2 ^ 15) then pos w else negsuc (2 ^ 16 - w - 1)

-- The loop of `binary.LittleEndian.PutUint16(raw[i*2:], uint16(value))`: where two bytes are not left
-- it panics.
unfoldable pub fill : List ℤ → Bytes → Option Bytes
fill [] raw = some raw
fill (v ∷ vs) (_ ∷ _ ∷ raw) = elim (fill vs raw) [
  | none ↦ none
  | some rest ↦ some (to_uint16 v % 2 ^ 8 ∷ to_uint16 v / 2 ^ 8 ∷ rest)
]
fill (v ∷ vs) _ = none

-- The local variables of the goroutine.
pub record Player (S : Type 0) : Type 0 where
  pub source : S
  pub empty_bufs : List ℕ
  pub raw : Bytes

-- `emptyBufs[:last]` and `emptyBufs[last]`.
unfoldable pub split_last : List ℕ → Option (List ℕ × ℕ)
split_last [] = none
split_last (b ∷ bs) = elim (split_last bs) [
  | none ↦ some ([], b)
  | some (rest, last) ↦ some (b ∷ rest, last)
]

module _ {S : Type 0} (o : SourceOps S) where
  unfoldable pub reclaim : Player S → Player S
  reclaim p =
      let n = o.buffers_processed p.source in
      if ltb 0 n
      then record p {
        source = (o.unqueue_buffers n p.source).1;
        empty_bufs = p.empty_bufs ++ (o.unqueue_buffers n p.source).0;
      }
      else p

  -- The data, the queue, and Play where the source does not play.
  unfoldable pub submit : ℕ → Bytes → S → S
  submit b d s =
      let s' = o.queue_buffer b (o.set_data b d s) in if o.is_playing s' then s' else o.play s'

  -- What follows `reclaim()`.
  unfoldable pub queue_packet : ℕ → Player S → Player S
  unfolding submit split_last
  queue_packet samples p = elim (split_last p.empty_bufs) [
    | none ↦ p
    | some (rest, b) ↦ record p {
      source = submit b (take (samples * 2) p.raw) p.source;
      empty_bufs = rest;
    }
  ]

  -- The body of `for packet := range e.C`; `none` is a panic.
  unfoldable pub play_packet : List ℤ → Player S → Option (Player S)
  unfolding fill reclaim queue_packet
  play_packet xs p = if ltb raw_size (length xs) then some p else elim (fill xs p.raw) [
    | none ↦ none
    | some raw ↦ some (queue_packet (length xs) (reclaim (record p { raw = raw })))
  ]

  -- The packets of the stream, each after some time.
  unfoldable pub play_all : List (ℕ × List ℤ) → Player S → Option (Player S)
  unfolding play_packet
  play_all [] p = some p
  play_all ((t, xs) ∷ ps) p = elim (play_packet xs (record p { source = o.elapse t p.source })) [
    | none ↦ none
    | some p' ↦ play_all ps p'
  ]

  -- The buffers that are deleted once the channel is closed.
  unfoldable pub deleted : Player S → List ℕ
  unfolding reclaim
  deleted p = (reclaim p).empty_bufs

-- The loop over `int16Buffer` in sourceRoutine, on a slice of two bytes for each sample.
unfoldable pub samples_of : Bytes → List ℤ
samples_of (a ∷ b ∷ buff) = to_int16 (a + b * 2 ^ 8) ∷ samples_of buff
samples_of _ = []

-- What is sent for a capture, if it has the size of a frame.
unfoldable pub captured : ℕ → Bytes → Option (List ℤ)
unfolding samples_of
captured frame_size buff = if length buff == frame_size * 2 then some (samples_of buff) else none
