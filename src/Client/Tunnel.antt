-- ===== src/Client/Tunnel.antt =====
-- handleUDPTunnel of gumble/handlers.go: an audio packet of another user.
pub mod Streams
pub mod Safety
pub mod Heard
pub mod Negative
mod Tests
use gumble.Prelude.{
  ℕ, zero, suc, ◌+◌, ◌-◌, ◌*◌, ◌/◌, ◌%◌, ◌^◌, bit_and, Bool, true, false, Option, none, some, List,
  [], ◌∷◌, ◌++◌, ◌==◌, leb, ◌||◌, if◌then◌else◌, length, take, drop,
}
use gumble.Prelude.Int.{ℤ, pos, negsuc}
use gumble.Map
use gumble.Map.{store}
use gumble.Varint.{decode, index}
use gumble.Client.{World, User, Bytes, AudioPacket, audio_stream, audio_packet}
use gumble.Client.Monad.{
  M, ◌>>=◌, ◌>>◌, pure, throw, panic, invalid_protobuf, unsupported_audio, no_codec, decoder_error,
  lock, unlock, client, modify, world, set_world, emit, some_or_throw,
}
use gumble.Client.Graph.{set_user}

-- `(b >> 5) & 0x7` and `b & 0x1F`.
abbrev pub audio_type : ℕ → ℕ
audio_type b = bit_and (b / 2 ^ 5) 0x7

abbrev pub audio_target : ℕ → ℕ
audio_target b = bit_and b 0x1f

-- `if audioType != audioCodecIDOpus { return errUnsupportedAudio }`
unfoldable pub require_opus : ℕ → M (Unit {0})
unfolding pure throw
require_opus t = if t == 4 then pure tt else throw unsupported_audio

-- A number and the bytes behind it, or an error where no byte was read.
unfoldable pub after_number : ℤ × ℕ → Bytes → M (ℤ × Bytes)
unfolding pure throw
after_number (v, zero) b = throw invalid_protobuf
after_number (v, suc n) b = pure (v, drop (suc n) b)

abbrev pub read_number : Bytes → M (ℤ × Bytes)
read_number b = after_number (decode b) b

-- `uint32(v)` of an int64.
abbrev pub to_uint32 : ℤ → ℕ
to_uint32 (pos n) = n % 2 ^ 32
to_uint32 (negsuc n) = 2 ^ 32 - 1 - n % 2 ^ 32

-- The user's decoder, or a new one of the codec.
unfoldable pub find_decoder : (ℕ → ℕ) → ℕ → M ℕ
unfolding ◌>>=◌ ◌>>◌ pure client set_world some_or_throw
find_decoder new_decoder u = client >>= λ c.
    let x = c.world.user_at u in
    elim x.decoder [
      | some d ↦ pure d
      | none ↦ some_or_throw no_codec c.audio_codec >>= λ codec.
          set_world (set_user c.world u (record x { decoder = some (new_decoder codec) }))
          >> pure (new_decoder codec)
    ]

-- `length &^ 0x2000`; where the int64 is negative it stays so, and the slice panics.
abbrev pub without_terminator : ℕ → ℕ
without_terminator l = l - bit_and l 0x2000

unfoldable pub audio_size : ℤ → Bytes → M ℕ
unfolding pure throw panic
audio_size (negsuc n) b = panic
audio_size (pos l) b =
    if leb (without_terminator l) (length b)
    then pure (without_terminator l)
    else throw invalid_protobuf

-- The bits of a float32 at a place of the slice.
abbrev pub little_endian32 : Bytes → ℕ → ℕ
little_endian32 b i =
    index b i + index b (i + 1) * 2 ^ 8 + index b (i + 2) * 2 ^ 16 + index b (i + 3) * 2 ^ 24

-- What is behind the audio data, if it is three float32.
abbrev pub position_of : Bytes → Option (ℕ × ℕ × ℕ)
position_of b =
    if length b == 3 * 4
    then some (little_endian32 b 0, little_endian32 b 4, little_endian32 b 8)
    else none

abbrev pub has_stream : ℕ → List ℕ → Bool
has_stream u [] = false
has_stream u (v ∷ vs) = v == u || has_stream u vs

-- The body of the loop without its locks: `item.streams[user]` is made where it is nil, and gets the
-- packet. The listener and the receiver are code of the application: the first is taken to leave the
-- list of listeners alone, the second to receive.
unfoldable pub send_to_item : ℕ → AudioPacket → ℕ → M (Unit {0})
unfolding ◌>>=◌ ◌>>◌ client modify emit
send_to_item u p i = client >>= λ c.
    let streams = c.audio_streams i in
    let listener = (c.audio_listeners.item_at i).listener in
    if has_stream u streams
    then emit (audio_packet listener p)
    else modify (λ c. record c { audio_streams = store c.audio_streams i (u ∷ streams) })
      >> (emit (audio_stream listener u) >> emit (audio_packet listener p))

-- The loop from an item on, for so many rounds. A link leads to an item that was made later, so as many
-- rounds as there are items are enough.
unfoldable pub send_to_items : ℕ → ℕ → AudioPacket → Option ℕ → M (Unit {0})
unfolding ◌>>=◌ ◌>>◌ pure client lock unlock send_to_item
send_to_items rounds u p none = pure tt
send_to_items zero u p (some i) = pure tt
send_to_items (suc rounds) u p (some i) =
    unlock
    >> (send_to_item u p i
        >> (lock >> (client >>= λ c. send_to_items rounds u p (c.audio_listeners.item_at i).next)))

-- `new_decoder` is the codec's NewDecoder, and `samples d data n` what Decode of the decoder d returns.
unfoldable pub handle_udp_tunnel :
    (ℕ → ℕ) → (ℕ → Bytes → ℕ → Option (List ℤ)) → Bytes → M (Unit {0})
unfolding throw
handle_udp_tunnel new_decoder samples [] = throw invalid_protobuf
handle_udp_tunnel new_decoder samples (first ∷ buffer) = do
  require_opus (audio_type first)
  (session, buffer) ← read_number buffer
  w ← world
  u ← some_or_throw invalid_protobuf (Map.get w.users (to_uint32 session))
  decoder ← find_decoder new_decoder u
  (_, buffer) ← read_number buffer
  (l, buffer) ← read_number buffer
  size ← audio_size l buffer
  pcm ← some_or_throw decoder_error (samples decoder (take size buffer) (48000 / 1000 * 60))
  lock
  c ← client
  send_to_items c.audio_listeners.next_item u
      (record {
        sender = u;
        target = audio_target first;
        audio_buffer = pcm;
        position = position_of (drop size buffer);
      })
      c.audio_listeners.head
  unlock
