-- ===== src/Client/Tunnel/Heard.antt =====
-- An audio packet from WriteAudio of one client to the listeners of another.
use gumble.Prelude.{
  ℕ, zero, suc, ◌+◌, ◌*◌, ◌/◌, ◌%◌, ◌^◌, ◌≤◌, ◌<◌, bit_and, bit_or, ◌≡◌, ◌∙◌, refl, ap, Bool, true,
  false, Option, none, some, List, [], ◌∷◌, ◌++◌, length, take, drop, replicate, arith,
  length-append, take-append_self, drop-append_self, le→leb,
}
use gumble.Prelude.Bits.{bit_and_low, bit_or_comm, bit_or_low, bit_and-power}
use gumble.Prelude.Int.{ℤ, pos}
use gumble.Map
use gumble.Varint.{encode, decode}
use gumble.Varint.RoundTrip.{encoding-reads}
use gumble.Conn.{packet, read_packet, audio_length, audio_first, wrote, write_audio}
use gumble.Conn.Audio.{
  Position, x_of, y_of, z_of, position_bytes, write_audio_lem, length-take_le, drop-append_at,
}
use gumble.Listeners.Forward.{Runs}
use gumble.Client.{Client, Bytes, AudioPacket}
use gumble.Client.Monad.{
  ◌>>=◌, returned, pure, client, bind_returned, then_returned, world_read, some_or_throw-some,
  lock_free,
}
use gumble.Client.Tunnel.{
  audio_type, audio_target, require_opus, after_number, read_number, find_decoder,
  without_terminator, audio_size, position_of, handle_udp_tunnel,
}
use gumble.Client.Tunnel.Streams.{met-Runs, heard, with_streams}
use gumble.Client.Tunnel.Safety.{all_met, deliver_lem}

first_sum : (target : ℕ) → target < 32 → audio_first 4 target ≡ 4 * 2 ^ 5 + target
first_sum target h = bit_or_low 5 4 target h

audio_type-audio_first : (target : ℕ) → target < 32 → audio_type (audio_first 4 target) ≡ 4
audio_type-audio_first target h =
    let q : audio_first 4 target / 2 ^ 5 ≡ 4 = omega (arith, first_sum target h) in
    ap (λ (t : ℕ). bit_and t 7) q

audio_target-audio_first : (target : ℕ) → target < 32 → audio_target (audio_first 4 target) ≡ target
audio_target-audio_first target h =
    omega (arith, first_sum target h, bit_and_low 5 (audio_first 4 target))

without_terminator-audio_length :
    (l : ℕ) (final : Bool) → l < 2 ^ 13 → without_terminator (audio_length l final) ≡ l
without_terminator-audio_length l true h =
    omega (arith, bit_or_comm l 0x2000, bit_or_low 13 1 l h, bit_and-power 13 (bit_or l 0x2000))
without_terminator-audio_length l false h = omega (arith, bit_and-power 13 l)

pub read_number_lem :
    (b : Bytes) (c : Client) {v : ℤ} {n : ℕ}
    → decode b ≡ (v, n)
    → 1 ≤ n
    → read_number b c ≡ returned (v, drop n b) c
unfolding after_number pure
read_number_lem b c {n = zero} e h = elim h [ ]
read_number_lem b c {n = suc n} e h = rw e

pub find_decoder_lem :
    (new_decoder : ℕ → ℕ) (u : ℕ) (c : Client) {d : ℕ}
    → (c.world.user_at u).decoder ≡ some d
    → find_decoder new_decoder u c ≡ returned d c
unfolding find_decoder ◌>>=◌ client pure
find_decoder_lem new_decoder u c e = rw e

audio_size_lem :
    (l : ℕ) (b : Bytes) (c : Client) {s : ℕ}
    → without_terminator l ≡ s
    → s ≤ length b
    → audio_size (pos l) b c ≡ returned s c
unfolding audio_size pure
audio_size_lem l b c e h = rw (e, le→leb _ _ h)

-- What the listeners at these items get of a packet: streams and packets in the order of the items, and
-- nothing else changes.
abbrev pub after_packet : ℕ → AudioPacket → List ℕ → Client → Client
after_packet u p is c = record c {
  locked = false;
  events = c.events ++ heard u p c.audio_listeners.item_at c.audio_streams is;
  audio_streams = with_streams u c.audio_streams is;
}

-- The bits of float32.
abbrev pub AreFloats : Position → Type 0
AreFloats none = Unit {0}
AreFloats (some (x, y, z)) = (x < 2 ^ 32) × (y < 2 ^ 32) × (z < 2 ^ 32)

bytes_sum :
    (v : ℕ)
    → v < 2 ^ 32
    → v % 256 + v / 2 ^ 8 % 256 * 2 ^ 8 + v / 2 ^ 16 % 256 * 2 ^ 16 + v / 2 ^ 24 % 256 * 2 ^ 24 ≡ v
bytes_sum v h = omega arith

position_of-position_bytes :
    (position : Position) → AreFloats position → position_of (position_bytes position) ≡ position
position_of-position_bytes none h = refl
position_of-position_bytes (some (x, y, z)) h =
    rw (bytes_sum x h.0, bytes_sum y h.1, bytes_sum z h.2) refl

-- The handler on bytes of which the parts are known.
handle_parts :
    (new_decoder : ℕ → ℕ) (samples : ℕ → Bytes → ℕ → Option (List ℤ)) (c : Client)
    (first session sequence l u d k n m : ℕ) (payload position b : Bytes) (pcm : List ℤ)
    → audio_type first ≡ 4
    → decode b ≡ (pos session, k)
    → decode (drop k b) ≡ (pos sequence, n)
    → decode (drop n (drop k b)) ≡ (pos l, m)
    → drop m (drop n (drop k b)) ≡ payload ++ position
    → 1 ≤ k
    → 1 ≤ n
    → 1 ≤ m
    → without_terminator l ≡ length payload
    → session < 2 ^ 32
    → c.locked ≡ false
    → Map.get c.world.users session ≡ some u
    → (c.world.user_at u).decoder ≡ some d
    → samples d payload (48000 / 1000 * 60) ≡ some pcm
    → handle_udp_tunnel new_decoder samples (first ∷ b) c
      ≡ returned tt (
          after_packet u
            (record {
              sender = u;
              target = audio_target first;
              audio_buffer = pcm;
              position = position_of position;
            })
            (all_met c)
            c)
unfolding handle_udp_tunnel require_opus pure client
handle_parts new_decoder samples c first session sequence l u d k n m payload position b pcm t e1 e2
      e3 r hk hn hm size small free known ready decoded =
    then_returned (require_opus (audio_type first)) _ c (rw t)
    ∙ bind_returned (read_number b) _ c (read_number_lem b c e1 hk)
    ∙ world_read _ c
    ∙ some_or_throw-some _ (Map.get c.world.users (session % 2 ^ 32)) _ c
        (ap (Map.get c.world.users) (omega arith) ∙ known)
    ∙ bind_returned (find_decoder new_decoder u) _ c (find_decoder_lem new_decoder u c ready)
    ∙ bind_returned (read_number (drop k b)) _ c (read_number_lem (drop k b) c e2 hn)
    ∙ bind_returned (read_number (drop n (drop k b))) _ c
        (read_number_lem (drop n (drop k b)) c e3 hm)
    ∙ bind_returned (audio_size (pos l) content) _ c (
        audio_size_lem l content c size
          (omega (arith, ap length r, length-append payload position)))
    ∙ some_or_throw-some _ (samples d (take (length payload) content) _) _ c (
        ap (λ x. samples d x (48000 / 1000 * 60))
          (ap (take (length payload)) r ∙ take-append_self payload position)
        ∙ decoded)
    ∙ lock_free _ c free
    ∙ bind_returned client _ (record c { locked = true }) refl
    ∙ deliver_lem u _ c
    ∙ ap
        (λ x. returned tt (
          after_packet u
            (record {
              sender = u;
              target = audio_target first;
              audio_buffer = pcm;
              position = position_of x;
            })
            (all_met c) c))
        (ap (drop (length payload)) r ∙ drop-append_self payload position)
  where
    content : Bytes
    content = drop m (drop n (drop k b))

-- A packet that WriteAudio writes for a target below 32, a sequence number that is an int64, less than
-- 2^13 bytes of data, and a position of three float32 or none, is read by ReadPacket as a first byte and
-- the rest. With the sender's session between the two, handleUDPTunnel of an idle client that knows the
-- sender, and has a decoder that takes the data, gives the listener of each item that the links lead to
-- from the head of the list one packet, with the sender, the target, the decoded samples and the same
-- position, after a new stream where the item has none of the sender, and changes nothing but events
-- and streams. Each link is taken to lead to an item that was made later, as those do that Attach and
-- Detach make.
pub handle_udp_tunnel-write_audio :
    (new_decoder : ℕ → ℕ) (samples : ℕ → Bytes → ℕ → Option (List ℤ)) (sends : ℕ → Bool)
    (c : Client) (is : List ℕ) (target sequence session u d : ℕ) (final : Bool) (payload : Bytes)
    (position : Position) (pcm : List ℤ)
    → ((n : ℕ) → sends n ≡ true)
    → Runs c.audio_listeners.item_at 0 c.audio_listeners.next_item c.audio_listeners.head is
    → target < 32
    → sequence < 2 ^ 63
    → session < 2 ^ 32
    → length payload < 2 ^ 13
    → AreFloats position
    → c.locked ≡ false
    → Map.get c.world.users session ≡ some u
    → (c.world.user_at u).decoder ≡ some d
    → samples d payload (48000 / 1000 * 60) ≡ some pcm
    → (frame : Bytes) × (first : ℕ) × (tail : Bytes) × (buffer : Bytes) × (k : ℕ) × (write_audio
          sends 4 target
          (pos sequence)
          final
          payload
          (x_of position)
          (y_of position)
          (z_of position)
        ≡ wrote frame)
      × (read_packet (1024 * 1024 * 10) (frame ++ []) ≡ packet 1 (first ∷ tail) [])
      × (encode (replicate 10 0) (pos session) ≡ some (buffer, k))
      × (handle_udp_tunnel new_decoder samples (first ∷ (take k buffer ++ tail)) c
          ≡ returned tt (
              after_packet u
                (record { sender = u; target = target; audio_buffer = pcm; position = position })
                is
                c))
handle_udp_tunnel-write_audio new_decoder samples sends c is target sequence session u d final
      payload position pcm all runs ht hq hs hl hp free known ready decoded =
    let (frame, written, f) =
      write_audio_lem sends 4 target sequence final payload position [] all hq hl in
    let (buffer, k, e, k1, k10, size, _, reads) =
      encoding-reads (replicate 10 0) (pos session) (omega arith) (omega (arith, hs)) (λ q. cc) in
    let behind : drop k (take k buffer ++ f.tail) ≡ f.tail =
      drop-append_at k (take k buffer) f.tail
        (length-take_le k buffer (omega (arith, size, k10))) in
    let packet_of : ℕ → Position → AudioPacket =
      λ t x. record { sender = u; target = t; audio_buffer = pcm; position = x } in
    (
      frame,
      audio_first 4 target,
      f.tail,
      buffer,
      k,
      written,
      f.framed ∙ ap (λ b. packet 1 b []) f.first,
      e,
      handle_parts new_decoder samples c (audio_first 4 target) session sequence
            (audio_length (length payload) final) u d k f.n f.m payload (position_bytes position)
            (take k buffer ++ f.tail) pcm (audio_type-audio_first target ht) (reads f.tail)
            (rw behind f.sequenced) (rw behind f.sized) (rw behind f.carried) k1 f.n_positive
            f.m_positive (without_terminator-audio_length (length payload) final hl) hs free known
            ready decoded
          ∙ ap
              (λ t. returned tt (
                after_packet u (packet_of t (position_of (position_bytes position))) (all_met c) c))
              (audio_target-audio_first target ht)
          ∙ ap (λ x. returned tt (after_packet u (packet_of target x) (all_met c) c))
              (position_of-position_bytes position hp)
          ∙ ap (λ l. returned tt (after_packet u (packet_of target position) l c))
              (met-Runs c.audio_listeners.next_item 0 c.audio_listeners.next_item
                c.audio_listeners.item_at c.audio_listeners.head is runs (omega arith)),
    )
