-- ===== src/Client/Tunnel/Tests.antt =====
-- A packet of user 5, who has a decoder, at a client with two audio listeners.
use gumble.Prelude.{
  ℕ, ◌*◌, ◌≡◌, ◌==◌, if◌then◌else◌, refl, true, some, Option, List, [], ◌∷◌, ◌++◌, take, replicate,
  arith,
}
use gumble.Prelude.Int.{ℤ, pos}
use gumble.Map
use gumble.Listeners.{no_listeners, audio_attach}
use gumble.Listeners.Forward.{Runs}
use gumble.Varint.{encode}
use gumble.Conn.{packet, read_packet, wrote, write_audio}
use gumble.Client.{Client, World, Bytes, new_user}
use gumble.Client.Monad.{returned}
use gumble.Client.Samples.{client_of, no_world}
use gumble.Client.Tunnel.{handle_udp_tunnel}
use gumble.Client.Tunnel.Heard.{after_packet, handle_udp_tunnel-write_audio}

abbrev new_decoder : ℕ → ℕ
new_decoder codec = codec

abbrev samples : ℕ → Bytes → ℕ → Option (List ℤ)
samples d b n = some (pos 7 ∷ [])

abbrev speaker_world : World
speaker_world = record no_world {
  users = (5, 0) ∷ [];
  user_at = λ _. record (new_user 5) { decoder = some 3 };
}

abbrev hearing : Client
hearing = record (client_of speaker_world) {
  audio_listeners = audio_attach 2 (audio_attach 1 no_listeners);
  audio_streams = λ i. if i == 1 then 0 ∷ [] else [];
}

hearing-Runs :
    Runs hearing.audio_listeners.item_at 0 hearing.audio_listeners.next_item
      hearing.audio_listeners.head
      (0 ∷ 1 ∷ [])
unfolding audio_attach
hearing-Runs = (refl, omega arith, omega arith, (refl, omega arith, omega arith, tt))

speaker_known : Map.get speaker_world.users 5 ≡ some 0
unfolding Map.get
speaker_known = refl

handle_udp_tunnel-write_audio_example :
    (frame : Bytes) × (first : ℕ) × (tail : Bytes) × (buffer : Bytes) × (k : ℕ) × (write_audio
        (λ _. true)
        4
        2
        (pos 9)
        true
        (1 ∷ 2 ∷ [])
        (some 7)
        (some 8)
        (some 9)
      ≡ wrote frame)
    × (read_packet (1024 * 1024 * 10) (frame ++ []) ≡ packet 1 (first ∷ tail) [])
    × (encode (replicate 10 0) (pos 5) ≡ some (buffer, k))
    × (handle_udp_tunnel new_decoder samples (first ∷ (take k buffer ++ tail)) hearing
        ≡ returned tt (
            after_packet 0
              (record {
                sender = 0;
                target = 2;
                audio_buffer = pos 7 ∷ [];
                position = some (7, 8, 9);
              })
              (0 ∷ 1 ∷ [])
              hearing))
handle_udp_tunnel-write_audio_example =
    handle_udp_tunnel-write_audio new_decoder samples (λ _. true) hearing (0 ∷ 1 ∷ []) 2 9 5 0 3
      true (1 ∷ 2 ∷ []) (some (7, 8, 9)) (pos 7 ∷ []) (λ _. refl) hearing-Runs (omega arith)
      (omega arith) (omega arith) (omega arith) (omega arith, omega arith, omega arith) refl
      speaker_known refl refl
