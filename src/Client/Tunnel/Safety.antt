-- ===== src/Client/Tunnel/Safety.antt =====
-- How handleUDPTunnel ends.
use gumble.Prelude.{
  ℕ, zero, suc, ◌≡◌, ◌≢◌, refl, true, false, Option, List, [], ◌∷◌, ◌++◌, drop, leb, length,
  if_cases, ◌==◌, Option-cases, inl, inr,
}
use gumble.Prelude.Int.{ℤ, pos, negsuc}
use gumble.Map
use gumble.Varint.{decode}
use gumble.Client.{Client, Bytes, AudioPacket}
use gumble.Client.Monad.{
  M, ◌>>=◌, ◌>>◌, returned, pure, throw, unlock, client, set_world, some_or_throw, invalid_protobuf,
  unsupported_audio, then_returned,
}
use gumble.Client.Consistent.{SameGraph-Consistent, set_user-SameGraph}
use gumble.Client.Sound.{
  IsIdle, Ends, well, with_error, some_or_throw-Ends, world-Ends, client-Ends, lock-Ends,
  throw-Ends,
}
use gumble.Client.Tunnel.{
  audio_type, require_opus, after_number, find_decoder, without_terminator, audio_size,
  send_to_items, handle_udp_tunnel,
}
use gumble.Client.Tunnel.Streams.{met, heard, with_streams, send_to_items_lem}

-- The bytes behind a number, and the third number behind the first byte.
abbrev pub behind : Bytes → Bytes
behind b = drop (decode b).1 b

abbrev pub length_field : Bytes → ℤ
length_field [] = pos 0
length_field (x ∷ b) = (decode (behind (behind b))).0

module _ {κ μ} {B : Type κ} {Q : B → Client → Type μ} where
  require_opus-Ends :
      (t : ℕ) (m : M B) (c : Client) → IsIdle c → Ends Q (m c) → Ends Q ((require_opus t >> m) c)
  unfolding require_opus ◌>>◌ ◌>>=◌ pure throw
  require_opus-Ends t m c i k =
      if_cases (λ o. Ends Q ((o >> m) c)) (t == 4) (pure tt) (throw unsupported_audio) (λ _. k)
        (λ _. with_error i)

  after_number-Ends :
      (r : ℤ × ℕ) (b : Bytes) (f : ℤ × Bytes → M B) (c : Client)
      → IsIdle c
      → Ends Q (f (r.0, drop r.1 b) c)
      → Ends Q ((after_number r b >>= f) c)
  unfolding after_number ◌>>=◌ pure throw
  after_number-Ends (v, zero) b f c i k = with_error i
  after_number-Ends (v, suc n) b f c i k = k

  find_decoder-Ends :
      (new_decoder : ℕ → ℕ) (u : ℕ) (f : ℕ → M B) (c : Client)
      → IsIdle c
      → ((d : ℕ) (c' : Client) → IsIdle c' → Ends Q (f d c'))
      → Ends Q ((find_decoder new_decoder u >>= f) c)
  unfolding find_decoder ◌>>=◌ ◌>>◌ client pure set_world some_or_throw throw
  find_decoder-Ends new_decoder u f c i k = elim (Option-cases (c.world.user_at u).decoder) [
    | inr (d, e) ↦ rw (e, find_decoder, ◌>>=◌) (k d c i)
    | inl e ↦ elim (Option-cases c.audio_codec) [
      | inl n ↦
          rw (e, n, find_decoder, ◌>>=◌)
            (with_error (record { free = i.free; consistent = i.consistent }))
      | inr (codec, s) ↦
          rw (e, s, find_decoder, ◌>>=◌)
            (k (new_decoder codec) _ (record {
              free = i.free;
              consistent =
                  SameGraph-Consistent (set_user-SameGraph c.world u _ refl refl) i.consistent;
            }))
    ]
  ]

  audio_size-Ends :
      (v : ℤ) (b : Bytes) (f : ℕ → M B) (c : Client)
      → IsIdle c
      → ((n : ℕ) → v ≢ negsuc n)
      → ((s : ℕ) → Ends Q (f s c))
      → Ends Q ((audio_size v b >>= f) c)
  unfolding audio_size ◌>>=◌ pure throw
  audio_size-Ends (negsuc n) b f c i h k = absurd (h n refl)
  audio_size-Ends (pos l) b f c i h k =
      if_cases (λ o. Ends Q ((o >>= f) c)) (leb (without_terminator l) (length b)) (pure _)
        (throw invalid_protobuf) (λ _. k _) (λ _. with_error i)

-- The items that the loop meets, from the head of the list.
abbrev pub all_met : Client → List ℕ
all_met c = met c.audio_listeners.next_item c.audio_listeners.item_at c.audio_listeners.head

-- The critical section: every listener that is met gets the packet, and the mutex is free again.
pub deliver_lem :
    (u : ℕ) (p : AudioPacket) (c : Client)
    → (send_to_items c.audio_listeners.next_item u p c.audio_listeners.head >> unlock)
        (record c { locked = true })
      ≡ returned tt (record c {
        locked = false;
        events = c.events ++ heard u p c.audio_listeners.item_at c.audio_streams (all_met c);
        audio_streams = with_streams u c.audio_streams (all_met c);
      })
unfolding unlock
deliver_lem u p c =
    then_returned (send_to_items c.audio_listeners.next_item u p c.audio_listeners.head) unlock
      (record c { locked = true })
      (send_to_items_lem u p c c.audio_listeners.next_item c.events c.audio_streams
        c.audio_listeners.head)

-- On an idle client handleUDPTunnel returns or gives an error for any bytes of which the third number
-- is not negative, it neither panics nor blocks, and the client is idle again.
pub handle_udp_tunnel-Ends :
    (new_decoder : ℕ → ℕ) (samples : ℕ → Bytes → ℕ → Option (List ℤ)) (buffer : Bytes) (c : Client)
    → IsIdle c
    → ((n : ℕ) → length_field buffer ≢ negsuc n)
    → Ends (λ _ d. IsIdle d) (handle_udp_tunnel new_decoder samples buffer c)
unfolding handle_udp_tunnel
handle_udp_tunnel-Ends new_decoder samples [] c i h = throw-Ends _ c i
handle_udp_tunnel-Ends new_decoder samples (x ∷ b) c i h = require_opus-Ends (audio_type x) _ c i (
    after_number-Ends (decode b) b _ c i (
      world-Ends _ c (
        some_or_throw-Ends _ (Map.get c.world.users _) _ c i λ u _.
          find_decoder-Ends new_decoder u _ c i λ d c' i'.
            after_number-Ends (decode (behind b)) (behind b) _ c' i' (
              after_number-Ends (decode (behind (behind b))) (behind (behind b)) _ c' i' (
                audio_size-Ends _ _ _ c' i' h λ s.
                  some_or_throw-Ends _ (samples d _ _) _ c' i'
                    λ pcm _. lock-Ends _ c' i'.free (client-Ends _ _ (delivered u _ c' i')))))))
  where
    delivered :
        (u : ℕ) (p : AudioPacket) (c : Client)
        → IsIdle c
        → Ends
            (λ _ d. IsIdle d)
            ((send_to_items c.audio_listeners.next_item u p c.audio_listeners.head >> unlock)
              (record c { locked = true }))
    delivered u p c i =
        rw (deliver_lem u p c) (well (record { free = refl; consistent = i.consistent }))
