-- ===== src/Client/Tunnel/Negative.antt =====
-- An audio packet whose length field is negative.
use gumble.Prelude.{ℕ, ◌%◌, ◌^◌, ◌≤◌, ◌<◌, ◌≡◌, ◌∙◌, refl, ap, Option, some, List, ◌∷◌, drop, arith}
use gumble.Prelude.Int.{ℤ, pos, negsuc}
use gumble.Map
use gumble.Varint.{decode}
use gumble.Client.{Client, Bytes}
use gumble.Client.Monad.{
  panic, panicked, pure, ◌>>=◌, bind_returned, then_returned, world_read, some_or_throw-some,
}
use gumble.Client.Tunnel.{
  audio_type, require_opus, read_number, find_decoder, audio_size, handle_udp_tunnel,
}
use gumble.Client.Tunnel.Heard.{read_number_lem, find_decoder_lem}

-- An opus packet of a known user with a decoder, of which the third number is negative, panics.
handle_udp_tunnel_panics :
    (new_decoder : ℕ → ℕ) (samples : ℕ → Bytes → ℕ → Option (List ℤ)) (c : Client)
    (first session v k n m u d : ℕ) (sequence : ℤ) (b : Bytes)
    → audio_type first ≡ 4
    → decode b ≡ (pos session, k)
    → decode (drop k b) ≡ (sequence, n)
    → decode (drop n (drop k b)) ≡ (negsuc v, m)
    → 1 ≤ k
    → 1 ≤ n
    → 1 ≤ m
    → session < 2 ^ 32
    → Map.get c.world.users session ≡ some u
    → (c.world.user_at u).decoder ≡ some d
    → handle_udp_tunnel new_decoder samples (first ∷ b) c ≡ panicked
unfolding handle_udp_tunnel require_opus pure
handle_udp_tunnel_panics new_decoder samples c first session v k n m u d sequence b t e1 e2 e3 hk hn
      hm small known ready =
    then_returned (require_opus (audio_type first)) _ c (rw t)
    ∙ bind_returned (read_number b) _ c (read_number_lem b c e1 hk)
    ∙ world_read _ c
    ∙ some_or_throw-some _ (Map.get c.world.users (session % 2 ^ 32)) _ c
        (ap (Map.get c.world.users) (omega arith) ∙ known)
    ∙ bind_returned (find_decoder new_decoder u) _ c (find_decoder_lem new_decoder u c ready)
    ∙ bind_returned (read_number (drop k b)) _ c (read_number_lem (drop k b) c e2 hn)
    ∙ bind_returned (read_number (drop n (drop k b))) _ c
        (read_number_lem (drop n (drop k b)) c e3 hm)
    ∙ unfold ◌>>=◌ audio_size panic in refl
