-- ===== src/ChannelPath/Tests.antt =====
-- Channels 1, named a, and 2, named aa, below the root, which is named r.
use gumble.Prelude.{ℕ, ◌+◌, ◌==◌, ◌≡◌, refl, inl, inr, some, List, [], ◌∷◌, length, if◌then◌else◌}
use gumble.Map
use gumble.Client.{World, new_channel}
use gumble.Client.Samples.{no_world}
use gumble.Requests.{find_channel_path}
use gumble.ChannelPath.{channel_path}
use gumble.ChannelPath.Found.{Holds, Chain, names, last_of, channel_path-find}

abbrev small_world : World
small_world = record no_world {
  channels = (0, 0) ∷ (1, 1) ∷ (2, 2) ∷ [];
  channel_at = λ n.
      if n == 0
      then record (new_channel 0) { name = b'r' ∷ []; children = (2, 2) ∷ (1, 1) ∷ [] }
      else if n == 1
      then record (new_channel 1) { name = b'a' ∷ []; parent = some 0 }
      else record (new_channel 2) { name = b'a' ∷ b'a' ∷ []; parent = some 0 };
  next_channel = 3;
}

small_known : Map.get small_world.channels 0 ≡ some 0
unfolding Map.get
small_known = refl

abbrev below : List ℕ
below = 1 ∷ []

small-Chain : Chain small_world 0 below
small-Chain = (refl, inr (inl refl), alone, tt)
  where
    alone :
        (d : ℕ)
        → Holds ((2, 2) ∷ (1, 1) ∷ []) d
        → (small_world.channel_at d).name ≡ b'a' ∷ []
        → d ≡ 1
    alone d (inl e) n = let other : b'a' ∷ b'a' ∷ [] ≡ b'a' ∷ [] = rw e at n in cc
    alone d (inr (inl e)) n = e
    alone d (inr (inr e)) n = absurd e

channel_path-find_example :
    (channel_path (length below + 1) small_world (some (last_of 0 below))
      ≡ some ((b'r' ∷ []) ∷ names small_world below))
    × (find_channel_path small_world (names small_world below) ≡ some (last_of 0 below))
channel_path-find_example = channel_path-find small_world 0 below small_known refl small-Chain
