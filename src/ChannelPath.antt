-- ===== src/ChannelPath.antt =====
-- gumbleutil/channel.go: the path of a channel, from the root on.
pub mod Reversal
pub mod Found
mod Tests
use gumble.Prelude.{ℕ, zero, suc, ◌-◌, ◌/◌, Option, none, some, List, [], ◌∷◌, length, get_or}
use gumble.Client.{Channel, World, Text}

-- `for ; channel != nil; channel = channel.Parent { pieces = append(pieces, channel.Name) }`; `none` is
-- a loop that has no fuel left.
unfoldable pub pieces_of : ℕ → World → Option ℕ → Option (List Text)
pieces_of fuel w none = some []
pieces_of zero w (some c) = none
pieces_of (suc fuel) w (some c) = elim (pieces_of fuel w (w.channel_at c).parent) [
  | some pieces ↦ some ((w.channel_at c).name ∷ pieces)
  | none ↦ none
]

-- `pieces[i] = s`, for an index of the slice.
unfoldable pub set_piece : ℕ → Text → List Text → List Text
set_piece i s [] = []
set_piece zero s (x ∷ xs) = s ∷ xs
set_piece (suc i) s (x ∷ xs) = x ∷ set_piece i s xs

-- `pieces[len(pieces)-1-i], pieces[i] = pieces[i], pieces[len(pieces)-1-i]`
abbrev pub swap_at : ℕ → List Text → List Text
swap_at i xs =
    let j = length xs - 1 - i in set_piece i (get_or xs j []) (set_piece j (get_or xs i []) xs)

-- The loop, with `rounds` rounds to go.
unfoldable pub swap_from : ℕ → ℕ → List Text → List Text
unfolding set_piece
swap_from zero i xs = xs
swap_from (suc rounds) i xs = swap_from rounds (suc i) (swap_at i xs)

unfoldable pub channel_path : ℕ → World → Option ℕ → Option (List Text)
unfolding pieces_of swap_from
channel_path fuel w c = elim (pieces_of fuel w c) [
  | some pieces ↦ some (swap_from (length pieces / 2) 0 pieces)
  | none ↦ none
]
