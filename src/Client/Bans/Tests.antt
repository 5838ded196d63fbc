-- ===== src/Client/Bans/Tests.antt =====
-- A ban of one address for a minute.
use gumble.Prelude.{ℕ, ◌≡◌, refl, none, some, [], ◌∷◌, arith}
use gumble.Client.{Bytes}
use gumble.Client.Bans.{BanEntry, ban_of, ban_list_packet, unban_user}
use gumble.Client.Bans.Returned.{kept_entry, ban_list_packet-ban_of}

abbrev minute : BanEntry
minute = record {
  address = 127 ∷ 0 ∷ 0 ∷ 1 ∷ [];
  mask = some 24;
  name = none;
  hash = none;
  reason = some (b'a' ∷ []);
  start = none;
  duration = some 60;
}

-- A mask that keeps its size as a byte.
abbrev small_mask : ℕ → ℕ → Bytes
small_mask ones bits = ones ∷ []

abbrev small_size : Bytes → ℕ
small_size [] = 0
small_size (ones ∷ _) = ones

ban_list_packet-ban_of_example :
    (ban_list_packet small_size (ban_of small_mask (λ _. 0) minute ∷ [])
      ≡ kept_entry (127 ∷ 0 ∷ 0 ∷ 1 ∷ []) 24 (some (b'a' ∷ [])) 60 ∷ [])
    × (ban_list_packet small_size (unban_user (ban_of small_mask (λ _. 0) minute) ∷ []) ≡ [])
ban_list_packet-ban_of_example =
    ban_list_packet-ban_of small_mask small_size (λ _. 0) minute 24 60 refl refl refl (omega arith)
      (omega arith)
