-- ===== src/Client/Bans/Returned.antt =====
-- A ban list that comes from the server and goes back.
use gumble.Prelude.{ℕ, ◌*◌, ◌/◌, ◌%◌, ◌^◌, ◌<◌, ◌≡◌, refl, Option, none, some, [], ◌∷◌, arith}
use gumble.Client.{Text, Bytes}
use gumble.Client.UserRemove.{text_or_empty}
use gumble.Client.Bans.{
  BanEntry, ban_of, ban_entry, ban_list_packet, address_bits, second, unban_user,
}

-- What writeMessage keeps of an entry: the address, the size of the mask, the reason and the duration.
abbrev pub kept_entry : Bytes → ℕ → Option Text → ℕ → BanEntry
kept_entry address mask reason duration = record {
  address = address;
  mask = some mask;
  name = none;
  hash = none;
  reason = some (text_or_empty reason);
  start = none;
  duration = some duration;
}

seconds_back : (d : ℕ) → d < 2 ^ 32 → d * second / second % 2 ^ 32 ≡ d
seconds_back d h = omega arith

-- An entry of a ban list with a mask and a duration is sent back with the same address, mask, reason
-- and duration, if the mask's size is read back from the mask and both numbers are uint32; once it is unbanned, it
-- is not sent back.
pub ban_list_packet-ban_of :
    (cidr_mask : ℕ → ℕ → Bytes) (mask_size : Bytes → ℕ) (parse : Text → ℕ) (e : BanEntry) (n d : ℕ)
    → mask_size (cidr_mask n (address_bits e.address)) ≡ n
    → e.mask ≡ some n
    → e.duration ≡ some d
    → n < 2 ^ 32
    → d < 2 ^ 32
    → (ban_list_packet mask_size (ban_of cidr_mask parse e ∷ [])
        ≡ kept_entry e.address n e.reason d ∷ [])
      × (ban_list_packet mask_size (unban_user (ban_of cidr_mask parse e) ∷ []) ≡ [])
unfolding unban_user ban_list_packet ban_entry ban_of
ban_list_packet-ban_of cidr_mask mask_size parse e n d size em ed hn hd =
    (rw (em, ed, size, seconds_back d hd, small), refl)
  where
    small : n % 2 ^ 32 ≡ n
    small = omega arith
