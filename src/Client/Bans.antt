-- ===== src/Client/Bans.antt =====
-- handleBanList of gumble/handlers.go, and gumble/bans.go.
pub mod Returned
mod Tests
use gumble.Prelude.{
  ℕ, ◌*◌, ◌/◌, ◌%◌, ◌^◌, Bool, true, false, Option, none, some, List, [], ◌∷◌, ◌==◌, if◌then◌else◌,
  length, map,
}
use gumble.Client.{Text, Bytes, Ban, ban_list}
use gumble.Client.Monad.{M, ◌>>=◌, ◌>>◌, emit, unmarshalled}
use gumble.Client.UserRemove.{text_or_empty}

-- MumbleProto.BanList_BanEntry, and a BanList is a list of them.
pub record BanEntry : Type 0 where
  pub address : Bytes
  pub mask : Option ℕ
  pub name : Option Text
  pub hash : Option Text
  pub reason : Option Text
  pub start : Option Text
  pub duration : Option ℕ

-- `time.Second`
abbrev pub second : ℕ
second = 1000000000

-- The bits of an address: 32, or 128 for one of 16 bytes.
abbrev pub address_bits : Bytes → ℕ
address_bits a = if length a == 16 then 128 else 32

abbrev pub mask_of : (ℕ → ℕ → Bytes) → Bytes → Option ℕ → Bytes
mask_of cidr_mask a none = []
mask_of cidr_mask a (some ones) = cidr_mask ones (address_bits a)

abbrev pub start_of : (Text → ℕ) → Option Text → ℕ
start_of parse none = 0
start_of parse (some s) = parse s

-- A uint32 of seconds fits an int64 of nanoseconds.
abbrev pub duration_of : Option ℕ → ℕ
duration_of none = 0
duration_of (some d) = d * second

-- One round of the loop; `cidr_mask` is `net.CIDRMask`, and `parse` is `time.Parse` under RFC 3339.
unfoldable pub ban_of : (ℕ → ℕ → Bytes) → (Text → ℕ) → BanEntry → Ban
ban_of cidr_mask parse e = record {
  address = e.address;
  mask = mask_of cidr_mask e.address e.mask;
  name = text_or_empty e.name;
  hash = text_or_empty e.hash;
  reason = text_or_empty e.reason;
  start = start_of parse e.start;
  duration = duration_of e.duration;
  unban = false;
}

unfoldable pub handle_ban_list :
    (ℕ → ℕ → Bytes) → (Text → ℕ) → (Bytes → Option (List BanEntry)) → Bytes → M (Unit {0})
unfolding ban_of
handle_ban_list cidr_mask parse unmarshal buffer = do
  packet ← unmarshalled unmarshal buffer
  emit (ban_list (map (ban_of cidr_mask parse) packet))

-- (*BanList).Add.
unfoldable pub add_ban : Bytes → Bytes → Text → ℕ → Ban
add_ban address mask reason duration = record {
  address = address;
  mask = mask;
  name = [];
  hash = [];
  reason = reason;
  start = 0;
  duration = duration;
  unban = false;
}

unfoldable pub set_address : Ban → Bytes → Ban
set_address b address = record b { address = address }

unfoldable pub set_mask : Ban → Bytes → Ban
set_mask b mask = record b { mask = mask }

unfoldable pub set_reason : Ban → Text → Ban
set_reason b reason = record b { reason = reason }

unfoldable pub set_duration : Ban → ℕ → Ban
set_duration b duration = record b { duration = duration }

unfoldable pub unban_user : Ban → Ban
unban_user b = record b { unban = true }

unfoldable pub ban_user : Ban → Ban
ban_user b = record b { unban = false }

-- One entry of writeMessage; `mask_size` is the first result of `Mask.Size`.
unfoldable pub ban_entry : (Bytes → ℕ) → Ban → BanEntry
ban_entry mask_size b = record {
  address = b.address;
  mask = some (mask_size b.mask % 2 ^ 32);
  name = none;
  hash = none;
  reason = some b.reason;
  start = none;
  duration = some (b.duration / second % 2 ^ 32);
}

-- (BanList).writeMessage: the entries of the packet.
unfoldable pub ban_list_packet : (Bytes → ℕ) → List Ban → List BanEntry
unfolding ban_entry
ban_list_packet mask_size [] = []
ban_list_packet mask_size (b ∷ bs) =
    let rest = ban_list_packet mask_size bs in
    if b.unban then rest else ban_entry mask_size b ∷ rest
