-- ===== src/Util/Tests.antt =====
-- A server of 72,000 bits per second, a channel whose groups are asked for, and a message.
use gumble.Prelude.{ℕ, ◌≡◌, refl, true, false, none, some, List, [], ◌∷◌, arith}
use gumble.Prelude.Int.{ℤ}
use gumble.Client.{Acl, AclGroup, ConnectEvent, Event, connect, disconnect, acl, user_list, error}
use gumble.Util.{notify}
use gumble.Util.Bitrate.{new_config, auto_bitrate, Fits, auto_bitrate-Fits}
use gumble.Util.Groups.{request_groups, deliver}
use gumble.Util.Groups.Answer.{Answer, FirstAnswer, outcome, deliver-FirstAnswer}

abbrev hello : ConnectEvent
hello = record { welcome_message = none; maximum_bitrate = some 72000 }

auto_bitrate-Fits_example :
    (n : ℤ) × Fits 72000 new_config.audio_interval n
    × (notify auto_bitrate (connect hello) (some new_config)
        ≡ some (record new_config { audio_data_bytes = n }))
auto_bitrate-Fits_example = auto_bitrate-Fits new_config hello 72000 refl (omega arith)

abbrev admins : AclGroup
admins = record {
  name = b'a' ∷ [];
  inherited = false;
  inherit_users = true;
  inheritable = true;
  users_add = (7, record { user_id = 7; name = [] }) ∷ [];
  users_remove = [];
  users_inherited = [];
}

abbrev rights : Acl
rights = record { channel = 3; groups = admins ∷ []; rules = []; inherits = true }

abbrev happenings : List (ℕ × Event)
happenings = (7, user_list []) ∷ (7, acl rights) ∷ (7, disconnect error) ∷ []

deliver-FirstAnswer_example :
    (a : Answer) × FirstAnswer 3 happenings a
    × (deliver 3 happenings (request_groups true) ≡ outcome a)
deliver-FirstAnswer_example = deliver-FirstAnswer 3 happenings
