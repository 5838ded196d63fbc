-- ===== src/Client/UserList.antt =====
-- handleUserList of gumble/handlers.go and gumble/userlist.go: the list of registered users.
pub mod Unchanged
use gumble.Prelude.{ℕ, Bool, true, false, ◌||◌, Option, none, some, List, [], ◌∷◌, if◌then◌else◌}
use gumble.Map
use gumble.Client.{World, Text, Bytes, RegisteredUser, user_list}
use gumble.Client.Monad.{M, ◌>>=◌, ◌>>◌, pure, panic, world, emit, unmarshalled}
use gumble.Client.UserRemove.{text_or_empty}
use gumble.Client.Notices.{find_optional}

-- MumbleProto.UserList_User, and a UserList is a list of them.
pub record UserListUser : Type 0 where
  pub user_id : Option ℕ
  pub name : Option Text
  pub last_seen : Option Text
  pub last_channel : Option ℕ

abbrev pub parse_optional : (Text → ℕ) → Option Text → ℕ
parse_optional parse none = 0
parse_optional parse (some s) = parse s

-- `RegisteredUser{ … }` with its optional fields.
abbrev pub registered_user : (Text → ℕ) → World → UserListUser → ℕ → RegisteredUser
registered_user parse w u i = record {
  user_id = i;
  name = text_or_empty u.name;
  last_seen = parse_optional parse u.last_seen;
  last_channel = find_optional w.channels u.last_channel;
  changed = false;
  deregister = false;
}

-- The loop over `packet.Users`.
unfoldable pub registered_users : (Text → ℕ) → World → List UserListUser → M (List RegisteredUser)
unfolding pure panic ◌>>=◌
registered_users parse w [] = pure []
registered_users parse w (u ∷ us) =
    let rest = registered_users parse w us in
    elim u.user_id [ none ↦ panic | some i ↦ rest >>= λ l. pure (registered_user parse w u i ∷ l) ]

-- `parse` is `time.ParseInLocation` under RFC 3339.
unfoldable pub handle_user_list :
    (Text → ℕ) → (Bytes → Option (List UserListUser)) → Bytes → M (Unit {0})
handle_user_list parse unmarshal buffer = do
  packet ← unmarshalled unmarshal buffer
  w ← world
  users ← registered_users parse w packet
  emit (user_list users)

unfoldable pub set_name : RegisteredUser → Text → RegisteredUser
set_name r name = record r { name = name; changed = true }

unfoldable pub deregister_user : RegisteredUser → RegisteredUser
deregister_user r = record r { deregister = true }

unfoldable pub register_user : RegisteredUser → RegisteredUser
register_user r = record r { deregister = false }

-- The loop of writeMessage: a user who is taken off the list has no name in the packet.
unfoldable pub user_list_users : List RegisteredUser → List UserListUser
user_list_users [] = []
user_list_users (r ∷ rs) =
    let rest = user_list_users rs in
    if r.deregister || r.changed
    then record {
      user_id = some r.user_id;
      name = if r.deregister then none else some r.name;
      last_seen = none;
      last_channel = none;
    }
      ∷ rest
    else rest

-- (RegisteredUsers).writeMessage: the packet, if one is sent.
unfoldable pub user_list_packet : List RegisteredUser → Option (List UserListUser)
unfolding user_list_users
user_list_packet rs = elim (user_list_users rs) [ [] ↦ none | us ↦ some us ]
