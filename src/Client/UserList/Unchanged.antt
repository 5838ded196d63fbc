-- ===== src/Client/UserList/Unchanged.antt =====
-- A list of users that nobody changed, and one in which one user is renamed.
use gumble.Prelude.{◌≡◌, ◌∙◌, refl, ap, none, some, List, [], ◌∷◌, ◌++◌, false, arith}
use gumble.Client.{RegisteredUser, Text}
use gumble.Client.UserList.{
  UserListUser, set_name, deregister_user, user_list_users, user_list_packet,
}

-- None of them has been changed or taken off the list.
abbrev pub AllKept : List RegisteredUser → Type 0
AllKept [] = Unit {0}
AllKept (r ∷ rs) = ((r.changed ≡ false) × (r.deregister ≡ false)) × AllKept rs

kept_none : (rs : List RegisteredUser) → AllKept rs → user_list_users rs ≡ []
unfolding user_list_users
kept_none [] h = refl
kept_none (r ∷ rs) h = rw (h.0.0, h.0.1, kept_none rs h.1, user_list_users)

users-append :
    (rs ss : List RegisteredUser)
    → user_list_users (rs ++ ss) ≡ user_list_users rs ++ user_list_users ss
unfolding user_list_users
users-append [] ss = refl
users-append (r ∷ rs) ss = ground (arith, users-append rs ss)

packet-nothing : (rs : List RegisteredUser) → user_list_users rs ≡ [] → user_list_packet rs ≡ none
unfolding user_list_packet
packet-nothing rs e = rw (e, user_list_packet)

packet-one :
    (rs : List RegisteredUser) {u : UserListUser}
    → user_list_users rs ≡ u ∷ []
    → user_list_packet rs ≡ some (u ∷ [])
unfolding user_list_packet
packet-one rs e = rw (e, user_list_packet)

-- Only the user in the middle counts.
kept_around :
    (rs ss : List RegisteredUser) (r : RegisteredUser)
    → AllKept rs
    → AllKept ss
    → user_list_users (rs ++ (r ∷ ss)) ≡ user_list_users (r ∷ [])
unfolding user_list_users
kept_around rs ss r hr hs =
    users-append rs (r ∷ ss)
    ∙ ap (λ l. l ++ user_list_users (r ∷ ss)) (kept_none rs hr)
    ∙ rw (kept_none ss hs)

-- Of a list that the server sent, nothing is sent back while no user is changed; one who is renamed is
-- sent alone with the new name, and one who is deregistered alone without a name.
user_list_packet_lem :
    (rs ss : List RegisteredUser) (r : RegisteredUser) (name : Text)
    → AllKept rs
    → AllKept ss
    → r.deregister ≡ false
    → r.changed ≡ false
    → (user_list_packet (rs ++ (r ∷ ss)) ≡ none)
      × (user_list_packet (rs ++ (set_name r name ∷ ss))
          ≡ some (
              record {
                user_id = some r.user_id;
                name = some name;
                last_seen = none;
                last_channel = none;
              }
              ∷ []))
      × (user_list_packet (rs ++ (deregister_user r ∷ ss))
          ≡ some (
              record {
                user_id = some r.user_id;
                name = none;
                last_seen = none;
                last_channel = none;
              }
              ∷ []))
unfolding set_name deregister_user user_list_users
user_list_packet_lem rs ss r name hr hs d e = (
  packet-nothing _ (kept_around rs ss r hr hs ∙ rw (d, e)),
  packet-one _ (kept_around rs ss (set_name r name) hr hs ∙ rw (d)),
  packet-one _ (kept_around rs ss (deregister_user r) hr hs),
)
