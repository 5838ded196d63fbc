-- ===== src/Util/Groups.antt =====
-- UserGroups of gumbleutil/acl.go: the groups of a user, from the events that follow the request.
pub mod Answer
use gumble.Prelude.{
  ℕ, Bool, true, false, ◌&&◌, ◌||◌, not, Option, none, some, List, [], ◌∷◌, ◌++◌, ◌==◌, bit_and,
  if◌then◌else◌,
}
use gumble.Map
use gumble.Map.{Map}
use gumble.Client.{
  Text, Event, Acl, AclGroup, AclUser, DisconnectType, ChannelChangeEvent, PermissionDeniedEvent,
}
use gumble.Client.ChannelState.{ref_eq}
use gumble.Client.UserRemove.{is_some}
use gumble.Client.UserState.{has}
use gumble.Client.ChannelChange
use gumble.Util.{Listener, no_listener, notify}

-- The channel that is returned and the listener. The application is taken to receive what is sent, and
-- `failed` is the panic of closing a closed channel.
pub record Groups : Type 0 where
  pub attached : Bool
  pub closed : Bool
  pub sent : List (List Text)
  pub failed : Bool

-- `close(ch)`
unfoldable pub close_groups : Groups → Groups
close_groups s = if s.closed then record s { failed = true } else record s { closed = true }

abbrev pub detach_groups : Groups → Groups
detach_groups s = record s { attached = false }

-- `m[id] != nil`
abbrev pub has_user : Map AclUser → ℕ → Bool
has_user m id = elim (Map.get m id) [ none ↦ false | some u ↦ true ]

abbrev pub belongs : ℕ → AclGroup → Bool
belongs id g =
    (has_user g.users_add id || has_user g.users_inherited id) && not (has_user g.users_remove id)

-- The loop over `e.ACL.Groups`.
unfoldable pub names_of : ℕ → List AclGroup → List Text
names_of id [] = []
names_of id (g ∷ gs) = let rest = names_of id gs in if belongs id g then g.name ∷ rest else rest

unfoldable pub on_removal : ℕ → ChannelChangeEvent → Groups → Groups
unfolding close_groups
on_removal channel e s =
    if ref_eq e.channel (some channel) && has e.type ChannelChange.removed
    then close_groups (detach_groups s)
    else s

-- PermissionDeniedPermission is 1, and so is PermissionWrite.
unfoldable pub on_denial : ℕ → PermissionDeniedEvent → Groups → Groups
unfolding close_groups
on_denial channel e s =
    if ref_eq e.channel (some channel) && ((e.type == 1) && not (bit_and e.permission 1 == 0))
    then close_groups (detach_groups s)
    else s

unfoldable pub on_groups : ℕ → ℕ → Acl → Groups → Groups
unfolding close_groups names_of
on_groups id channel a s =
    if not (a.channel == channel)
    then s
    else let d = detach_groups s in
      close_groups (record d { sent = d.sent ++ (names_of id a.groups ∷ []) })

-- The listener, for the user's id at the time of the event.
unfoldable pub groups_listener : ℕ → ℕ → Listener Groups
unfolding on_removal on_denial on_groups close_groups
groups_listener id channel = record no_listener {
  on_disconnect = some (λ t s. close_groups (detach_groups s));
  on_channel_change = some (on_removal channel);
  on_permission_denied = some (on_denial channel);
  on_acl = some (on_groups id channel);
}

-- UserGroups, and then the events with the user's id, for as long as the listener is attached.
unfoldable pub request_groups : Bool → Groups
unfolding close_groups
request_groups registered =
    let s : Groups = record { attached = false; closed = false; sent = []; failed = false } in
    if registered then record s { attached = true } else close_groups s

unfoldable pub deliver : ℕ → List (ℕ × Event) → Groups → Groups
unfolding groups_listener notify
deliver channel [] s = s
deliver channel ((id, e) ∷ es) s =
    deliver channel es (if s.attached then notify (groups_listener id channel) e s else s)
