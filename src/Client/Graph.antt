-- ===== src/Client/Graph.antt =====
-- The links between users and channels: the statements of the handlers that change them, one function
-- each. gumble/users.go, gumble/channels.go and the bodies in gumble/handlers.go.
pub mod Removal
use gumble.Prelude.{
  ℕ, suc, Bool, true, false, Option, none, some, List, [], ◌∷◌, ◌==◌, if◌then◌else◌,
}
use gumble.Map.{Map, store}
use gumble.Map
use gumble.Client.{Channel, User, World, new_channel, new_user}

-- `*u = x` and `*c = x`.
abbrev pub set_user : World → ℕ → User → World
set_user w u x = record w { user_at = store w.user_at u x }

abbrev pub set_channel : World → ℕ → Channel → World
set_channel w c x = record w { channel_at = store w.channel_at c x }

-- `Users.create`.
unfoldable pub create_user : ℕ → World → World
create_user session w = record w {
  users = Map.put w.users session w.next_user;
  user_at = store w.user_at w.next_user (new_user session);
  next_user = suc w.next_user;
}

-- `Channels.create`.
unfoldable pub create_channel : ℕ → World → World
create_channel id w = record w {
  channels = Map.put w.channels id w.next_channel;
  channel_at = store w.channel_at w.next_channel (new_channel id);
  next_channel = suc w.next_channel;
}

-- `c.Users[session] = u` and `delete(c.Users, session)`.
abbrev pub add_member : ℕ → ℕ → ℕ → World → World
add_member c session u w =
    let x = w.channel_at c in set_channel w c (record x { users = Map.put x.users session u })

abbrev pub drop_member : ℕ → ℕ → World → World
drop_member c session w =
    let x = w.channel_at c in set_channel w c (record x { users = Map.delete x.users session })

abbrev pub add_child : ℕ → ℕ → ℕ → World → World
add_child p id c w =
    let x = w.channel_at p in set_channel w p (record x { children = Map.put x.children id c })

abbrev pub drop_child : ℕ → ℕ → World → World
drop_child p id w =
    let x = w.channel_at p in set_channel w p (record x { children = Map.delete x.children id })

-- `u.Channel = c`.
abbrev pub set_location : ℕ → Option ℕ → World → World
set_location u c w = let x = w.user_at u in set_user w u (record x { channel = c })

-- `c.Parent = p`.
abbrev pub set_parent : ℕ → Option ℕ → World → World
set_parent c p w = let x = w.channel_at c in set_channel w c (record x { parent = p })

-- `if p != nil { … }`.
abbrev pub when_some : Option ℕ → (ℕ → World → World) → World → World
when_some none f w = w
when_some (some p) f w = f p w

-- The world in which a new user stands in channel `c`.
unfoldable pub place_user : ℕ → ℕ → ℕ → World → World
place_user u session c w = add_member c session u (set_location u (some c) w)

-- `delete(user.Channel.Users, user.Session)`, then the new channel, then the entry in it.
unfoldable pub move_user : ℕ → ℕ → World → World
move_user u c w =
    let x = w.user_at u in
    let away = when_some x.channel (λ old. drop_member old x.session) w in
    add_member c x.session u (set_location u (some c) away)

-- `delete(channel.Parent.Children, channelID)`, then the new parent and its entry.
unfoldable pub move_channel : ℕ → ℕ → Option ℕ → World → World
move_channel id c p w =
    let x = w.channel_at c in
    let away = when_some x.parent (λ old. drop_child old id) w in
    when_some p (λ q. add_child q x.id c) (set_parent c p away)

-- What `handleUserRemove` takes away.
unfoldable pub remove_user : ℕ → ℕ → World → World
remove_user u session w =
    let x = w.user_at u in
    let gone = set_user w u (record x { has_client = false }) in
    let away = when_some x.channel (λ c. drop_member c session) gone in
    record away { users = Map.delete away.users session }

-- `for _, link := range channel.Links { delete(link.Links, channelID) }`.
unfoldable pub unlink_all : Map ℕ → ℕ → World → World
unlink_all [] id w = w
unlink_all ((_, l) ∷ links) id w =
    let x = w.channel_at l in
    unlink_all links id (set_channel w l (record x { links = Map.delete x.links id }))

-- What `handleChannelRemove` takes away before the links.
unfoldable pub detach_channel : ℕ → ℕ → World → World
detach_channel c id w =
    let x = w.channel_at c in
    let gone = set_channel w c (record x { has_client = false }) in
    let left = record gone {
      channels = Map.delete gone.channels id;
      permissions = Map.delete gone.permissions id;
    } in
    when_some x.parent (λ p. drop_child p x.id) left

unfoldable pub remove_channel : ℕ → ℕ → World → World
unfolding detach_channel unlink_all
remove_channel c id w = unlink_all (w.channel_at c).links id (detach_channel c id w)
