-- ===== src/Client/Consistent.antt =====
-- The graph of users and channels is consistent, and every change that a handler makes keeps it so.
pub mod Users
pub mod Channels
pub mod Parents
use gumble.Prelude.{
  ℕ, suc, ◌+◌, ◌<◌, ◌≡◌, refl, ◌∙◌, Option, none, some, ◌==◌, if◌then◌else◌, arith, List, [], ◌∷◌,
}
use gumble.Map.{Map, store, get-put, get-delete}
use gumble.Map
use gumble.Client.{World, User, Channel}
use gumble.Client.Graph.{
  set_user, set_channel, create_user, create_channel, place_user, move_user, move_channel,
  remove_user, unlink_all, remove_channel,
}

-- Each map leads to allocated objects that carry its key, and the two directions of each relation
-- agree: a user's channel with the channel's users, and a channel's parent with its children.
pub record Consistent (w : World) : Type 0 where
  pub user_keys :
      (s u : ℕ) → Map.get w.users s ≡ some u → (u < w.next_user) × ((w.user_at u).session ≡ s)
  pub channel_keys :
      (i c : ℕ) → Map.get w.channels i ≡ some c → (c < w.next_channel) × ((w.channel_at c).id ≡ i)
  pub located :
      (s u c : ℕ)
      → Map.get w.users s ≡ some u
      → (w.user_at u).channel ≡ some c
      → (c < w.next_channel) × (Map.get (w.channel_at c).users s ≡ some u)
  pub members :
      (c s u : ℕ)
      → c < w.next_channel
      → Map.get (w.channel_at c).users s ≡ some u
      → (Map.get w.users s ≡ some u) × ((w.user_at u).channel ≡ some c)
  pub parents :
      (i c p : ℕ)
      → Map.get w.channels i ≡ some c
      → (w.channel_at c).parent ≡ some p
      → (p < w.next_channel) × (Map.get (w.channel_at p).children i ≡ some c)
  pub children :
      (p i c : ℕ)
      → p < w.next_channel
      → Map.get (w.channel_at p).children i ≡ some c
      → (Map.get w.channels i ≡ some c) × ((w.channel_at c).parent ≡ some p)

-- Two worlds that differ at most in what no link between users and channels goes by.
pub record SameGraph (w w' : World) : Type 0 where
  pub users : w'.users ≡ w.users
  pub channels : w'.channels ≡ w.channels
  pub next_user : w'.next_user ≡ w.next_user
  pub next_channel : w'.next_channel ≡ w.next_channel
  pub session : (u : ℕ) → (w'.user_at u).session ≡ (w.user_at u).session
  pub channel : (u : ℕ) → (w'.user_at u).channel ≡ (w.user_at u).channel
  pub id : (c : ℕ) → (w'.channel_at c).id ≡ (w.channel_at c).id
  pub parent : (c : ℕ) → (w'.channel_at c).parent ≡ (w.channel_at c).parent
  pub children : (c : ℕ) → (w'.channel_at c).children ≡ (w.channel_at c).children
  pub members : (c : ℕ) → (w'.channel_at c).users ≡ (w.channel_at c).users

pub same_graph : (w : World) → SameGraph w w
same_graph w = record {
  users = refl;
  channels = refl;
  next_user = refl;
  next_channel = refl;
  session = λ u. refl;
  channel = λ u. refl;
  id = λ c. refl;
  parent = λ c. refl;
  children = λ c. refl;
  members = λ c. refl;
}

pub SameGraph-trans : {a b c : World} → SameGraph a b → SameGraph b c → SameGraph a c
SameGraph-trans p q = record {
  users = q.users ∙ p.users;
  channels = q.channels ∙ p.channels;
  next_user = q.next_user ∙ p.next_user;
  next_channel = q.next_channel ∙ p.next_channel;
  session = λ u. q.session u ∙ p.session u;
  channel = λ u. q.channel u ∙ p.channel u;
  id = λ c. q.id c ∙ p.id c;
  parent = λ c. q.parent c ∙ p.parent c;
  children = λ c. q.children c ∙ p.children c;
  members = λ c. q.members c ∙ p.members c;
}

-- A change of one user, or of one channel, that leaves those fields alone.
pub set_user-SameGraph :
    (w : World) (u : ℕ) (x : User)
    → x.session ≡ (w.user_at u).session
    → x.channel ≡ (w.user_at u).channel
    → SameGraph w (set_user w u x)
set_user-SameGraph w u x e f = record {
  users = refl;
  channels = refl;
  next_user = refl;
  next_channel = refl;
  session = λ y. ground arith;
  channel = λ y. ground arith;
  id = λ c. refl;
  parent = λ c. refl;
  children = λ c. refl;
  members = λ c. refl;
}

pub set_channel-SameGraph :
    (w : World) (c : ℕ) (x : Channel)
    → x.id ≡ (w.channel_at c).id
    → x.parent ≡ (w.channel_at c).parent
    → x.children ≡ (w.channel_at c).children
    → x.users ≡ (w.channel_at c).users
    → SameGraph w (set_channel w c x)
set_channel-SameGraph w c x e f g h = record {
  users = refl;
  channels = refl;
  next_user = refl;
  next_channel = refl;
  session = λ u. refl;
  channel = λ u. refl;
  id = λ d. ground arith;
  parent = λ d. ground arith;
  children = λ d. ground arith;
  members = λ d. ground arith;
}

pub SameGraph-Consistent : {w w' : World} → SameGraph w w' → Consistent w → Consistent w'
SameGraph-Consistent {w} {w'} g v = record {
  user_keys = λ s u h. grind (arith, v.user_keys s u, g.users, g.next_user, g.session u);
  channel_keys = λ i c h. ground (arith, v.channel_keys i c, g.channels, g.next_channel, g.id c);
  located = λ s u c h k.
      ground (arith, v.located s u c, g.users, g.next_channel, g.channel u, g.members c);
  members = λ c s u h k.
      ground (arith, v.members c s u, g.users, g.next_channel, g.channel u, g.members c);
  parents = λ i c p h k.
      ground (arith, v.parents i c p, g.channels, g.next_channel, g.parent c, g.children p);
  children = λ p i c h k.
      ground (arith, v.children p i c, g.channels, g.next_channel, g.parent c, g.children p);
}
