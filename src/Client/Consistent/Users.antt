-- ===== src/Client/Consistent/Users.antt =====
-- Creating, placing, moving and removing a user keeps the graph consistent.
use gumble.Prelude.{ℕ, ◌<◌, ◌≡◌, refl, Option, none, some, arith}
use gumble.Map.{Map, store, get-put, get-delete}
use gumble.Map
use gumble.Client.{World}
use gumble.Client.Graph.{create_user, place_user, move_user, remove_user}
use gumble.Client.Consistent.{Consistent}

module _ {w : World} (v : Consistent w) where
  pub create_user-Consistent :
      (session : ℕ) → Map.get w.users session ≡ none → Consistent (create_user session w)
  unfolding create_user
  create_user-Consistent session e = record {
    user_keys = λ s u h. ground (arith, get-put w.users session s w.next_user, v.user_keys s u);
    channel_keys = v.channel_keys;
    located = λ s u c h k.
        ground (arith, get-put w.users session s w.next_user, v.user_keys s u, v.located s u c);
    members = λ c s u h k.
        ground (arith, get-put w.users session s w.next_user, v.user_keys s u, v.members c s u);
    parents = v.parents;
    children = v.children;
  }

  -- A known user that stands nowhere is put into an allocated channel.
  pub place_user-Consistent :
      (u session c : ℕ)
      → Map.get w.users session ≡ some u
      → (w.user_at u).channel ≡ none
      → c < w.next_channel
      → Consistent (place_user u session c w)
  unfolding place_user
  place_user-Consistent u session c e f b = record {
    user_keys = λ s x h. ground (arith, v.user_keys s x);
    channel_keys = λ i d h. ground (arith, v.channel_keys i d);
    located = λ s x d h k. ground (
      arith,
      get-put (w.channel_at c).users session s u,
      v.located s x d,
      v.user_keys s x,
      v.user_keys session u,
    );
    members = λ d s x h k.
        ground
          (arith, get-put (w.channel_at c).users session s u, v.members d s x, v.user_keys s x);
    parents = λ i d p h k. ground (arith, v.parents i d p);
    children = λ p i d h k. ground (arith, v.children p i d);
  }

  remove_user_from :
      (u session : ℕ) (old : Option ℕ)
      → Map.get w.users session ≡ some u
      → (w.user_at u).channel ≡ old
      → Consistent (remove_user u session w)
  unfolding remove_user
  remove_user_from u session none e f = record {
    user_keys = λ s x h. ground (arith, get-delete w.users session s, v.user_keys s x);
    channel_keys = λ i d h. ground (arith, v.channel_keys i d);
    located = λ s x d h k. ground (arith, get-delete w.users session s, v.located s x d);
    members = λ d s x h k.
        ground (arith, get-delete w.users session s, v.members d s x, v.user_keys session u);
    parents = λ i d p h k. ground (arith, v.parents i d p);
    children = λ p i d h k. ground (arith, v.children p i d);
  }
  remove_user_from u session (some c) e f = record {
    user_keys = λ s x h. ground (arith, get-delete w.users session s, v.user_keys s x);
    channel_keys = λ i d h. ground (arith, v.channel_keys i d);
    located = λ s x d h k. ground (
      arith,
      get-delete w.users session s,
      get-delete (w.channel_at c).users session s,
      v.located s x d,
    );
    members = λ d s x h k. ground (
      arith,
      get-delete w.users session s,
      get-delete (w.channel_at c).users session s,
      v.members d s x,
    );
    parents = λ i d p h k. ground (arith, v.parents i d p);
    children = λ p i d h k. ground (arith, v.children p i d);
  }

  move_user_from :
      (u session c : ℕ) (old : Option ℕ)
      → Map.get w.users session ≡ some u
      → c < w.next_channel
      → (w.user_at u).channel ≡ old
      → Consistent (move_user u c w)
  unfolding move_user
  move_user_from u session c none e b f = record {
    user_keys = λ s x h. ground (arith, v.user_keys s x);
    channel_keys = λ i d h. ground (arith, v.channel_keys i d);
    located = λ s x d h k. ground (
      arith,
      v.user_keys session u,
      get-put (w.channel_at c).users session s u,
      v.located s x d,
      v.user_keys s x,
    );
    members = λ d s x h k. ground (
      arith,
      v.user_keys session u,
      get-put (w.channel_at c).users session s u,
      v.members d s x,
      v.user_keys s x,
    );
    parents = λ i d p h k. ground (arith, v.parents i d p);
    children = λ p i d h k. ground (arith, v.children p i d);
  }
  move_user_from u session c (some o) e b f = record {
    user_keys = λ s x h. ground (arith, v.user_keys s x);
    channel_keys = λ i d h. ground (arith, v.channel_keys i d);
    located = λ s x d h k. ground (
      arith,
      v.user_keys session u,
      get-delete (w.channel_at o).users session s,
      get-put (w.channel_at c).users session s u,
      get-put (Map.delete (w.channel_at c).users session) session s u,
      v.located s x d,
      v.user_keys s x,
    );
    members = λ d s x h k. ground (
      arith,
      v.user_keys session u,
      get-delete (w.channel_at o).users session s,
      get-put (w.channel_at c).users session s u,
      get-put (Map.delete (w.channel_at c).users session) session s u,
      v.members d s x,
      v.user_keys s x,
    );
    parents = λ i d p h k. ground (arith, v.parents i d p);
    children = λ p i d h k. ground (arith, v.children p i d);
  }

  pub remove_user-Consistent :
      (u session : ℕ) → Map.get w.users session ≡ some u → Consistent (remove_user u session w)
  remove_user-Consistent u session e = remove_user_from u session _ e refl

  -- Moving a user to an allocated channel.
  pub move_user-Consistent :
      (u session c : ℕ)
      → Map.get w.users session ≡ some u
      → c < w.next_channel
      → Consistent (move_user u c w)
  move_user-Consistent u session c e b = move_user_from u session c _ e b refl
