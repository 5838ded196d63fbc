-- ===== src/Client/Consistent/Parents.antt =====
-- Moving a channel below another parent keeps the graph consistent.
use gumble.Prelude.{ℕ, ◌<◌, ◌≡◌, refl, Option, none, some, arith}
use gumble.Map.{Map, store, get-put, get-delete}
use gumble.Map
use gumble.Client.{World}
use gumble.Client.Graph.{move_channel}
use gumble.Client.Consistent.{Consistent}

module _ {w : World} (v : Consistent w) where
  move_channel_from :
      (id c : ℕ) (old new : Option ℕ)
      → Map.get w.channels id ≡ some c
      → ((q : ℕ) → new ≡ some q → q < w.next_channel)
      → (w.channel_at c).parent ≡ old
      → Consistent (move_channel id c new w)
  unfolding move_channel
  move_channel_from id c none none e b f = record {
    user_keys = λ s x h. ground (arith, v.user_keys s x);
    channel_keys = λ i d h. ground (arith, v.channel_keys i d);
    located = λ s x d h k. ground (arith, v.located s x d);
    members = λ d s x h k. ground (arith, v.members d s x);
    parents = λ i d p h k. ground (arith, v.parents i d p);
    children = λ p i d h k. ground (arith, v.children p i d);
  }
  move_channel_from id c none (some q) e b f = record {
    user_keys = λ s x h. ground (arith, v.user_keys s x);
    channel_keys = λ i d h. ground (arith, v.channel_keys i d);
    located = λ s x d h k. ground (arith, v.located s x d);
    members = λ d s x h k. ground (arith, v.members d s x);
    parents = λ i d p h k. ground (
      arith,
      b q refl,
      v.channel_keys id c,
      v.channel_keys i d,
      get-put (w.channel_at q).children id i c,
      v.parents i d p,
    );
    children = λ p i d h k. ground (
      arith,
      v.channel_keys id c,
      v.channel_keys i d,
      get-put (w.channel_at q).children id i c,
      v.children p i d,
    );
  }
  move_channel_from id c (some o) none e b f = record {
    user_keys = λ s x h. ground (arith, v.user_keys s x);
    channel_keys = λ i d h. ground (arith, v.channel_keys i d);
    located = λ s x d h k. ground (arith, v.located s x d);
    members = λ d s x h k. ground (arith, v.members d s x);
    parents = λ i d p h k. ground (
      arith,
      v.channel_keys id c,
      v.channel_keys i d,
      get-delete (w.channel_at o).children id i,
      v.parents i d p,
    );
    children = λ p i d h k. ground (
      arith,
      v.channel_keys id c,
      v.channel_keys i d,
      get-delete (w.channel_at o).children id i,
      v.children p i d,
    );
  }
  move_channel_from id c (some o) (some q) e b f = record {
    user_keys = λ s x h. ground (arith, v.user_keys s x);
    channel_keys = λ i d h. ground (arith, v.channel_keys i d);
    located = λ s x d h k. ground (arith, v.located s x d);
    members = λ d s x h k. ground (arith, v.members d s x);
    parents = λ i d p h k. ground (
      arith,
      b q refl,
      v.channel_keys id c,
      v.channel_keys i d,
      get-delete (w.channel_at o).children id i,
      get-put (w.channel_at q).children id i c,
      get-put (Map.delete (w.channel_at q).children id) id i c,
      v.parents i d p,
    );
    children = λ p i d h k. ground (
      arith,
      v.channel_keys id c,
      v.channel_keys i d,
      get-delete (w.channel_at o).children id i,
      get-put (w.channel_at q).children id i c,
      get-put (Map.delete (w.channel_at q).children id) id i c,
      v.children p i d,
    );
  }

  -- A new parent, or none, for a known channel; the channel itself is allowed.
  pub move_channel-Consistent :
      (id c : ℕ) (new : Option ℕ)
      → Map.get w.channels id ≡ some c
      → ((q : ℕ) → new ≡ some q → q < w.next_channel)
      → Consistent (move_channel id c new w)
  move_channel-Consistent id c new e b = move_channel_from id c _ new e b refl
