-- ===== src/Client/Consistent/Channels.antt =====
-- Creating and removing a channel keeps the graph consistent.
use gumble.Prelude.{ℕ, ◌≡◌, refl, Option, none, some, arith, [], ◌∷◌}
use gumble.Map.{Map, store, get-put, get-delete}
use gumble.Map
use gumble.Client.{World}
use gumble.Client.Graph.{create_channel, unlink_all, remove_channel, detach_channel}
use gumble.Client.Consistent.{
  Consistent, SameGraph, same_graph, SameGraph-trans, SameGraph-Consistent, set_channel-SameGraph,
}

module _ {w : World} (v : Consistent w) where
  pub create_channel-Consistent :
      (id : ℕ) → Map.get w.channels id ≡ none → Consistent (create_channel id w)
  unfolding create_channel Map.get
  create_channel-Consistent id e = record {
    user_keys = v.user_keys;
    channel_keys =
        λ i c h. ground (arith, get-put w.channels id i w.next_channel, v.channel_keys i c);
    located = λ s u c h k. ground (arith, v.located s u c);
    members = λ c s u h k. ground (arith, v.members c s u);
    parents = λ i c p h k.
        ground (arith, get-put w.channels id i w.next_channel, v.channel_keys i c, v.parents i c p);
    children = λ p i c h k.
        ground
          (arith, get-put w.channels id i w.next_channel, v.channel_keys i c, v.children p i c);
  }

  detach_from :
      (id c : ℕ) (old : Option ℕ)
      → Map.get w.channels id ≡ some c
      → (w.channel_at c).parent ≡ old
      → Consistent (detach_channel c id w)
  unfolding detach_channel
  detach_from id c none e f = record {
    user_keys = λ s x h. ground (arith, v.user_keys s x);
    channel_keys = λ i d h. ground (arith, get-delete w.channels id i, v.channel_keys i d);
    located = λ s x d h k. ground (arith, v.located s x d);
    members = λ d s x h k. ground (arith, v.members d s x);
    parents = λ i d p h k. ground (arith, get-delete w.channels id i, v.parents i d p);
    children = λ p i d h k.
        ground (arith, get-delete w.channels id i, v.channel_keys id c, v.children p i d);
  }
  detach_from id c (some o) e f = record {
    user_keys = λ s x h. ground (arith, v.user_keys s x);
    channel_keys = λ i d h. ground (arith, get-delete w.channels id i, v.channel_keys i d);
    located = λ s x d h k. ground (arith, v.located s x d);
    members = λ d s x h k. ground (arith, v.members d s x);
    parents = λ i d p h k. ground (
      arith,
      get-delete w.channels id i,
      v.channel_keys id c,
      v.channel_keys i d,
      get-delete (w.channel_at o).children id i,
      v.parents i d p,
    );
    children = λ p i d h k. ground (
      arith,
      get-delete w.channels id i,
      v.channel_keys id c,
      v.channel_keys i d,
      get-delete (w.channel_at o).children id i,
      v.children p i d,
      v.children p id d,
    );
  }

-- Taking the links away touches nothing else.
unlink_all-SameGraph : (links : Map ℕ) (id : ℕ) (w : World) → SameGraph w (unlink_all links id w)
unfolding unlink_all
unlink_all-SameGraph [] id w = same_graph w
unlink_all-SameGraph ((k, l) ∷ links) id w =
    SameGraph-trans (set_channel-SameGraph w l _ refl refl refl refl)
      (unlink_all-SameGraph links id _)

-- After `handleChannelRemove` every remaining channel and user is as consistent as before.
pub remove_channel-Consistent :
    {w : World}
    → Consistent w
    → (id c : ℕ) → Map.get w.channels id ≡ some c
    → Consistent (remove_channel c id w)
unfolding remove_channel
remove_channel-Consistent {w} v id c e =
    SameGraph-Consistent (unlink_all-SameGraph (w.channel_at c).links id _)
      (detach_from v id c _ e refl)
