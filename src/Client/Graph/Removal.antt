-- ===== src/Client/Graph/Removal.antt =====
-- What is left of a channel that handleChannelRemove has taken away.
use gumble.Prelude.{
  ℕ, ◌≡◌, ◌∙◌, ◌≢◌, refl, none, some, ◌==◌, if◌then◌else◌, [], ◌∷◌, arith, Bool-cases, inl, inr,
}
use gumble.Map.{Map, get-put, get-delete, get, store}
use gumble.Map
use gumble.Client.{World}
use gumble.Client.Graph.{unlink_all, detach_channel, remove_channel}

-- A link that is gone stays gone.
unlink_all-none :
    (links : Map ℕ) (id d : ℕ) (w : World)
    → Map.get (w.channel_at d).links id ≡ none
    → Map.get ((unlink_all links id w).channel_at d).links id ≡ none
unfolding unlink_all
unlink_all-none [] id d w h = h
unlink_all-none ((k, l) ∷ links) id d w h =
    unlink_all-none links id d _ (ground (arith, get-delete (w.channel_at l).links id id))

-- Every channel among the links loses its link back.
unlink_all-linked :
    (links : Map ℕ) (id k l : ℕ) (w : World)
    → Map.get links k ≡ some l
    → Map.get ((unlink_all links id w).channel_at l).links id ≡ none
unfolding unlink_all get
unlink_all-linked [] id k l w h = cc
unlink_all-linked ((j, m) ∷ links) id k l w h = elim (Bool-cases (k == j)) [
  | inl e ↦ unlink_all-none links id l _ (ground (arith, get-delete (w.channel_at m).links id id))
  | inr e ↦ unlink_all-linked links id k l _ (ground arith)
]

-- A channel that is not among them keeps all its links.
abbrev pub NotLinked : Map ℕ → ℕ → Type 0
NotLinked [] d = Unit {0}
NotLinked ((k, l) ∷ links) d = (d ≢ l) × NotLinked links d

unlink_all-others :
    (links : Map ℕ) (id d : ℕ) (w : World)
    → NotLinked links d
    → ((unlink_all links id w).channel_at d).links ≡ (w.channel_at d).links
unfolding unlink_all
unlink_all-others [] id d w h = refl
unlink_all-others ((k, l) ∷ links) id d w h = unlink_all-others links id d _ h.1 ∙ ground arith

unlink_all-maps :
    (links : Map ℕ) (id : ℕ) (w : World)
    → ((unlink_all links id w).channels ≡ w.channels)
      × ((unlink_all links id w).permissions ≡ w.permissions)
unfolding unlink_all
unlink_all-maps [] id w = (refl, refl)
unlink_all-maps ((k, l) ∷ links) id w = unlink_all-maps links id _

detach_channel-links :
    (c id d : ℕ) (w : World) → ((detach_channel c id w).channel_at d).links ≡ (w.channel_at d).links
unfolding detach_channel
detach_channel-links c id d w = ground arith

detach_channel-maps :
    (c id : ℕ) (w : World)
    → ((detach_channel c id w).channels ≡ Map.delete w.channels id)
      × ((detach_channel c id w).permissions ≡ Map.delete w.permissions id)
unfolding detach_channel
detach_channel-maps c id w = ground arith

-- The maps afterwards: the channel and its permissions are not known any more, and every other
-- channel is known as before, with the permissions it had.
remove_channel_lem :
    (c id j : ℕ) (w : World)
    → (Map.get (remove_channel c id w).channels j
        ≡ (if j == id then none else Map.get w.channels j))
      × (Map.get (remove_channel c id w).permissions j
          ≡ (if j == id then none else Map.get w.permissions j))
unfolding remove_channel
remove_channel_lem c id j w = (
  ground (arith, maps, get-delete w.channels id j),
  ground (arith, maps, get-delete w.permissions id j),
)
  where
    maps :
        ((remove_channel c id w).channels ≡ Map.delete w.channels id)
        × ((remove_channel c id w).permissions ≡ Map.delete w.permissions id)
    maps =
        let (ch, pe) = unlink_all-maps (w.channel_at c).links id (detach_channel c id w) in
        let (dch, dpe) = detach_channel-maps c id w in (ch ∙ dch, pe ∙ dpe)

-- No channel that the removed one was linked to is linked to it.
remove_channel-links :
    (c id k l : ℕ) (w : World)
    → Map.get (w.channel_at c).links k ≡ some l
    → Map.get ((remove_channel c id w).channel_at l).links id ≡ none
unfolding remove_channel
remove_channel-links c id k l w h = unlink_all-linked (w.channel_at c).links id k l _ h

-- A link in one direction only, from a channel that the removed one has no link to, is left behind.
remove_channel_stale :
    (c id d : ℕ) (w : World)
    → NotLinked (w.channel_at c).links d
    → ((remove_channel c id w).channel_at d).links ≡ (w.channel_at d).links
unfolding remove_channel
remove_channel_stale c id d w h =
    unlink_all-others (w.channel_at c).links id d _ h ∙ detach_channel-links c id d w
