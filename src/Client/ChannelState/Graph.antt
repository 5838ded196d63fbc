-- ===== src/Client/ChannelState/Graph.antt =====
-- handleChannelState keeps the graph of users and channels consistent.
use gumble.Prelude.{ℕ, ◌≡◌, refl, Option, none, some, arith, List, [], ◌∷◌, Option-cases, inl, inr}
use gumble.Map.{Map, store, get-put}
use gumble.Map
use gumble.Prelude.{Bool}
use gumble.Prelude.Int.{ℤ}
use gumble.Client.{World, Text, Bytes}
use gumble.Client.Consistent.{
  Consistent, SameGraph, same_graph, SameGraph-trans, SameGraph-Consistent, set_channel-SameGraph,
}
use gumble.Client.Consistent.Channels.{create_channel-Consistent}
use gumble.Client.Consistent.Parents.{move_channel-Consistent}
use gumble.Client.ChannelState.{
  ChannelState, Changed, find_or_create, update_parent, update_name, update_links, link_one,
  add_links, unlink_one, remove_links, update_description, update_temporary, update_position,
  update_description_hash, update_max_users, update_attributes, apply_channel_state,
}

abbrev Same : (Changed → Changed) → Type 0
Same f = (s : Changed) → SameGraph s.0 (f s).0

update_name-Same : (c : ℕ) (o : Option Text) → Same (update_name c o)
unfolding update_name
update_name-Same c none s = same_graph s.0
update_name-Same c (some x) (w, t) = set_channel-SameGraph w c _ refl refl refl refl

update_description-Same : (c : ℕ) (o : Option Text) → Same (update_description c o)
unfolding update_description
update_description-Same c none s = same_graph s.0
update_description-Same c (some x) (w, t) = set_channel-SameGraph w c _ refl refl refl refl

update_temporary-Same : (c : ℕ) (o : Option Bool) → Same (update_temporary c o)
unfolding update_temporary
update_temporary-Same c none s = same_graph s.0
update_temporary-Same c (some x) (w, t) = set_channel-SameGraph w c _ refl refl refl refl

update_position-Same : (c : ℕ) (o : Option ℤ) → Same (update_position c o)
unfolding update_position
update_position-Same c none s = same_graph s.0
update_position-Same c (some x) (w, t) = set_channel-SameGraph w c _ refl refl refl refl

update_description_hash-Same : (c : ℕ) (o : Option Bytes) → Same (update_description_hash c o)
unfolding update_description_hash
update_description_hash-Same c none s = same_graph s.0
update_description_hash-Same c (some x) (w, t) = set_channel-SameGraph w c _ refl refl refl refl

update_max_users-Same : (c : ℕ) (o : Option ℕ) → Same (update_max_users c o)
unfolding update_max_users
update_max_users-Same c none s = same_graph s.0
update_max_users-Same c (some x) (w, t) = set_channel-SameGraph w c _ refl refl refl refl

update_links-Same : (c : ℕ) (ids : List ℕ) → Same (update_links c ids)
unfolding update_links
update_links-Same c [] s = same_graph s.0
update_links-Same c (i ∷ ids) (w, t) = set_channel-SameGraph w c _ refl refl refl refl

link_one-Same : (c i : ℕ) → Same (link_one c i)
unfolding link_one
link_one-Same c i (w, t) = elim (Option-cases (Map.get w.channels i)) [
  | inl e ↦ rw (e, link_one) (same_graph w)
  | inr (l, e) ↦
      rw (e, link_one)
        (SameGraph-trans (set_channel-SameGraph w c _ refl refl refl refl)
          (set_channel-SameGraph _ l _ refl refl refl refl))
]

unlink_one-Same : (c i : ℕ) → Same (unlink_one c i)
unfolding unlink_one
unlink_one-Same c i (w, t) = elim (Option-cases (Map.get w.channels i)) [
  | inl e ↦ rw (e, unlink_one) (same_graph w)
  | inr (l, e) ↦
      rw (e, unlink_one)
        (SameGraph-trans (set_channel-SameGraph w c _ refl refl refl refl)
          (set_channel-SameGraph _ l _ refl refl refl refl))
]

add_links-Same : (c : ℕ) (ids : List ℕ) → Same (add_links c ids)
unfolding add_links
add_links-Same c [] s = same_graph s.0
add_links-Same c (i ∷ ids) s =
    SameGraph-trans (link_one-Same c i s) (add_links-Same c ids (link_one c i s))

remove_links-Same : (c : ℕ) (ids : List ℕ) → Same (remove_links c ids)
unfolding remove_links
remove_links-Same c [] s = same_graph s.0
remove_links-Same c (i ∷ ids) s =
    SameGraph-trans (unlink_one-Same c i s) (remove_links-Same c ids (unlink_one c i s))

-- No attribute or link of a packet touches the maps, parents, children or members.
pub update_attributes-SameGraph :
    (c : ℕ) (p : ChannelState) (s : Changed) → SameGraph s.0 (update_attributes c p s).0
unfolding update_attributes
update_attributes-SameGraph c p s = SameGraph-trans (update_name-Same c p.name s) (
    SameGraph-trans (update_links-Same c p.links _) (
      SameGraph-trans (add_links-Same c p.links_add _) (
        SameGraph-trans (remove_links-Same c p.links_remove _) (
          SameGraph-trans (update_description-Same c p.description _) (
            SameGraph-trans (update_temporary-Same c p.temporary _) (
              SameGraph-trans (update_position-Same c p.position _) (
                SameGraph-trans (update_description_hash-Same c p.description_hash _)
                  (update_max_users-Same c p.max_users _))))))))

-- The channel is known afterwards.
pub find_or_create-known :
    (id : ℕ) (w : World)
    → Map.get (find_or_create id w).1.channels id ≡ some (find_or_create id w).0
unfolding find_or_create
find_or_create-known id w = elim (Option-cases (Map.get w.channels id)) [
  | inl e ↦ rw (e, find_or_create) (ground (arith, get-put w.channels id id w.next_channel))
  | inr (c, e) ↦ rw (e, find_or_create) e
]

pub find_or_create-Consistent :
    {w : World} → Consistent w → (id : ℕ) → Consistent (find_or_create id w).1
unfolding find_or_create
find_or_create-Consistent {w} v id = elim (Option-cases (Map.get w.channels id)) [
  | inl e ↦
      rw (e, find_or_create)
        (SameGraph-Consistent (set_channel-SameGraph _ w.next_channel _ refl refl refl refl)
          (create_channel-Consistent v id e))
  | inr (c, e) ↦ rw (e, find_or_create) v
]

update_parent-Consistent :
    (id c : ℕ) (p : Option ℕ) (w : World) (t : ℕ)
    → Consistent w
    → Map.get w.channels id ≡ some c
    → Consistent (update_parent id c p (w, t)).0
unfolding update_parent
update_parent-Consistent id c none w t v e = v
update_parent-Consistent id c (some p) w t v e =
    move_channel-Consistent v id c (Map.get w.channels p) e (λ q h. (v.channel_keys p q h).0)

-- A ChannelState packet, whatever it says, keeps the graph consistent.
pub apply_channel_state-Consistent :
    (id : ℕ) (p : ChannelState) {w : World}
    → Consistent w
    → Consistent (apply_channel_state id p w).1
unfolding apply_channel_state
apply_channel_state-Consistent id p {w} v =
    SameGraph-Consistent (update_attributes-SameGraph (find_or_create id w).0 p _) (
      update_parent-Consistent id (find_or_create id w).0 p.parent _ _
        (find_or_create-Consistent v id) (find_or_create-known id w))
