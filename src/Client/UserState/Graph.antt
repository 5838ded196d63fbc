-- ===== src/Client/UserState/Graph.antt =====
-- handleUserState keeps the graph of users and channels consistent.
use gumble.Prelude.{
  ℕ, ◌<◌, ◌≡◌, refl, Option, none, some, ◌==◌, arith, Bool, not, ◌&&◌, Option-cases, inl, inr,
  if_cases,
}
use gumble.Map.{Map, store, get-put}
use gumble.Map
use gumble.Client.{World, Text, Bytes}
use gumble.Client.Graph.{place_user}
use gumble.Client.Consistent.{
  Consistent, SameGraph, same_graph, SameGraph-trans, SameGraph-Consistent, set_user-SameGraph,
}
use gumble.Client.Consistent.Users.{
  create_user-Consistent, place_user-Consistent, move_user-Consistent,
}
use gumble.Client.UserChange
use gumble.Client.ChannelState.{Changed}
use gumble.Client.UserState.{
  UserState, has, max_uint32, connect_user, find_or_connect, update_user_id, update_channel,
  update_identity, update_status, update_name, update_mute, update_deaf, update_suppress,
  update_self_mute, update_self_deaf, update_texture, update_comment, update_hash,
  update_comment_hash, update_texture_hash, update_priority_speaker, update_recording,
}

abbrev Same : (Changed → Changed) → Type 0
Same f = (s : Changed) → SameGraph s.0 (f s).0

update_name-Same : (u : ℕ) (o : Option Text) → Same (update_name u o)
unfolding update_name
update_name-Same u none s = same_graph s.0
update_name-Same u (some x) (w, t) = set_user-SameGraph w u _ refl refl

update_mute-Same : (u : ℕ) (o : Option Bool) → Same (update_mute u o)
unfolding update_mute
update_mute-Same u none s = same_graph s.0
update_mute-Same u (some x) (w, t) = set_user-SameGraph w u _ refl refl

update_deaf-Same : (u : ℕ) (o : Option Bool) → Same (update_deaf u o)
unfolding update_deaf
update_deaf-Same u none s = same_graph s.0
update_deaf-Same u (some x) (w, t) = set_user-SameGraph w u _ refl refl

update_suppress-Same : (u : ℕ) (o : Option Bool) → Same (update_suppress u o)
unfolding update_suppress
update_suppress-Same u none s = same_graph s.0
update_suppress-Same u (some x) (w, t) = set_user-SameGraph w u _ refl refl

update_self_mute-Same : (u : ℕ) (o : Option Bool) → Same (update_self_mute u o)
unfolding update_self_mute
update_self_mute-Same u none s = same_graph s.0
update_self_mute-Same u (some x) (w, t) = set_user-SameGraph w u _ refl refl

update_self_deaf-Same : (u : ℕ) (o : Option Bool) → Same (update_self_deaf u o)
unfolding update_self_deaf
update_self_deaf-Same u none s = same_graph s.0
update_self_deaf-Same u (some x) (w, t) = set_user-SameGraph w u _ refl refl

update_texture-Same : (u : ℕ) (o : Option Bytes) → Same (update_texture u o)
unfolding update_texture
update_texture-Same u none s = same_graph s.0
update_texture-Same u (some x) (w, t) = set_user-SameGraph w u _ refl refl

update_comment-Same : (u : ℕ) (o : Option Text) → Same (update_comment u o)
unfolding update_comment
update_comment-Same u none s = same_graph s.0
update_comment-Same u (some x) (w, t) = set_user-SameGraph w u _ refl refl

update_hash-Same : (u : ℕ) (o : Option Text) → Same (update_hash u o)
unfolding update_hash
update_hash-Same u none s = same_graph s.0
update_hash-Same u (some x) (w, t) = set_user-SameGraph w u _ refl refl

update_comment_hash-Same : (u : ℕ) (o : Option Bytes) → Same (update_comment_hash u o)
unfolding update_comment_hash
update_comment_hash-Same u none s = same_graph s.0
update_comment_hash-Same u (some x) (w, t) = set_user-SameGraph w u _ refl refl

update_texture_hash-Same : (u : ℕ) (o : Option Bytes) → Same (update_texture_hash u o)
unfolding update_texture_hash
update_texture_hash-Same u none s = same_graph s.0
update_texture_hash-Same u (some x) (w, t) = set_user-SameGraph w u _ refl refl

update_priority_speaker-Same : (u : ℕ) (o : Option Bool) → Same (update_priority_speaker u o)
unfolding update_priority_speaker
update_priority_speaker-Same u none s = same_graph s.0
update_priority_speaker-Same u (some x) (w, t) = set_user-SameGraph w u _ refl refl

update_recording-Same : (u : ℕ) (o : Option Bool) → Same (update_recording u o)
unfolding update_recording
update_recording-Same u none s = same_graph s.0
update_recording-Same u (some x) (w, t) = set_user-SameGraph w u _ refl refl

update_user_id-Same : (u : ℕ) (o : Option ℕ) → Same (update_user_id u o)
unfolding update_user_id
update_user_id-Same u none s = same_graph s.0
update_user_id-Same u (some i) (w, t) =
    if_cases (λ (r : Changed). SameGraph w r.0)
      (not (i == (w.user_at u).user_id) && not (has t UserChange.connected)) _ _
      (λ _.
        if_cases (λ (r : Changed). SameGraph w r.0) (not (i == max_uint32)) _ _
          (λ _. set_user-SameGraph w u _ refl refl) (λ _. set_user-SameGraph w u _ refl refl))
      (λ _. set_user-SameGraph w u _ refl refl)

pub update_identity-SameGraph :
    (u : ℕ) (p : UserState) (s : Changed) → SameGraph s.0 (update_identity u p s).0
unfolding update_identity
update_identity-SameGraph u p s =
    SameGraph-trans (update_name-Same u p.name s) (update_user_id-Same u p.user_id _)

pub update_status-SameGraph :
    (u : ℕ) (p : UserState) (s : Changed) → SameGraph s.0 (update_status u p s).0
unfolding update_status
update_status-SameGraph u p s = SameGraph-trans (update_mute-Same u p.mute s) (
    SameGraph-trans (update_deaf-Same u p.deaf _) (
      SameGraph-trans (update_suppress-Same u p.suppress _) (
        SameGraph-trans (update_self_mute-Same u p.self_mute _) (
          SameGraph-trans (update_self_deaf-Same u p.self_deaf _) (
            SameGraph-trans (update_texture-Same u p.texture _) (
              SameGraph-trans (update_comment-Same u p.comment _) (
                SameGraph-trans (update_hash-Same u p.hash _) (
                  SameGraph-trans (update_comment_hash-Same u p.comment_hash _) (
                    SameGraph-trans (update_texture_hash-Same u p.texture_hash _) (
                      SameGraph-trans (update_priority_speaker-Same u p.priority_speaker _)
                        (update_recording-Same u p.recording _)))))))))))

module _ {w : World} (v : Consistent w) (session : ℕ) (e : Map.get w.users session ≡ none) where
  connect_user-Consistent : Consistent (connect_user session w)
  unfolding connect_user
  connect_user-Consistent =
      SameGraph-Consistent (set_user-SameGraph _ w.next_user _ refl refl)
        (create_user-Consistent v session e)

  connect_user_placed :
      (root : ℕ)
      → Map.get w.channels 0 ≡ some root
      → Consistent (place_user w.next_user session root (connect_user session w))
  connect_user_placed root f =
      place_user-Consistent connect_user-Consistent w.next_user session root
        (unfold connect_user in ground (arith, get-put w.users session session w.next_user))
        (unfold connect_user in ground arith) (unfold connect_user in (v.channel_keys 0 root f).0)

pub find_or_connect-known :
    (session : ℕ) (w : World)
    → Map.get (find_or_connect session w).1.users session ≡ some (find_or_connect session w).0
unfolding find_or_connect
find_or_connect-known session w = ground (arith, get-put w.users session session w.next_user)

pub find_or_connect-channels :
    (session : ℕ) (w : World) → (find_or_connect session w).1.channels ≡ w.channels
unfolding find_or_connect connect_user
find_or_connect-channels session w = ground arith

pub find_or_connect-Consistent :
    {w : World} → Consistent w → (session : ℕ) → Consistent (find_or_connect session w).1
unfolding find_or_connect
find_or_connect-Consistent {w} v session = elim (Option-cases (Map.get w.users session)) [
  | inr (u, e) ↦ rw (e, find_or_connect) v
  | inl e ↦ elim (Option-cases (Map.get w.channels 0)) [
    | inl f ↦ rw (e, f, find_or_connect) (connect_user-Consistent v session e)
    | inr (root, f) ↦ rw (e, f, find_or_connect) (connect_user_placed v session e root f)
  ]
]

-- The channel that `find_channel` hands over is allocated.
pub update_channel-Consistent :
    (u session : ℕ) (o : Option ℕ) (w : World) (t : ℕ)
    → Consistent w
    → Map.get w.users session ≡ some u
    → ((c : ℕ) → o ≡ some c → c < w.next_channel)
    → Consistent (update_channel u o (w, t)).0
unfolding update_channel
update_channel-Consistent u session none w t v e b = v
update_channel-Consistent u session (some c) w t v e b =
    move_user-Consistent v u session c e (b c refl)
