-- ===== src/Client/Safety/Users.antt =====
-- The user handlers come back and keep the graph consistent, but for one branch of handleUserState.
use gumble.Prelude.{
  ℕ, ◌<◌, ◌≡◌, refl, ◌≢◌, ◌∙◌, Bool, Option, none, some, arith, Option-cases, inl, inr, if_cases,
}
use gumble.Map
use gumble.Client.{Client, World, Bytes, DisconnectType}
use gumble.Client.Monad.{M, ◌>>=◌, ◌>>◌, pure, unlock}
use gumble.Client.Consistent.{Consistent, SameGraph-Consistent}
use gumble.Client.Consistent.Users.{remove_user-Consistent}
use gumble.Client.Sound.{
  IsIdle, IsBusy, Ends, with_error, unmarshalled-Ends, required-Ends, some_or_unlock-Ends,
  lock-Ends, unlock-Ends, world-Ends, set_world-Ends, emit_if_synced-Ends,
}
use gumble.Client.ChannelState.{ref_eq}
use gumble.Client.UserRemove.{UserRemove, handle_user_remove, find_actor, note_own_removal}
use gumble.Client.UserState.{UserState, find_or_connect, find_channel, handle_user_state}
use gumble.Client.UserState.Graph.{
  find_or_connect-known, find_or_connect-Consistent, update_identity-SameGraph,
  update_status-SameGraph, update_channel-Consistent, find_or_connect-channels,
}

module _ {κ μ} {B : Type κ} {Q : B → Client → Type μ} where
  find_actor-Ends :
      (w : World) (o : Option ℕ) (f : Option ℕ → M B) (c : Client)
      → IsBusy c
      → ((a : Option ℕ) → Ends Q (f a c))
      → Ends Q ((find_actor w o >>= f) c)
  unfolding ◌>>=◌ find_actor pure
  find_actor-Ends w none f c b k = k none
  find_actor-Ends w (some a) f c b k = elim (Option-cases (Map.get w.users a)) [
    | inl e ↦
        rw (e, find_actor, b.held, ◌>>=◌, ◌>>◌, unlock)
          (with_error (record { free = refl; consistent = b.consistent }))
    | inr (u, e) ↦ rw (e, find_actor, ◌>>=◌) (k (some u))
  ]

  note_own_removal-Ends :
      (u : ℕ) (ban : Bool) (m : M B) (c : Client)
      → ((t : DisconnectType) → Ends Q (m (record c { disconnect_type = t })))
      → Ends Q ((note_own_removal u ban >> m) c)
  unfolding ◌>>◌ note_own_removal
  note_own_removal-Ends u ban m c k =
      if_cases (λ d. Ends Q (m d)) (ref_eq (some u) c.self) _ c (λ _. k _)
        (λ _. k c.disconnect_type)

  find_channel-Ends :
      (w : World) (o : Option ℕ) (f : Option ℕ → M B) (c : Client)
      → Consistent w
      → ((i : ℕ) → o ≡ some i → Map.get w.channels i ≢ none)
      → ((r : Option ℕ) → ((q : ℕ) → r ≡ some q → q < w.next_channel) → Ends Q (f r c))
      → Ends Q ((find_channel w o >>= f) c)
  unfolding ◌>>=◌ find_channel pure
  find_channel-Ends w none f c v h k = k none (λ q e. cc)
  find_channel-Ends w (some i) f c v h k = elim (Option-cases (Map.get w.channels i)) [
    | inl e ↦ absurd (h i refl e)
    | inr (q, e) ↦
        rw (e, find_channel, ◌>>=◌) (k (some q) (λ r h'. ground (arith, v.channel_keys i q e)))
  ]

-- On an idle client handleUserRemove returns or gives an error whatever the buffer holds, it neither
-- panics nor blocks, and the client is idle again.
pub handle_user_remove-Ends :
    (unmarshal : Bytes → Option UserRemove) (buffer : Bytes) (c : Client)
    → IsIdle c
    → Ends (λ _ d. IsIdle d) (handle_user_remove unmarshal buffer c)
unfolding handle_user_remove
handle_user_remove-Ends unmarshal buffer c i = unmarshalled-Ends unmarshal buffer _ c i λ p _.
    required-Ends p.session _ c i λ s _. lock-Ends _ c i.free (
      world-Ends _ _ (
        some_or_unlock-Ends _ _ _ (record { held = refl; consistent = i.consistent })
          λ u e.
            find_actor-Ends _ _ _ _ (record { held = refl; consistent = i.consistent })
              λ a. set_world-Ends _ _ _ (
                note_own_removal-Ends _ _ _ _ λ t. unlock-Ends _ _ refl (
                  emit_if_synced-Ends _ _ (record {
                    free = refl;
                    consistent = remove_user-Consistent i.consistent u s e;
                  })))))

-- On an idle client handleUserState returns or gives an error, neither panics nor blocks, and leaves
-- the client idle again, if the channel that the packet names, if any, is known.
pub handle_user_state-Ends :
    (unmarshal : Bytes → Option UserState) (buffer : Bytes) (c : Client)
    → IsIdle c
    → ((p : UserState) (i : ℕ)
        → unmarshal buffer ≡ some p
        → p.channel_id ≡ some i
        → Map.get c.world.channels i ≢ none)
    → Ends (λ _ d. IsIdle d) (handle_user_state unmarshal buffer c)
unfolding handle_user_state
handle_user_state-Ends unmarshal buffer c i known = unmarshalled-Ends unmarshal buffer _ c i λ p e.
    required-Ends p.session _ c i λ s _.
      let found = find_or_connect s c.world in
      let v = find_or_connect-Consistent i.consistent s in
      lock-Ends _ c i.free (
        world-Ends _ _ (
          set_world-Ends _ _ _ (
            some_or_unlock-Ends _ _ _ (record { held = refl; consistent = v })
              λ t _.
                find_actor-Ends _ _ _ _ (record { held = refl; consistent = v })
                  λ a.
                    let named = update_identity-SameGraph found.0 p (found.1, t) in
                    let same = named.channels ∙ find_or_connect-channels s c.world in
                    find_channel-Ends _ _ _ _ (SameGraph-Consistent named v)
                      (λ j h. rw same (known p j e h))
                      λ r h.
                        let moved =
                          update_channel-Consistent found.0 s r _ _ (SameGraph-Consistent named v)
                            (rw named.users (find_or_connect-known s c.world)) h in
                        set_world-Ends _ _ _ (
                          unlock-Ends _ _ refl (
                            emit_if_synced-Ends _ _ (record {
                              free = refl;
                              consistent =
                                  SameGraph-Consistent (update_status-SameGraph found.0 p _) moved;
                            }))))))
