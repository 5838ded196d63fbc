-- ===== src/Client/UserState/Update.antt =====
-- A packet about a user that is known and stays in its channel.
use gumble.Prelude.{ℕ, ◌≡◌, ◌∙◌, refl, ap, false, Option, none, some, []}
use gumble.Map
use gumble.Client.{Client, World, Bytes, user_change}
use gumble.Client.Monad.{
  ◌>>=◌, pure, emit_if_synced, M, unmarshalled-some, required-some, some_or_unlock-some, lock_free,
  world_read, set_world_then, unlock_held,
}
use gumble.Client.UserRemove.{find_actor}
use gumble.Client.UserState.{
  UserState, find_or_connect, update_identity, update_channel, update_status, find_channel,
  handle_user_state,
}

pub find_or_connect_found :
    (s : ℕ) (w : World) {u : ℕ} → Map.get w.users s ≡ some u → find_or_connect s w ≡ (u, w, some 0)
unfolding find_or_connect
find_or_connect_found s w e = rw (e, find_or_connect)

module _ {κ} {B : Type κ} where
  pub find_actor-none :
      (w : World) (o : Option ℕ) (f : Option ℕ → M B) (c : Client)
      → o ≡ none
      → (find_actor w o >>= f) c ≡ f none c
  unfolding ◌>>=◌ find_actor pure
  find_actor-none w o f c e = rw (e, find_actor, ◌>>=◌)

  find_channel-none :
      (w : World) (o : Option ℕ) (f : Option ℕ → M B) (c : Client)
      → o ≡ none
      → (find_channel w o >>= f) c ≡ f none c
  unfolding ◌>>=◌ find_channel pure
  find_channel-none w o f c e = rw (e, find_channel, ◌>>=◌)

-- On an unlocked client, and for a packet without an actor and a channel about a known user, the
-- handler does what the packet's fields say to that user, in the order of the code, and in the
-- synced state the listeners get one event with the bits of what has changed.
pub handle_user_state_stays :
    (unmarshal : Bytes → Option UserState) (buffer : Bytes) (c : Client) (p : UserState) (s u : ℕ)
    → c.locked ≡ false
    → unmarshal buffer ≡ some p
    → p.session ≡ some s
    → Map.get c.world.users s ≡ some u
    → p.actor ≡ none
    → p.channel_id ≡ none
    → handle_user_state unmarshal buffer c
      ≡ emit_if_synced
          (user_change (record {
            type = (update_status u p (update_identity u p (c.world, 0))).1;
            user = some u;
            actor = none;
            string = [];
          }))
          (record c {
            locked = false;
            world = (update_status u p (update_identity u p (c.world, 0))).0;
          })
unfolding handle_user_state update_channel
handle_user_state_stays unmarshal buffer c p s u free e es eu ea ec =
    unmarshalled-some unmarshal buffer _ c e
    ∙ required-some p.session _ c es
    ∙ lock_free _ c free
    ∙ world_read _ _
    ∙ set_world_then _ _ _
    ∙ some_or_unlock-some _ _ _ (ap (λ r. r.2) found)
    ∙ find_actor-none _ _ _ _ ea
    ∙ find_channel-none _ _ _ _ ec
    ∙ set_world_then _ _ _
    ∙ unlock_held _ _ refl
    ∙ ap
        (λ r.
          emit_if_synced
            (user_change (record {
              type = (update_status r.0 p (update_identity r.0 p (r.1, 0))).1;
              user = some r.0;
              actor = none;
              string = [];
            }))
            (record c {
              locked = false;
              world = (update_status r.0 p (update_identity r.0 p (r.1, 0))).0;
            }))
        found
  where
    found : find_or_connect s c.world ≡ (u, c.world, some 0)
    found = find_or_connect_found s c.world eu
