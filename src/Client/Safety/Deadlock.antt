-- ===== src/Client/Safety/Deadlock.antt =====
-- The branch of handleUserState that locks `volatile` a second time.
use gumble.Prelude.{ℕ, ◌≡◌, ◌∙◌, refl, ap, Option, none, some, true, false}
use gumble.Map
use gumble.Client.{Client, World, Bytes}
use gumble.Client.Monad.{
  ◌>>=◌, ◌>>◌, lock, blocked, M, unmarshalled-some, required-some, some_or_unlock-some, lock_free,
  world_read, set_world_then,
}
use gumble.Client.Consistent.{SameGraph}
use gumble.Client.UserState.{
  UserState, find_or_connect, update_identity, find_channel, handle_user_state,
}
use gumble.Client.UserState.Update.{find_or_connect_found, find_actor-none}
use gumble.Client.UserState.Graph.{update_identity-SameGraph}

module _ {κ} {B : Type κ} where
  -- The second `Lock` of the mutex that the goroutine holds.
  find_channel_blocked :
      (w : World) (o : Option ℕ) (f : Option ℕ → M B) (c : Client) (i : ℕ)
      → c.locked ≡ true
      → o ≡ some i
      → Map.get w.channels i ≡ none
      → (find_channel w o >>= f) c ≡ blocked
  unfolding ◌>>=◌ find_channel ◌>>◌ lock
  find_channel_blocked w o f c i h e k = rw (e, k, find_channel, ◌>>=◌, ◌>>◌, h)

-- While the mutex is free, a packet that moves a known user to a channel that is not known, and names no actor, blocks the
-- goroutine that reads packets for ever.
pub handle_user_state_blocked :
    (unmarshal : Bytes → Option UserState) (buffer : Bytes) (c : Client) (p : UserState) (s u i : ℕ)
    → c.locked ≡ false
    → unmarshal buffer ≡ some p
    → p.session ≡ some s
    → Map.get c.world.users s ≡ some u
    → p.actor ≡ none
    → p.channel_id ≡ some i
    → Map.get c.world.channels i ≡ none
    → handle_user_state unmarshal buffer c ≡ blocked
unfolding handle_user_state
handle_user_state_blocked unmarshal buffer c p s u i free e es eu ea ei ec =
    unmarshalled-some unmarshal buffer _ c e
    ∙ required-some p.session _ c es
    ∙ lock_free _ c free
    ∙ world_read _ _
    ∙ set_world_then _ _ _
    ∙ some_or_unlock-some _ _ _ (ap (λ r. r.2) found)
    ∙ find_actor-none _ _ _ _ ea
    ∙ find_channel_blocked _ _ _ _ i refl ei
        (ap (λ m. Map.get m i) (same.channels ∙ ap (λ r. r.1.channels) found) ∙ ec)
  where
    found : find_or_connect s c.world ≡ (u, c.world, some 0)
    found = find_or_connect_found s c.world eu

    present : World
    present = (find_or_connect s c.world).1

    same : SameGraph present (update_identity (find_or_connect s c.world).0 p (present, 0)).0
    same = update_identity-SameGraph _ p (present, 0)
