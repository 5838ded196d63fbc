-- ===== src/Client/Safety.antt =====
-- The handlers that change the graph: they come back, leave the mutex free and the graph consistent.
pub mod Deadlock
pub mod Users
use gumble.Prelude.{
  ℕ, ◌<◌, ◌≡◌, refl, ◌≢◌, sym, ◌∙◌, ap, Bool, true, false, Option, none, some, arith, Option-cases,
  inl, inr,
}
use gumble.Map.{Map}
use gumble.Map
use gumble.Client.{Client, World, Bytes}
use gumble.Client.Monad.{M, ◌>>=◌, ◌>>◌, pure, Outcome, returned, failed, blocked, set_world}
use gumble.Client.Consistent.{Consistent, SameGraph}
use gumble.Client.Consistent.Channels.{remove_channel-Consistent}
use gumble.Client.Consistent.Users.{remove_user-Consistent}
use gumble.Client.Sound.{
  IsIdle, IsBusy, Ends, well, with_error, unmarshalled-Ends, required-Ends, some_or_unlock-Ends,
  lock-Ends, unlock-Ends, world-Ends, set_world-Ends, emit_if_synced-Ends,
}
use gumble.Client.ChannelState.{ChannelState, apply_channel_state, handle_channel_state}
use gumble.Client.ChannelState.Graph.{apply_channel_state-Consistent}
use gumble.Client.ChannelRemove.{ChannelRemove, handle_channel_remove}
use gumble.Client.UserRemove.{UserRemove, handle_user_remove, find_actor, note_own_removal}
use gumble.Client.UserState.{UserState, handle_user_state}

-- On an idle client, one with the mutex free and a consistent graph, handleChannelState returns or
-- gives an error whatever the buffer holds, it neither panics nor blocks, and the client is idle again.
pub handle_channel_state-Ends :
    (unmarshal : Bytes → Option ChannelState) (buffer : Bytes) (c : Client)
    → IsIdle c
    → Ends (λ _ d. IsIdle d) (handle_channel_state unmarshal buffer c)
unfolding handle_channel_state
handle_channel_state-Ends unmarshal buffer c i = unmarshalled-Ends unmarshal buffer _ c i λ p _.
    required-Ends p.channel_id _ c i λ id _. lock-Ends _ c i.free (
      world-Ends _ _ (
        set_world-Ends _ _ _ (
          unlock-Ends _ _ refl (
            emit_if_synced-Ends _ _ (record {
              free = refl;
              consistent = apply_channel_state-Consistent id p i.consistent;
            })))))

-- On an idle client handleChannelRemove returns or gives an error whatever the buffer holds, it
-- neither panics nor blocks, and the client is idle again.
pub handle_channel_remove-Ends :
    (unmarshal : Bytes → Option ChannelRemove) (buffer : Bytes) (c : Client)
    → IsIdle c
    → Ends (λ _ d. IsIdle d) (handle_channel_remove unmarshal buffer c)
unfolding handle_channel_remove
handle_channel_remove-Ends unmarshal buffer c i = unmarshalled-Ends unmarshal buffer _ c i λ p _.
    required-Ends p.channel_id _ c i λ id _. lock-Ends _ c i.free (
      world-Ends _ _ (
        some_or_unlock-Ends _ _ _ (record { held = refl; consistent = i.consistent })
          λ r e. set_world-Ends _ _ _ (
            unlock-Ends _ _ refl (
              emit_if_synced-Ends _ _ (record {
                free = refl;
                consistent = remove_channel-Consistent i.consistent id r e;
              })))))
