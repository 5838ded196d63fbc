-- ===== src/Client/ChannelRemove.antt =====
-- handleChannelRemove of gumble/handlers.go.
use gumble.Prelude.{ℕ, Option, some}
use gumble.Map
use gumble.Client.{Bytes, channel_change}
use gumble.Client.Monad.{
  M, ◌>>=◌, ◌>>◌, lock, unlock, world, set_world, emit_if_synced, unmarshalled, required,
  some_or_unlock,
}
use gumble.Client.Graph.{remove_channel}
use gumble.Client.ChannelChange

-- The field of MumbleProto.ChannelRemove.
pub record ChannelRemove : Type 0 where
  pub channel_id : Option ℕ

unfoldable pub handle_channel_remove : (Bytes → Option ChannelRemove) → Bytes → M (Unit {0})
handle_channel_remove unmarshal buffer = do
  packet ← unmarshalled unmarshal buffer
  id ← required packet.channel_id
  lock
  w ← world
  c ← some_or_unlock (Map.get w.channels id)
  set_world (remove_channel c id w)
  unlock
  emit_if_synced (channel_change (record { type = ChannelChange.removed; channel = some c }))
