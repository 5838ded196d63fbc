-- ===== src/Client/PermissionQuery.antt =====
-- handlePermissionQuery of gumble/handlers.go.
pub mod Safety
use gumble.Prelude.{
  ℕ, Bool, true, false, Option, none, some, List, [], ◌∷◌, ◌++◌, map, if◌then◌else◌,
}
use gumble.Map.{Map}
use gumble.Map
use gumble.Client.{World, Bytes, channel_change}
use gumble.Client.Monad.{
  M, ◌>>=◌, ◌>>◌, pure, throw, invalid_protobuf, lock, unlock, world, set_world, emit, unmarshalled,
}
use gumble.Client.UserRemove.{is_true}
use gumble.Client.ChannelChange

-- The fields of MumbleProto.PermissionQuery.
pub record PermissionQuery : Type 0 where
  pub channel_id : Option ℕ
  pub permissions : Option ℕ
  pub flush : Option Bool

-- `singleChannel`, with its permissions: none unless both fields are set.
unfoldable pub single_channel : World → Option ℕ → Option ℕ → M (Option (ℕ × ℕ))
unfolding pure throw
single_channel w (some i) (some p) = elim (Map.get w.channels i) [
  | some c ↦ pure (some (c, p))
  | none ↦ throw invalid_protobuf
]
single_channel w _ _ = pure none

-- The channels that `range oldPermissions` collects; a key whose channel is gone gives nil.
abbrev pub permitted : World → Map ℕ → List (Option ℕ)
permitted w [] = []
permitted w ((i, p) ∷ m) = Map.get w.channels i ∷ permitted w m

abbrev pub flush_permissions : Bool → World → World × List (Option ℕ)
flush_permissions false w = (w, [])
flush_permissions true w = (record w { permissions = [] }, permitted w w.permissions)

abbrev pub set_permission : Option (ℕ × ℕ) → World × List (Option ℕ) → World × List (Option ℕ)
set_permission none s = s
set_permission (some (c, p)) (w, changed) = (
  record w { permissions = Map.put w.permissions (w.channel_at c).id p },
  changed ++ (some c ∷ []),
)

unfoldable pub emit_permissions : List (Option ℕ) → M (Unit {0})
unfolding pure ◌>>◌ emit
emit_permissions [] = pure tt
emit_permissions (c ∷ cs) =
    emit (channel_change (record { type = ChannelChange.permission; channel = c }))
    >> emit_permissions cs

unfoldable pub handle_permission_query : (Bytes → Option PermissionQuery) → Bytes → M (Unit {0})
handle_permission_query unmarshal buffer = do
  packet ← unmarshalled unmarshal buffer
  w ← world
  single ← single_channel w packet.channel_id packet.permissions
  lock
  let s = set_permission single (flush_permissions (is_true packet.flush) w)
  set_world s.0
  unlock
  emit_permissions s.1
