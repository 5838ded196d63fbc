-- ===== src/Client/UserRemove.antt =====
-- handleUserRemove of gumble/handlers.go.
use gumble.Prelude.{ℕ, Bool, true, false, Option, none, some, [], if◌then◌else◌}
use gumble.Map
use gumble.Client.{World, Text, Bytes, user_change, kicked, banned}
use gumble.Client.Monad.{
  M, ◌>>=◌, ◌>>◌, pure, lock, unlock, world, set_world, emit_if_synced, unmarshalled, required,
  some_or_unlock, returned,
}
use gumble.Client.Graph.{remove_user}
use gumble.Client.ChannelState.{flag, ref_eq}
use gumble.Client.UserChange

-- The fields of MumbleProto.UserRemove.
pub record UserRemove : Type 0 where
  pub session : Option ℕ
  pub actor : Option ℕ
  pub reason : Option Text
  pub ban : Option Bool

-- `Users[*packet.Actor]`, which must be known where the packet names one.
unfoldable pub find_actor : World → Option ℕ → M (Option ℕ)
unfolding pure some_or_unlock
find_actor w none = pure none
find_actor w (some a) = elim (Map.get w.users a) [
  | some u ↦ pure (some u)
  | none ↦ some_or_unlock none
]

abbrev pub is_some {ℓ} : {A : Type ℓ} → Option A → Bool
is_some none = false
is_some (some a) = true

-- `packet.Ban != nil && *packet.Ban`
abbrev pub is_true : Option Bool → Bool
is_true none = false
is_true (some b) = b

abbrev pub text_or_empty : Option Text → Text
text_or_empty none = []
text_or_empty (some s) = s

-- `if event.User == c.Self { c.disconnectEvent.Type = … }`
unfoldable pub note_own_removal : ℕ → Bool → M (Unit {0})
note_own_removal u ban c = returned tt (
    if ref_eq (some u) c.self
    then record c { disconnect_type = if ban then banned else kicked }
    else c)

unfoldable pub handle_user_remove : (Bytes → Option UserRemove) → Bytes → M (Unit {0})
handle_user_remove unmarshal buffer = do
  packet ← unmarshalled unmarshal buffer
  session ← required packet.session
  lock
  w ← world
  u ← some_or_unlock (Map.get w.users session)
  actor ← find_actor w packet.actor
  let t = flag (is_some actor) UserChange.kicked UserChange.disconnected
  set_world (remove_user u session w)
  let ban = is_true packet.ban
  note_own_removal u ban
  unlock
  emit_if_synced (
      user_change (record {
        type = flag ban UserChange.banned t;
        user = some u;
        actor = actor;
        string = text_or_empty packet.reason;
      }))
