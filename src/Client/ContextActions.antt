-- ===== src/Client/ContextActions.antt =====
-- handleContextActionModify of gumble/handlers.go, gumble/contextactions.go and contextaction.go.
pub mod Safety
use gumble.Prelude.{ℕ, Bool, true, false, Option, none, some, List, [], ◌∷◌, ◌==◌, if◌then◌else◌}
use gumble.Client.{
  Client, Channel, User, Text, Bytes, text_eq, ContextAction, ContextActionChangeType, action_added,
  action_removed, context_action_change,
}
use gumble.Client.Monad.{
  M, ◌>>=◌, ◌>>◌, pure, panic, invalid_protobuf, lock, unlock, client, modify, emit, unmarshalled,
  some_or_throw, some_or_unlock,
}
use gumble.Client.UserRemove.{text_or_empty}
use gumble.Client.Notices.{or_zero}

-- The fields of MumbleProto.ContextActionModify.
pub record ContextActionModify : Type 0 where
  pub action : Option Text
  pub text : Option Text
  pub context : Option ℕ
  pub operation : Option ℕ

-- `m[name]` and `delete(m, name)`.
unfoldable pub find_action : Text → List ContextAction → Option ContextAction
find_action name [] = none
find_action name (a ∷ as') = if text_eq a.name name then some a else find_action name as'

unfoldable pub delete_action : Text → List ContextAction → List ContextAction
delete_action name [] = []
delete_action name (a ∷ as') =
    let rest = delete_action name as' in if text_eq a.name name then rest else a ∷ rest

-- Reading a nil map gives nil.
abbrev pub actions_of : Option (List ContextAction) → List ContextAction
actions_of none = []
actions_of (some as') = as'

-- ContextActions.create: a write to a nil map panics.
unfoldable pub create_action : ContextAction → M (Unit {0})
unfolding ◌>>=◌ client panic modify
create_action a = client >>= λ c. elim c.context_actions [
  | none ↦ panic
  | some as' ↦ modify (λ c. record c { context_actions = some (a ∷ as') })
]

abbrev pub Change : Type 0
Change = Option (ContextActionChangeType × ContextAction)

-- The case ContextActionModify_Add, for a name that is not there yet.
unfoldable pub add_action : Text → ContextActionModify → Option ContextAction → M Change
unfolding create_action pure ◌>>◌
add_action name p (some a) = pure none
add_action name p none =
    let a : ContextAction = record {
      type = or_zero p.context;
      name = name;
      label = text_or_empty p.text;
    } in
    create_action a >> pure (some (action_added, a))

-- The case ContextActionModify_Remove.
unfoldable pub remove_action : Text → Option ContextAction → M Change
unfolding pure modify delete_action ◌>>◌
remove_action name none = pure none
remove_action name (some a) =
    modify
      (λ c. record c { context_actions = some (delete_action name (actions_of c.context_actions)) })
    >> pure (some (action_removed, a))

-- `switch *packet.Operation`; Add is 0 and Remove is 1.
unfoldable pub modify_action : Text → ContextActionModify → ℕ → M Change
unfolding ◌>>=◌ client add_action remove_action some_or_unlock
modify_action name p op = client >>= λ c.
    let old = find_action name (actions_of c.context_actions) in
    if op == 0
    then add_action name p old
    else if op == 1
    then remove_action name old
    else some_or_unlock none

-- A change is reported; where nothing changed the handler has returned nil.
unfoldable pub report : Change → M (Unit {0})
unfolding pure emit
report none = pure tt
report (some (t, a)) = emit (context_action_change t a)

unfoldable pub handle_context_action_modify :
    (Bytes → Option ContextActionModify) → Bytes → M (Unit {0})
handle_context_action_modify unmarshal buffer = do
  packet ← unmarshalled unmarshal buffer
  name ← some_or_throw invalid_protobuf packet.action
  op ← some_or_throw invalid_protobuf packet.operation
  lock
  change ← modify_action name packet op
  unlock
  report change

-- MumbleProto.ContextAction, the packets of the Trigger methods.
pub record TriggerPacket : Type 0 where
  pub session : Option ℕ
  pub channel_id : Option ℕ
  pub action : Text

unfoldable pub trigger : ContextAction → TriggerPacket
trigger a = record { session = none; channel_id = none; action = a.name }

unfoldable pub trigger_user : ContextAction → User → TriggerPacket
trigger_user a u = record { session = some u.session; channel_id = none; action = a.name }

unfoldable pub trigger_channel : ContextAction → Channel → TriggerPacket
trigger_channel a x = record { session = none; channel_id = some x.id; action = a.name }
