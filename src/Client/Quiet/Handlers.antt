-- ===== src/Client/Quiet/Handlers.antt =====
-- The handlers that change the graph or the context actions, and the notices about it, are quiet.
use gumble.Prelude.{
  ℕ, refl, Option-cases, inl, inr, Option, none, some, List, [], ◌∷◌, Bool, true, false,
  if◌then◌else◌,
}
use gumble.Map
use gumble.Map.{Map}
use gumble.Client.{World, Text, Bytes, ContextAction, banned, kicked}
use gumble.Client.Monad.{panic, modify}
use gumble.Client.ChannelState.{ref_eq, ChannelState, handle_channel_state}
use gumble.Client.ChannelRemove.{ChannelRemove, handle_channel_remove}
use gumble.Client.UserRemove.{find_actor, note_own_removal, handle_user_remove, UserRemove}
use gumble.Client.UserState.{UserState, find_channel, handle_user_state}
use gumble.Client.UserList.{UserListUser, registered_users, handle_user_list}
use gumble.Client.PermissionQuery.{
  PermissionQuery, single_channel, emit_permissions, handle_permission_query,
}
use gumble.Client.Notices.{
  find_named, denied_type, PermissionDeniedPacket, handle_permission_denied,
}
use gumble.Client.ContextActions.{
  ContextActionModify, Change, create_action, add_action, remove_action, modify_action, report,
  handle_context_action_modify,
}
use gumble.Client.Quiet.{
  IsQuiet, Follows, Follows-refl, aside, quiet_rules, modify-IsQuiet, pure-IsQuiet, throw-IsQuiet,
  some_or_unlock-IsQuiet, bind-IsQuiet, client-IsQuiet, panic-IsQuiet, then-IsQuiet, emit-IsQuiet,
}

-- The parts of the handlers that branch.
pub find_actor-IsQuiet : (w : World) (a : Option ℕ) → IsQuiet (find_actor w a)
unfolding find_actor
find_actor-IsQuiet w none = pure-IsQuiet none
find_actor-IsQuiet w (some a) = elim (Option-cases (Map.get w.users a)) [
  | inl e ↦ rw (e, find_actor) (search quiet_rules)
  | inr (u, e) ↦ rw (e, find_actor) (search quiet_rules)
]

pub find_channel-IsQuiet : (w : World) (i : Option ℕ) → IsQuiet (find_channel w i)
unfolding find_channel
find_channel-IsQuiet w none = pure-IsQuiet none
find_channel-IsQuiet w (some i) = elim (Option-cases (Map.get w.channels i)) [
  | inl e ↦ rw (e, find_channel) (search quiet_rules)
  | inr (c, e) ↦ rw (e, find_channel) (search quiet_rules)
]

pub find_named-IsQuiet : (m : Map ℕ) (i : Option ℕ) → IsQuiet (find_named m i)
unfolding find_named
find_named-IsQuiet m none = pure-IsQuiet none
find_named-IsQuiet m (some i) = elim (Option-cases (Map.get m i)) [
  | inl e ↦ rw (e, find_named) (search quiet_rules)
  | inr (r, e) ↦ rw (e, find_named) (search quiet_rules)
]

pub denied_type-IsQuiet : (h9k : ℕ) (t : Option ℕ) → IsQuiet (denied_type h9k t)
unfolding denied_type
denied_type-IsQuiet h9k none = throw-IsQuiet _
denied_type-IsQuiet h9k (some t) = search quiet_rules

pub note_own_removal-IsQuiet : (u : ℕ) (ban : Bool) → IsQuiet (note_own_removal u ban)
unfolding note_own_removal
note_own_removal-IsQuiet u ban = record {
  at = λ c.
      elim (ref_eq (some u) c.self)
        as (λ own.
          Follows c
            (if own then record c { disconnect_type = if ban then banned else kicked } else c)) [
              | true ↦ aside refl refl refl refl refl
              | false ↦ Follows-refl c
            ];
}

pub registered_users-IsQuiet :
    (parse : Text → ℕ) (w : World) (us : List UserListUser) → IsQuiet (registered_users parse w us)
unfolding registered_users
registered_users-IsQuiet parse w [] = pure-IsQuiet []
registered_users-IsQuiet parse w (u ∷ us) = elim (Option-cases u.user_id) [
  | inl e ↦ rw (e, registered_users) (search quiet_rules)
  | inr (i, e) ↦
      rw (e, registered_users) (search (registered_users-IsQuiet parse w us, quiet_rules))
]

pub single_channel-IsQuiet : (w : World) (i p : Option ℕ) → IsQuiet (single_channel w i p)
unfolding single_channel
single_channel-IsQuiet w none p = pure-IsQuiet _
single_channel-IsQuiet w (some i) none = pure-IsQuiet _
single_channel-IsQuiet w (some i) (some p) = elim (Option-cases (Map.get w.channels i)) [
  | inl e ↦ rw (e, single_channel) (search quiet_rules)
  | inr (c, e) ↦ rw (e, single_channel) (search quiet_rules)
]

pub emit_permissions-IsQuiet : (cs : List (Option ℕ)) → IsQuiet (emit_permissions cs)
unfolding emit_permissions
emit_permissions-IsQuiet [] = pure-IsQuiet tt
emit_permissions-IsQuiet (c ∷ cs) =
    then-IsQuiet _ _ (emit-IsQuiet _ tt) (emit_permissions-IsQuiet cs)

pub create_action-IsQuiet : (a : ContextAction) → IsQuiet (create_action a)
unfolding create_action
create_action-IsQuiet a = bind-IsQuiet _ _ client-IsQuiet λ c.
    elim c.context_actions
      as (λ o. IsQuiet {A = Unit {0}} (elim o [
        | none ↦ panic
        | some as' ↦ modify (λ c. record c { context_actions = some (a ∷ as') })
      ])) [ none ↦ panic-IsQuiet | some as' ↦ search quiet_rules ]

pub add_action-IsQuiet :
    (name : Text) (p : ContextActionModify) (o : Option ContextAction)
    → IsQuiet (add_action name p o)
unfolding add_action
add_action-IsQuiet name p (some a) = pure-IsQuiet none
add_action-IsQuiet name p none = search (create_action-IsQuiet, quiet_rules)

pub remove_action-IsQuiet :
    (name : Text) (o : Option ContextAction) → IsQuiet (remove_action name o)
unfolding remove_action
remove_action-IsQuiet name none = pure-IsQuiet none
remove_action-IsQuiet name (some a) = search quiet_rules

pub modify_action-IsQuiet :
    (name : Text) (p : ContextActionModify) (op : ℕ) → IsQuiet (modify_action name p op)
unfolding modify_action
modify_action-IsQuiet name p op =
    search (add_action-IsQuiet, remove_action-IsQuiet, quiet_rules) depth 12

pub report-IsQuiet : (c : Change) → IsQuiet (report c)
unfolding report
report-IsQuiet none = pure-IsQuiet tt
report-IsQuiet (some (t, a)) = search quiet_rules

pub ruleset part_rules = (
  quiet_rules, find_actor-IsQuiet, find_channel-IsQuiet, find_named-IsQuiet, denied_type-IsQuiet,
  note_own_removal-IsQuiet, registered_users-IsQuiet, single_channel-IsQuiet,
  emit_permissions-IsQuiet, modify_action-IsQuiet, report-IsQuiet,
)

module _ (buffer : Bytes) where
  pub handle_channel_state-IsQuiet :
      (unmarshal : Bytes → Option ChannelState) → IsQuiet (handle_channel_state unmarshal buffer)
  unfolding handle_channel_state
  handle_channel_state-IsQuiet unmarshal = search part_rules depth 12

  pub handle_user_state-IsQuiet :
      (unmarshal : Bytes → Option UserState) → IsQuiet (handle_user_state unmarshal buffer)
  unfolding handle_user_state
  handle_user_state-IsQuiet unmarshal = search part_rules depth 20

  pub handle_user_remove-IsQuiet :
      (unmarshal : Bytes → Option UserRemove) → IsQuiet (handle_user_remove unmarshal buffer)
  unfolding handle_user_remove
  handle_user_remove-IsQuiet unmarshal = search part_rules depth 20

  pub handle_channel_remove-IsQuiet :
      (unmarshal : Bytes → Option ChannelRemove) → IsQuiet (handle_channel_remove unmarshal buffer)
  unfolding handle_channel_remove
  handle_channel_remove-IsQuiet unmarshal = search part_rules depth 12

  pub handle_user_list-IsQuiet :
      (parse : Text → ℕ) (unmarshal : Bytes → Option (List UserListUser))
      → IsQuiet (handle_user_list parse unmarshal buffer)
  unfolding handle_user_list
  handle_user_list-IsQuiet parse unmarshal = search part_rules depth 12

  pub handle_permission_query-IsQuiet :
      (unmarshal : Bytes → Option PermissionQuery)
      → IsQuiet (handle_permission_query unmarshal buffer)
  unfolding handle_permission_query
  handle_permission_query-IsQuiet unmarshal = search part_rules depth 12

  pub handle_permission_denied-IsQuiet :
      (h9k : ℕ) (unmarshal : Bytes → Option PermissionDeniedPacket)
      → IsQuiet (handle_permission_denied h9k unmarshal buffer)
  unfolding handle_permission_denied
  handle_permission_denied-IsQuiet h9k unmarshal = search part_rules depth 12

  pub handle_context_action_modify-IsQuiet :
      (unmarshal : Bytes → Option ContextActionModify)
      → IsQuiet (handle_context_action_modify unmarshal buffer)
  unfolding handle_context_action_modify
  handle_context_action_modify-IsQuiet unmarshal = search part_rules depth 12
