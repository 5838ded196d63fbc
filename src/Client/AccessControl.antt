-- ===== src/Client/AccessControl.antt =====
-- handleACL and handleQueryUsers of gumble/handlers.go, and gumble/acl.go.
pub mod Safety
pub mod Returned
mod Tests
use gumble.Prelude.{
  ℕ, zero, suc, ◌+◌, ◌%◌, ◌^◌, Bool, true, false, Option, none, some, List, [], ◌∷◌, map,
  if◌then◌else◌,
}
use gumble.Map.{Map}
use gumble.Map
use gumble.Version.{or_else}
use gumble.Client.{
  World, Client, Text, Bytes, text_eq, Acl, AclUser, AclGroup, AclRule, RuleGroup, listed, unlisted,
  acl,
}
use gumble.Client.Monad.{
  M, ◌>>=◌, ◌>>◌, pure, panic, invalid_protobuf, incomplete_protobuf, world, client, modify, emit,
  unmarshalled, some_or_throw,
}

-- MumbleProto.ACL_ChanGroup, ACL_ChanACL and ACL. Where a Boolean is not set, its Get method gives true.
pub record AclChanGroup : Type 0 where
  pub name : Option Text
  pub inherited : Option Bool
  pub inherit : Option Bool
  pub inheritable : Option Bool
  pub add : List ℕ
  pub remove : List ℕ
  pub inherited_members : List ℕ

pub record AclChanAcl : Type 0 where
  pub apply_here : Option Bool
  pub apply_subs : Option Bool
  pub inherited : Option Bool
  pub user_id : Option ℕ
  pub group : Option Text
  pub grant : Option ℕ
  pub deny : Option ℕ

pub record AclPacket : Type 0 where
  pub channel_id : Option ℕ
  pub inherit_acls : Option Bool
  pub groups : List AclChanGroup
  pub acls : List AclChanAcl
  pub query : Option Bool

-- `for _, userID := range ids { m[userID] = &ACLUser{UserID: userID} }`
unfoldable pub add_users : Map AclUser → List ℕ → Map AclUser
add_users m [] = m
add_users m (i ∷ ids) = add_users (Map.put m i (record { user_id = i; name = [] })) ids

abbrev pub group_of : AclChanGroup → Text → AclGroup
group_of g name = record {
  name = name;
  inherited = or_else true g.inherited;
  inherit_users = or_else true g.inherit;
  inheritable = or_else true g.inheritable;
  users_add = add_users [] g.add;
  users_remove = add_users [] g.remove;
  users_inherited = add_users [] g.inherited_members;
}

-- The loop over `packet.Groups`; a group without a name is a nil pointer that is read.
unfoldable pub groups_of : List AclChanGroup → M (List AclGroup)
unfolding pure panic ◌>>=◌
groups_of [] = pure []
groups_of (g ∷ gs) =
    let rest = groups_of gs in
    elim g.name [ none ↦ panic | some name ↦ rest >>= λ l. pure (group_of g name ∷ l) ]

-- The first group of that name, from the place `i` on, or a group of its own.
unfoldable pub find_group : Text → ℕ → List AclGroup → RuleGroup
find_group name i [] = unlisted name
find_group name i (g ∷ gs) = if text_eq g.name name then listed i else find_group name (suc i) gs

-- `if rule.UserId != nil { … } else if rule.Group != nil { … }`
abbrev pub rule_user : Option ℕ → Option AclUser
rule_user none = none
rule_user (some i) = some (record { user_id = i; name = [] })

abbrev pub rule_group : List AclGroup → Option ℕ → Option Text → Option RuleGroup
rule_group gs (some i) name = none
rule_group gs none none = none
rule_group gs none (some name) = some (find_group name 0 gs)

unfoldable pub rule_of : List AclGroup → AclChanAcl → AclRule
unfolding find_group
rule_of gs r = record {
  applies_current = or_else true r.apply_here;
  applies_children = or_else true r.apply_subs;
  inherited = or_else true r.inherited;
  granted = or_else 0 r.grant;
  denied = or_else 0 r.deny;
  user = rule_user r.user_id;
  group = rule_group gs r.user_id r.group;
}

unfoldable pub handle_acl : (Bytes → Option AclPacket) → Bytes → M (Unit {0})
unfolding rule_of
handle_acl unmarshal buffer = do
  packet ← unmarshalled unmarshal buffer
  id ← some_or_throw invalid_protobuf packet.channel_id
  w ← world
  x ← some_or_throw invalid_protobuf (Map.get w.channels id)
  gs ← groups_of packet.groups
  modify (λ c. record c {
    tmp_acl = some (record {
      channel = x;
      groups = gs;
      rules = map (rule_of gs) packet.acls;
      inherits = or_else true packet.inherit_acls;
    });
  })

-- The fields of MumbleProto.QueryUsers.
pub record QueryUsers : Type 0 where
  pub ids : List ℕ
  pub names : List Text

-- `userMap[packet.Ids[i]] = packet.Names[i]` for as long as both lists last.
unfoldable pub user_names : Map Text → List ℕ → List Text → Map Text
user_names m (i ∷ ids) (n ∷ names) = user_names (Map.put m i n) ids names
user_names m _ _ = m

-- `user.Name = userMap[user.UserID]`
unfoldable pub name_user : Map Text → AclUser → AclUser
name_user m u = record u { name = or_else [] (Map.get m u.user_id) }

unfoldable pub name_users : Map Text → Map AclUser → Map AclUser
unfolding name_user
name_users m [] = []
name_users m ((k, u) ∷ us) = (k, name_user m u) ∷ name_users m us

abbrev pub name_group : Map Text → AclGroup → AclGroup
name_group m g = record g {
  users_add = name_users m g.users_add;
  users_remove = name_users m g.users_remove;
  users_inherited = name_users m g.users_inherited;
}

abbrev pub name_rule_user : Map Text → Option AclUser → Option AclUser
name_rule_user m none = none
name_rule_user m (some u) = some (name_user m u)

abbrev pub name_rule : Map Text → AclRule → AclRule
name_rule m r = record r { user = name_rule_user m r.user }

unfoldable pub name_acl : Map Text → Acl → Acl
unfolding name_users name_user
name_acl m a = record a { groups = map (name_group m) a.groups; rules = map (name_rule m) a.rules }

unfoldable pub handle_query_users : (Bytes → Option QueryUsers) → Bytes → M (Unit {0})
unfolding name_acl user_names
handle_query_users unmarshal buffer = do
  packet ← unmarshalled unmarshal buffer
  c ← client
  a ← some_or_throw incomplete_protobuf c.tmp_acl
  modify (λ c. record c { tmp_acl = none })
  emit (acl (name_acl (user_names [] packet.ids packet.names) a))

-- `append(ids, user.UserID)` for each user of a map.
abbrev pub ids_of : Map AclUser → List ℕ
ids_of [] = []
ids_of ((k, u) ∷ us) = u.user_id ∷ ids_of us

abbrev pub group_packet : AclGroup → AclChanGroup
group_packet g = record {
  name = some g.name;
  inherited = none;
  inherit = some g.inherit_users;
  inheritable = some g.inheritable;
  add = ids_of g.users_add;
  remove = ids_of g.users_remove;
  inherited_members = [];
}

-- The name of the group at a place.
unfoldable pub name_at : List AclGroup → ℕ → Text
name_at [] i = []
name_at (g ∷ gs) zero = g.name
name_at (g ∷ gs) (suc i) = name_at gs i

abbrev pub group_name : List AclGroup → RuleGroup → Text
group_name gs (listed i) = name_at gs i
group_name gs (unlisted name) = name

abbrev pub user_id_of : Option AclUser → Option ℕ
user_id_of none = none
user_id_of (some u) = some u.user_id

abbrev pub rule_group_name : List AclGroup → Option RuleGroup → Option Text
rule_group_name gs none = none
rule_group_name gs (some g) = some (group_name gs g)

unfoldable pub rule_packet : List AclGroup → AclRule → AclChanAcl
unfolding name_at
rule_packet gs r = record {
  apply_here = some r.applies_current;
  apply_subs = some r.applies_children;
  inherited = none;
  user_id = user_id_of r.user;
  group = rule_group_name gs r.group;
  grant = some (r.granted % 2 ^ 32);
  deny = some (r.denied % 2 ^ 32);
}

-- (*ACL).writeMessage.
unfoldable pub acl_packet : World → Acl → AclPacket
unfolding rule_packet
acl_packet w a = record {
  channel_id = some (w.channel_at a.channel).id;
  inherit_acls = some a.inherits;
  groups = map group_packet a.groups;
  acls = map (rule_packet a.groups) a.rules;
  query = some false;
}
