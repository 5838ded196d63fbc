-- ===== src/Client/AccessControl/Tests.antt =====
-- An ACL of the root channel: one group, a rule for the group and one for a user.
use gumble.Prelude.{false, none, some, [], ◌∷◌}
use gumble.Map
use gumble.Client.{World, new_channel}
use gumble.Client.Samples.{no_world}
use gumble.Client.AccessControl.{AclChanAcl, AclChanGroup, AclPacket, QueryUsers}

abbrev group_rule : AclChanAcl
group_rule = record {
  apply_here = none;
  apply_subs = some false;
  inherited = some false;
  user_id = none;
  group = some (b'a' ∷ []);
  grant = some 1;
  deny = none;
}

abbrev user_rule : AclChanAcl
user_rule = record group_rule { user_id = some 7 }

abbrev members : AclChanGroup
members = record {
  name = some (b'a' ∷ []);
  inherited = none;
  inherit = none;
  inheritable = some false;
  add = 7 ∷ 8 ∷ [];
  remove = 9 ∷ [];
  inherited_members = 4 ∷ [];
}

abbrev rights : AclPacket
rights = record {
  channel_id = some 0;
  inherit_acls = none;
  groups = members ∷ [];
  acls = group_rule ∷ user_rule ∷ [];
  query = none;
}

abbrev asked : QueryUsers
asked = record { ids = 7 ∷ []; names = (b'z' ∷ []) ∷ [] }

abbrev one_channel : World
one_channel = record no_world { channels = (0, 0) ∷ []; channel_at = λ _. new_channel 0 }
