-- ===== src/Client/AccessControl/Returned.antt =====
-- An ACL that comes from the server, gets the names of its users, and goes back.
use gumble.Prelude.{
  ℕ, ◌%◌, ◌^◌, ◌≡◌, true, Option, none, some, List, [], ◌∷◌, map, ◌==◌, ◌≢◌, false, All,
}
use gumble.Map
use gumble.Map.{Map}
use gumble.Version.{or_else}
use gumble.Client.{Client, Text, AclUser}
use gumble.Client.AccessControl.{AclChanAcl, AclChanGroup, AclPacket}

-- What goes back of a rule: every field is set but `inherited`, and no group beside a user.
abbrev pub returned_group : Option ℕ → Option Text → Option Text
returned_group (some i) name = none
returned_group none name = name

abbrev pub returned_rule : AclChanAcl → AclChanAcl
returned_rule r = record {
  apply_here = some (or_else true r.apply_here);
  apply_subs = some (or_else true r.apply_subs);
  inherited = none;
  user_id = r.user_id;
  group = returned_group r.user_id r.group;
  grant = some (or_else 0 r.grant % 2 ^ 32);
  deny = some (or_else 0 r.deny % 2 ^ 32);
}

-- No id stands twice.
abbrev Absent : ℕ → List ℕ → Type 0
Absent i js = All (λ j. (i == j) ≡ false) js

abbrev pub AreDistinct : List ℕ → Type 0
AreDistinct [] = Unit {0}
AreDistinct (i ∷ is) = All (λ j. (j == i) ≡ false) is × AreDistinct is

abbrev keys : Map AclUser → List ℕ
keys [] = []
keys ((k, u) ∷ m) = k ∷ keys m

-- A group with a name and distinct users, and what goes back of it: not the inherited users.
pub record IsPlain (g : AclChanGroup) : Type 0 where
  pub named : g.name ≢ none
  pub added : AreDistinct g.add
  pub removed : AreDistinct g.remove

abbrev pub returned_group_packet : AclChanGroup → AclChanGroup
returned_group_packet g = record {
  name = g.name;
  inherited = none;
  inherit = some (or_else true g.inherit);
  inheritable = some (or_else true g.inheritable);
  add = g.add;
  remove = g.remove;
  inherited_members = [];
}

-- What goes back of a packet.
abbrev pub returned_acl : AclPacket → AclPacket
returned_acl p = record {
  channel_id = p.channel_id;
  inherit_acls = some (or_else true p.inherit_acls);
  groups = map returned_group_packet p.groups;
  acls = map returned_rule p.acls;
  query = some false;
}
