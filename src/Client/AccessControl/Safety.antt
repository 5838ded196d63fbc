-- ===== src/Client/AccessControl/Safety.antt =====
-- How handleACL and handleQueryUsers end.
use gumble.Prelude.{
  ℕ, ◌≡◌, ◌≢◌, refl, Option, none, some, List, [], ◌∷◌, ◌++◌, All, inl, inr, Option-cases,
}
use gumble.Map
use gumble.Client.{Client, Bytes, Acl, AclGroup, acl}
use gumble.Client.Monad.{M, ◌>>=◌, pure, modify, emit, returned}
use gumble.Client.Sound.{
  IsIdle, Ends, well, unmarshalled-Ends, some_or_throw-Ends, world-Ends, client-Ends, modify-Ends,
}
use gumble.Client.AccessControl.{
  AclPacket, AclChanGroup, groups_of, group_of, handle_acl, QueryUsers, handle_query_users,
  user_names, name_acl,
}

-- Every group has a name, as the protocol requires.
abbrev pub AllNamed : List AclChanGroup → Type 0
AllNamed gs = All (λ g. g.name ≢ none) gs

groups_of-returned :
    (gs : List AclChanGroup) (c : Client)
    → AllNamed gs
    → (l : List AclGroup) × (groups_of gs c ≡ returned l c)
unfolding groups_of ◌>>=◌ pure
groups_of-returned [] c h = ([], refl)
groups_of-returned (g ∷ gs) c h = elim (Option-cases g.name) [
  | inl e ↦ absurd (h.0 e)
  | inr (n, e) ↦
      let (l, q) = groups_of-returned gs c h.1 in (group_of g n ∷ l, rw (e, groups_of, ◌>>=◌, q))
]

groups_of-Ends {κ μ} :
    {B : Type κ} {Q : B → Client → Type μ} (gs : List AclChanGroup) (f : List AclGroup → M B)
    (c : Client)
    → AllNamed gs
    → ((l : List AclGroup) → Ends Q (f l c))
    → Ends Q ((groups_of gs >>= f) c)
unfolding ◌>>=◌
groups_of-Ends gs f c h k = let (l, q) = groups_of-returned gs c h in rw (q, ◌>>=◌) (k l)

-- On an idle client handleACL refuses the packet, or keeps a list of the packet's channel for
-- QueryUsers and changes nothing else, if every group of the packet has a name.
pub handle_acl-Ends :
    (unmarshal : Bytes → Option AclPacket) (buffer : Bytes) (c : Client)
    → IsIdle c
    → ((p : AclPacket) → unmarshal buffer ≡ some p → AllNamed p.groups)
    → Ends
        (λ _ d.
          (a : Acl) × (d ≡ record c { tmp_acl = some a })
          × (p : AclPacket) × (i : ℕ) × (unmarshal buffer ≡ some p)
          × (p.channel_id ≡ some i)
          × (Map.get c.world.channels i ≡ some a.channel))
        (handle_acl unmarshal buffer c)
unfolding handle_acl modify
handle_acl-Ends unmarshal buffer c i named = unmarshalled-Ends unmarshal buffer _ c i λ p e.
    some_or_throw-Ends _ p.channel_id _ c i λ id ei. world-Ends _ c (
      some_or_throw-Ends _ (Map.get c.world.channels id) _ c i
        λ x ex. groups_of-Ends p.groups _ c (named p e) λ l. well (_, refl, p, id, e, ei, ex))

-- On an idle client handleQueryUsers refuses the packet, or reports the list that handleACL has kept
-- once, with the names of the packet in it, and forgets it.
pub handle_query_users-Ends :
    (unmarshal : Bytes → Option QueryUsers) (buffer : Bytes) (c : Client)
    → IsIdle c
    → Ends
        (λ _ d.
          (p : QueryUsers) × (a : Acl) × (unmarshal buffer ≡ some p)
          × (c.tmp_acl ≡ some a)
          × (d ≡ record c {
            tmp_acl = none;
            events = c.events ++ (acl (name_acl (user_names [] p.ids p.names) a) ∷ []);
          }))
        (handle_query_users unmarshal buffer c)
unfolding handle_query_users emit
handle_query_users-Ends unmarshal buffer c i = unmarshalled-Ends unmarshal buffer _ c i λ p e.
    client-Ends _ c
      (some_or_throw-Ends _ c.tmp_acl _ c i λ a ea. modify-Ends _ _ c (well (p, a, e, ea, refl)))
