-- ===== src/Client/PermissionQuery/Safety.antt =====
-- handlePermissionQuery comes back, and leaves the graph alone.
use gumble.Prelude.{
  ℕ, refl, Bool, true, false, Option, none, some, List, [], ◌∷◌, Option-cases, inl, inr,
}
use gumble.Map
use gumble.Client.{World, Client, Bytes}
use gumble.Client.Monad.{M, ◌>>=◌, ◌>>◌, pure, emit}
use gumble.Client.Consistent.{SameGraph, same_graph, SameGraph-trans, SameGraph-Consistent}
use gumble.Client.Sound.{
  IsIdle, Ends, well, with_error, unmarshalled-Ends, lock-Ends, unlock-Ends, world-Ends,
  set_world-Ends,
}
use gumble.Client.UserRemove.{is_true}
use gumble.Client.PermissionQuery.{
  PermissionQuery, single_channel, flush_permissions, set_permission, emit_permissions,
  handle_permission_query,
}

module _ {κ μ} {B : Type κ} {Q : B → Client → Type μ} where
  single_channel-Ends :
      (w : World) (o p : Option ℕ) (f : Option (ℕ × ℕ) → M B) (c : Client)
      → IsIdle c
      → ((s : Option (ℕ × ℕ)) → Ends Q (f s c))
      → Ends Q ((single_channel w o p >>= f) c)
  unfolding ◌>>=◌ single_channel
  single_channel-Ends w none p f c i k = k none
  single_channel-Ends w (some j) none f c i k = k none
  single_channel-Ends w (some j) (some p) f c i k = elim (Option-cases (Map.get w.channels j)) [
    | inl e ↦ rw (e, single_channel, ◌>>=◌) (with_error i)
    | inr (q, e) ↦ rw (e, single_channel, ◌>>=◌) (k (some (q, p)))
  ]

permissions-SameGraph : (w : World) (m : List (ℕ × ℕ)) → SameGraph w (record w { permissions = m })
permissions-SameGraph w m = record {
  users = refl;
  channels = refl;
  next_user = refl;
  next_channel = refl;
  session = λ u. refl;
  channel = λ u. refl;
  id = λ c. refl;
  parent = λ c. refl;
  children = λ c. refl;
  members = λ c. refl;
}

flush_permissions-SameGraph : (b : Bool) (w : World) → SameGraph w (flush_permissions b w).0
flush_permissions-SameGraph false w = same_graph w
flush_permissions-SameGraph true w = permissions-SameGraph w []

set_permission-SameGraph :
    (o : Option (ℕ × ℕ)) (s : World × List (Option ℕ)) → SameGraph s.0 (set_permission o s).0
set_permission-SameGraph none s = same_graph s.0
set_permission-SameGraph (some (c, p)) (w, l) = permissions-SameGraph w _

emit_permissions-Ends :
    (cs : List (Option ℕ)) (c : Client) → IsIdle c → Ends (λ _ d. IsIdle d) (emit_permissions cs c)
unfolding emit_permissions ◌>>◌ ◌>>=◌ emit pure
emit_permissions-Ends [] c i = well i
emit_permissions-Ends (x ∷ cs) c i =
    emit_permissions-Ends cs _ (record { free = i.free; consistent = i.consistent })

-- On an idle client handlePermissionQuery returns or gives an error whatever the buffer holds, it
-- neither panics nor blocks, and the client is idle again.
pub handle_permission_query-Ends :
    (unmarshal : Bytes → Option PermissionQuery) (buffer : Bytes) (c : Client)
    → IsIdle c
    → Ends (λ _ d. IsIdle d) (handle_permission_query unmarshal buffer c)
unfolding handle_permission_query
handle_permission_query-Ends unmarshal buffer c i = unmarshalled-Ends unmarshal buffer _ c i λ p _.
    world-Ends _ _ (
      single_channel-Ends _ _ _ _ _ i λ s. lock-Ends _ c i.free (
        set_world-Ends _ _ _ (
          unlock-Ends _ _ refl (
            emit_permissions-Ends _ _ (record {
              free = refl;
              consistent =
                  SameGraph-Consistent
                    (SameGraph-trans (flush_permissions-SameGraph (is_true p.flush) c.world)
                      (set_permission-SameGraph s _))
                    i.consistent;
            })))))
