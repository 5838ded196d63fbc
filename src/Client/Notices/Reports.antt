-- ===== src/Client/Notices/Reports.antt =====
-- What the listeners are told.
use gumble.Prelude.{
  ℕ, ◌≡◌, ◌≢◌, ◌∙◌, refl, Option, none, some, List, [], ◌∷◌, ◌++◌, map, All, Option-cases,
  Bool-cases, inl, inr, ◌==◌, arith,
}
use gumble.Map.{Map}
use gumble.Map
use gumble.Client.{Client, Text, Bytes, text_message, permission_denied}
use gumble.Client.Monad.{M, ◌>>=◌, pure, emit, returned, unmarshalled-some, world_read}
use gumble.Client.Sound.{IsIdle, Ends, well, with_error, unmarshalled-Ends, world-Ends}
use gumble.Client.Notices.{
  find_optional, find_known, handle_text_message, text_message_packet, PermissionDeniedPacket,
  denied_type, find_named, or_zero, denied_string, handle_permission_denied,
}

-- The objects that a map holds under their own keys are found again.
find_known-map :
    (m : Map ℕ) (key : ℕ → ℕ) (rs : List ℕ)
    → All (λ r. Map.get m (key r) ≡ some r) rs
    → find_known m (map key rs) ≡ rs
unfolding find_known
find_known-map m key [] h = refl
find_known-map m key (r ∷ rs) h = rw (h.0, find_known-map m key rs h.1, find_known)

-- A text message to known users, channels and trees, sent back without an actor, is reported with the
-- same receivers, in their order, and the same message.
pub handle_text_message-text_message_packet :
    (c : Client) (users channels trees : List ℕ) (message : Text)
    → All (λ u. Map.get c.world.users (c.world.user_at u).session ≡ some u) users
    → All (λ x. Map.get c.world.channels (c.world.channel_at x).id ≡ some x) channels
    → All (λ x. Map.get c.world.channels (c.world.channel_at x).id ≡ some x) trees
    → handle_text_message
        (λ _. some (text_message_packet c.world users channels trees message))
        []
        c
      ≡ returned tt (record c {
        events =
            c.events
            ++ (text_message (record {
              sender = none;
              users = users;
              channels = channels;
              trees = trees;
              message = message;
            })
                ∷ []);
      })
unfolding handle_text_message text_message_packet emit
handle_text_message-text_message_packet c users channels trees message hu hc ht =
    unmarshalled-some _ [] _ c refl
    ∙ world_read _ c
    ∙ rw (
      find_known-map c.world.users (λ u. (c.world.user_at u).session) users hu,
      find_known-map c.world.channels (λ x. (c.world.channel_at x).id) channels hc,
      find_known-map c.world.channels (λ x. (c.world.channel_at x).id) trees ht,
    )

module _ {κ μ} {B : Type κ} {Q : B → Client → Type μ} where
  denied_type-Ends :
      (h9k : ℕ) (o : Option ℕ) (f : ℕ → M B) (c : Client)
      → IsIdle c
      → ((t : ℕ) → o ≡ some t → t ≢ h9k → Ends Q (f t c))
      → Ends Q ((denied_type h9k o >>= f) c)
  unfolding ◌>>=◌ denied_type
  denied_type-Ends h9k none f c i k = with_error i
  denied_type-Ends h9k (some t) f c i k = elim (Bool-cases (t == h9k)) [
    | inl e ↦ rw (e, denied_type, ◌>>=◌) (with_error i)
    | inr e ↦ rw (e, denied_type, ◌>>=◌) (k t refl (λ q. ground arith))
  ]

  find_named-Ends :
      (m : Map ℕ) (o : Option ℕ) (f : Option ℕ → M B) (c : Client)
      → IsIdle c
      → Ends Q (f (find_optional m o) c)
      → Ends Q ((find_named m o >>= f) c)
  unfolding ◌>>=◌ find_named pure
  find_named-Ends m none f c i k = k
  find_named-Ends m (some j) f c i k = elim (Option-cases (Map.get m j)) [
    | inl e ↦ rw (e, find_named, ◌>>=◌) (with_error i)
    | inr (r, e) ↦ rw (e, find_named, ◌>>=◌) (rw (e) at k)
  ]

-- On an idle client a PermissionDenied packet is refused, or reported once with its type, which is not H9K, and the user
-- and the channel that it names; nothing else in the client changes.
pub handle_permission_denied-Ends :
    (h9k : ℕ) (unmarshal : Bytes → Option PermissionDeniedPacket) (buffer : Bytes) (c : Client)
    → IsIdle c
    → Ends
        (λ _ d.
          (p : PermissionDeniedPacket) × (t : ℕ) × (unmarshal buffer ≡ some p)
          × (p.type ≡ some t)
          × (t ≢ h9k)
          × (d ≡ record c {
            events =
                c.events
                ++ (permission_denied (record {
                  type = t;
                  channel = find_optional c.world.channels p.channel_id;
                  user = find_optional c.world.users p.session;
                  permission = or_zero p.permission;
                  string = denied_string p.reason p.name;
                })
                    ∷ []);
          }))
        (handle_permission_denied h9k unmarshal buffer c)
unfolding handle_permission_denied emit
handle_permission_denied-Ends h9k unmarshal buffer c i =
    unmarshalled-Ends unmarshal buffer _ c i λ p e. denied_type-Ends h9k p.type _ c i λ t et ne.
      world-Ends _ c (
        find_named-Ends _ p.session _ c i
          (find_named-Ends _ p.channel_id _ c i (well (p, t, e, et, ne, refl))))
