-- ===== src/Client/Session/Harmless.antt =====
-- The packets that do no harm to an idle client, whatever it holds.
use gumble.Prelude.{
  ℕ, ◌≡◌, ◌≢◌, refl, Option, none, some, List, [], ◌∷◌, All, Option-cases, inl, inr, none-some, sym,
  ◌∙◌,
}
use gumble.Prelude.Int.{negsuc}
use gumble.Protocol.{
  Message, version, udp_tunnel, authenticate, ping, reject, server_sync, channel_remove,
  channel_state, user_remove, user_state, ban_list, text_message, permission_denied, acl,
  query_users, crypt_setup, context_action_modify, context_action, user_list, voice_target,
  permission_query, codec_version, user_stats, request_blob, server_config, suggest_config,
}
use gumble.Client.{Client, World, Text, Bytes, RegisteredUser}
use gumble.Client.Monad.{◌>>=◌, returned, pure}
use gumble.Client.Sound.{
  IsIdle, Ends, well, with_error, unmarshalled-Ends, world-Ends, modify-Ends, emit_last-Ends,
  pure-Ends, throw-Ends,
}
use gumble.Client.UserState.{UserState}
use gumble.Client.Bans.{BanEntry, handle_ban_list}
use gumble.Client.Notices.{
  TextMessagePacket, handle_text_message, ServerConfig, handle_server_config,
}
use gumble.Client.Notices.Reports.{handle_permission_denied-Ends}
use gumble.Client.UserList.{UserListUser, registered_user, registered_users, handle_user_list}
use gumble.Client.PermissionQuery.Safety.{handle_permission_query-Ends}
use gumble.Client.Safety.{handle_channel_state-Ends, handle_channel_remove-Ends}
use gumble.Client.Safety.Users.{handle_user_state-Ends, handle_user_remove-Ends}
use gumble.Client.Sync.{handle_unimplemented}
use gumble.Client.Sync.Safety.{
  handle_version-Ends, handle_codec_version-Ends, handle_suggest_config-Ends,
}
use gumble.Client.AccessControl.{AclPacket}
use gumble.Client.AccessControl.Safety.{AllNamed, handle_acl-Ends, handle_query_users-Ends}
use gumble.Client.Stats.{UserStatsPacket}
use gumble.Client.Stats.Safety.{handle_user_stats-Ends}
use gumble.Client.Ping.{FloatOps, Ping, note_timestamp, handle_ping}
use gumble.Client.Tunnel.Safety.{length_field, handle_udp_tunnel-Ends}
use gumble.Client.Session.{Externals, handler_of}

-- Every registered user has an id, as the protocol requires.
abbrev pub AllIds : List UserListUser → Type 0
AllIds us = All (λ u. u.user_id ≢ none) us

-- What is asked of a message: nothing, or what the protocol requires of it. The messages of the
-- handshake, and those that depend on what the client holds, are left out.
abbrev pub IsHarmless : Externals → Message → Bytes → Type 0
IsHarmless x udp_tunnel b = (n : ℕ) → length_field b ≢ negsuc n
IsHarmless x ping b = (p : Ping) → x.to_ping b ≡ some p → p.timestamp ≡ none
IsHarmless x reject b = ⊥
IsHarmless x server_sync b = ⊥
IsHarmless x user_state b = (p : UserState) → x.to_user_state b ≡ some p → p.channel_id ≡ none
IsHarmless x acl b = (p : AclPacket) → x.to_acl b ≡ some p → AllNamed p.groups
IsHarmless x context_action_modify b = ⊥
IsHarmless x user_list b = (us : List UserListUser) → x.to_user_list b ≡ some us → AllIds us
IsHarmless x user_stats b =
    (p : UserStatsPacket) → x.to_user_stats b ≡ some p → p.from_server ≢ none → p.from_client ≢ none
IsHarmless x m b = Unit {0}

-- A handler that is known to end well leaves the client idle.
weaken {ℓ} :
    {A : Type 0} {P : A → Client → Type ℓ} (o : _)
    → ((a : A) (d : Client) → P a d → IsIdle d)
    → Ends P o
    → Ends (λ _ d. IsIdle d) o
weaken _ k (well p) = well (k _ _ p)
weaken _ k (with_error i) = with_error i

module _ (b : Bytes) (c : Client) (i : IsIdle c) where
  registered_users-returned :
      (parse : Text → ℕ) (w : World) (us : List UserListUser)
      → AllIds us
      → (l : List RegisteredUser) × (registered_users parse w us c ≡ returned l c)
  unfolding registered_users ◌>>=◌ pure
  registered_users-returned parse w [] h = ([], refl)
  registered_users-returned parse w (u ∷ us) h = elim (Option-cases u.user_id) [
    | inl e ↦ absurd (h.0 e)
    | inr (n, e) ↦
        let (l, q) = registered_users-returned parse w us h.1 in
        (registered_user parse w u n ∷ l, rw (e, registered_users, ◌>>=◌, q))
  ]

  handle_user_list-Ends :
      (parse : Text → ℕ) (unmarshal : Bytes → Option (List UserListUser))
      → ((us : List UserListUser) → unmarshal b ≡ some us → AllIds us)
      → Ends (λ _ d. IsIdle d) (handle_user_list parse unmarshal b c)
  unfolding handle_user_list ◌>>=◌
  handle_user_list-Ends parse unmarshal h = unmarshalled-Ends unmarshal b _ c i λ us e.
      world-Ends _ c (
        let (l, q) = registered_users-returned parse c.world us (h us e) in
        rw (q, ◌>>=◌) (emit_last-Ends _ c i))

  handle_ban_list-Ends :
      (cidr_mask : ℕ → ℕ → Bytes) (parse : Text → ℕ) (unmarshal : Bytes → Option (List BanEntry))
      → Ends (λ _ d. IsIdle d) (handle_ban_list cidr_mask parse unmarshal b c)
  unfolding handle_ban_list
  handle_ban_list-Ends cidr_mask parse unmarshal =
      unmarshalled-Ends unmarshal b _ c i λ p _. emit_last-Ends _ c i

  handle_text_message-Ends :
      (unmarshal : Bytes → Option TextMessagePacket)
      → Ends (λ _ d. IsIdle d) (handle_text_message unmarshal b c)
  unfolding handle_text_message
  handle_text_message-Ends unmarshal =
      unmarshalled-Ends unmarshal b _ c i λ p _. world-Ends _ c (emit_last-Ends _ c i)

  handle_server_config-Ends :
      (unmarshal : Bytes → Option ServerConfig)
      → Ends (λ _ d. IsIdle d) (handle_server_config unmarshal b c)
  unfolding handle_server_config
  handle_server_config-Ends unmarshal =
      unmarshalled-Ends unmarshal b _ c i λ p _. emit_last-Ends _ c i

  handle_ping-Ends :
      (ops : FloatOps) (millis : ℕ → ℕ) (unmarshal : Bytes → Option Ping)
      → ((p : Ping) → unmarshal b ≡ some p → p.timestamp ≡ none)
      → Ends (λ _ d. IsIdle d) (handle_ping ops millis unmarshal b c)
  unfolding handle_ping
  handle_ping-Ends ops millis unmarshal h = unmarshalled-Ends unmarshal b _ c i λ p e.
      modify-Ends _ _ c
        (untimed p.timestamp (record { free = i.free; consistent = i.consistent }) (h p e))
    where
      untimed :
          (o : Option ℕ) {d : Client}
          → IsIdle d
          → o ≡ none
          → Ends (λ _ d. IsIdle d) (note_timestamp ops millis o d)
      untimed o j e = unfold note_timestamp in rw e (pure-Ends tt _ j)

  unimplemented-Ends : Ends (λ _ d. IsIdle d) (handle_unimplemented b c)
  unfolding handle_unimplemented
  unimplemented-Ends = throw-Ends _ c i

-- Such a message leaves an idle client idle.
pub handler_of-Ends :
    (x : Externals) (m : Message) (b : Bytes) (c : Client)
    → IsHarmless x m b
    → IsIdle c
    → Ends (λ _ d. IsIdle d) (handler_of x m b c)
unfolding handler_of
handler_of-Ends x version b c h i = handle_version-Ends x.to_version b c i
handler_of-Ends x udp_tunnel b c h i = handle_udp_tunnel-Ends x.new_decoder x.samples b c i h
handler_of-Ends x authenticate b c h i = unimplemented-Ends b c i
handler_of-Ends x ping b c h i = handle_ping-Ends b c i x.ops x.millis x.to_ping h
handler_of-Ends x reject b c h i = absurd h
handler_of-Ends x server_sync b c h i = absurd h
handler_of-Ends x channel_remove b c h i = handle_channel_remove-Ends x.to_channel_remove b c i
handler_of-Ends x channel_state b c h i = handle_channel_state-Ends x.to_channel_state b c i
handler_of-Ends x user_remove b c h i = handle_user_remove-Ends x.to_user_remove b c i
handler_of-Ends x user_state b c h i =
    handle_user_state-Ends x.to_user_state b c i (λ p k e q _. none-some k (sym (h p e) ∙ q))
handler_of-Ends x ban_list b c h i =
    handle_ban_list-Ends b c i x.cidr_mask x.parse_time x.to_ban_list
handler_of-Ends x text_message b c h i = handle_text_message-Ends b c i x.to_text_message
handler_of-Ends x permission_denied b c h i =
    weaken _ (λ _ d (p, t, e, f, n, q). rw q (record { free = i.free; consistent = i.consistent }))
      (handle_permission_denied-Ends x.h9k x.to_permission_denied b c i)
handler_of-Ends x acl b c h i =
    weaken _
      (λ _ d (a, q, p, j, e, f, g). rw q (record { free = i.free; consistent = i.consistent }))
      (handle_acl-Ends x.to_acl b c i h)
handler_of-Ends x query_users b c h i =
    weaken _ (λ _ d (p, a, e, f, q). rw q (record { free = i.free; consistent = i.consistent }))
      (handle_query_users-Ends x.to_query_users b c i)
handler_of-Ends x crypt_setup b c h i = unimplemented-Ends b c i
handler_of-Ends x context_action_modify b c h i = absurd h
handler_of-Ends x context_action b c h i = unimplemented-Ends b c i
handler_of-Ends x user_list b c h i = handle_user_list-Ends b c i x.parse_time x.to_user_list h
handler_of-Ends x voice_target b c h i = unimplemented-Ends b c i
handler_of-Ends x permission_query b c h i =
    handle_permission_query-Ends x.to_permission_query b c i
handler_of-Ends x codec_version b c h i =
    handle_codec_version-Ends x.registered_codec x.new_encoder x.to_codec_version b c i
handler_of-Ends x user_stats b c h i =
    handle_user_stats-Ends x.parse_certificate x.ago x.to_user_stats b c i h
handler_of-Ends x request_blob b c h i = unimplemented-Ends b c i
handler_of-Ends x server_config b c h i = handle_server_config-Ends b c i x.to_server_config
handler_of-Ends x suggest_config b c h i = handle_suggest_config-Ends x.to_suggest_config b c i
