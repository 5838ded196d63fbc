-- ===== src/Util.antt =====
-- gumbleutil/listener.go and listenerfunc.go: listeners built from functions. S is what the functions
-- change. The events of audio do not go to these listeners.
pub mod Bitrate
pub mod Groups
pub mod PlainText
mod Tests
use gumble.Prelude.{ℕ, Option, none, some, List}
use gumble.Client.{
  Event, user_change, channel_change, text_message, permission_denied, server_config, user_list,
  ban_list, connect, disconnect, acl, context_action_change, UserChangeEvent, ChannelChangeEvent,
  TextMessage, PermissionDeniedEvent, ServerConfigEvent, RegisteredUser, Ban, ConnectEvent,
  DisconnectType, Acl, ContextActionChangeType, ContextAction,
}

pub record Listener (S : Type 0) : Type 0 where
  pub on_connect : Option (ConnectEvent → S → S)
  pub on_disconnect : Option (DisconnectType → S → S)
  pub on_text_message : Option (TextMessage → S → S)
  pub on_user_change : Option (UserChangeEvent → S → S)
  pub on_channel_change : Option (ChannelChangeEvent → S → S)
  pub on_permission_denied : Option (PermissionDeniedEvent → S → S)
  pub on_user_list : Option (List RegisteredUser → S → S)
  pub on_acl : Option (Acl → S → S)
  pub on_ban_list : Option (List Ban → S → S)
  pub on_context_action_change : Option (ContextActionChangeType × ContextAction → S → S)
  pub on_server_config : Option (ServerConfigEvent → S → S)

-- `Listener{}`.
abbrev pub no_listener : {S : Type 0} → Listener S
no_listener = record {
  on_connect = none;
  on_disconnect = none;
  on_text_message = none;
  on_user_change = none;
  on_channel_change = none;
  on_permission_denied = none;
  on_user_list = none;
  on_acl = none;
  on_ban_list = none;
  on_context_action_change = none;
  on_server_config = none;
}

-- `if l.F != nil { l.F(e) }`
abbrev pub call : {E S : Type 0} → Option (E → S → S) → E → S → S
call none e s = s
call (some f) e s = f e s

-- The eleven methods OnConnect to OnServerConfig of a Listener, by the event that they are called with.
unfoldable pub notify : {S : Type 0} → Listener S → Event → S → S
notify l (connect e) = call l.on_connect e
notify l (disconnect t) = call l.on_disconnect t
notify l (text_message m) = call l.on_text_message m
notify l (user_change e) = call l.on_user_change e
notify l (channel_change e) = call l.on_channel_change e
notify l (permission_denied e) = call l.on_permission_denied e
notify l (user_list us) = call l.on_user_list us
notify l (acl a) = call l.on_acl a
notify l (ban_list bs) = call l.on_ban_list bs
notify l (context_action_change t a) = call l.on_context_action_change (t, a)
notify l (server_config e) = call l.on_server_config e
notify l _ = λ s. s

-- The methods of a ListenerFunc call it with the event.
unfoldable pub notify_func : {S : Type 0} → (Event → S → S) → Event → S → S
notify_func f (connect e) = f (connect e)
notify_func f (disconnect t) = f (disconnect t)
notify_func f (text_message m) = f (text_message m)
notify_func f (user_change e) = f (user_change e)
notify_func f (channel_change e) = f (channel_change e)
notify_func f (permission_denied e) = f (permission_denied e)
notify_func f (user_list us) = f (user_list us)
notify_func f (acl a) = f (acl a)
notify_func f (ban_list bs) = f (ban_list bs)
notify_func f (context_action_change t a) = f (context_action_change t a)
notify_func f (server_config e) = f (server_config e)
notify_func f _ = λ s. s
