-- ===== src/Client/Sync/Safety.antt =====
-- How the handlers of the handshake end.
use gumble.Prelude.{
  ℕ, ◌≡◌, ◌∙◌, refl, true, false, Option, none, some, none-some, sym, [], ◌∷◌, ◌++◌, Option-cases,
  inl, inr,
}
use gumble.Version.{ReceivedVersion}
use gumble.Client.{Client, Bytes, connect, connected, waiting, synced, rejected, timed_out}
use gumble.Client.Monad.{
  M, ◌>>=◌, ◌>>◌, pure, unlock, lock, modify, emit, returned, blocked, panicked, unmarshalled-some,
}
use gumble.Client.Sound.{IsIdle, Ends, well, unmarshalled-Ends, emit_last-Ends, pure-Ends}
use gumble.Client.UserRemove.{is_true, text_or_empty}
use gumble.Client.Notices.{find_optional, or_zero}
use gumble.Client.Sync.{
  handle_version, Reject, handle_reject, require_connected, send_connect, ServerSync, note_session,
  close_connect, handle_server_sync, dial_closed, welcome, CodecVersion, use_codec, find_codec,
  handle_codec_version, SuggestConfig, handle_suggest_config,
}

pub handle_version-Ends :
    (unmarshal : Bytes → Option ReceivedVersion) (buffer : Bytes) (c : Client)
    → IsIdle c
    → Ends (λ _ d. IsIdle d) (handle_version unmarshal buffer c)
unfolding handle_version
handle_version-Ends unmarshal buffer c i =
    unmarshalled-Ends unmarshal buffer _ c i λ p _. pure-Ends tt c i

module _ {κ μ} {B : Type κ} {Q : B → Client → Type μ} where
  note_session-Ends :
      (o : Option ℕ) (m : M B) (c : Client)
      → IsIdle c
      → ((s : Option ℕ) → Ends Q (m (record c { self = s })))
      → Ends Q ((note_session o >> m) c)
  unfolding note_session ◌>>◌ ◌>>=◌ pure lock modify unlock
  note_session-Ends none m c i k = k c.self
  note_session-Ends (some s) m c i k =
      rw (i.free, ◌>>◌, lock) (rw (← i.free) (k (find_optional c.world.users (some s))))

  use_codec-Ends :
      (encoder : ℕ → ℕ) (o : Option ℕ) (m : M B) (c : Client)
      → IsIdle c
      → ((a e : Option ℕ) → Ends Q (m (record c { audio_codec = a; audio_encoder = e })))
      → Ends Q ((use_codec encoder o >> m) c)
  unfolding use_codec ◌>>◌ ◌>>=◌ pure lock modify unlock
  use_codec-Ends encoder none m c i k = k c.audio_codec c.audio_encoder
  use_codec-Ends encoder (some a) m c i k =
      rw (i.free, ◌>>◌, lock) (rw (← i.free) (k (some a) (some (encoder a))))

module _ {κ} {B : Type κ} where
  note_session_then :
      (o : Option ℕ) (m : M B) (c : Client)
      → c.locked ≡ false
      → (s : Option ℕ) × ((note_session o >> m) c ≡ m (record c { self = s; locked = false }))
  unfolding note_session ◌>>◌ ◌>>=◌ pure lock modify unlock
  note_session_then none m c e = (c.self, rw (← e) refl)
  note_session_then (some s) m c e = (find_optional c.world.users (some s), rw (e, ◌>>◌, lock))

  require_connected_then :
      (m : M B) (c : Client) → c.state ≡ connected → (require_connected >> m) c ≡ m c
  unfolding require_connected ◌>>◌ ◌>>=◌
  require_connected_then m c e = rw (e, ◌>>◌, require_connected)

-- What a ServerSync packet `p` makes of the client: the state, the channel and the dialer of a
-- handshake that is over, and the event for the listeners.
pub record IsSynced (p : ServerSync) (c d : Client) : Type 0 where
  pub idle : IsIdle d
  pub state : d.state ≡ synced
  pub connect_closed : d.connect_closed ≡ true
  pub end_closed : d.end_closed ≡ c.end_closed
  pub dial : d.dial ≡ dial_closed c.dial
  pub told : d.events ≡ c.events ++ (connect (welcome p) ∷ [])

pub handle_server_sync-IsSynced :
    (unmarshal : Bytes → Option ServerSync) (buffer : Bytes) (c : Client) (p : ServerSync)
    → unmarshal buffer ≡ some p
    → IsIdle c
    → c.connect_closed ≡ false
    → (d : Client) × (handle_server_sync unmarshal buffer c ≡ returned tt d) × IsSynced p c d
unfolding handle_server_sync ◌>>=◌ ◌>>◌ modify emit
handle_server_sync-IsSynced unmarshal buffer c p e i open_ =
    let (s, noted) = note_session_then p.session _ c i.free in
    (
      record c {
        self = s;
        locked = false;
        state = synced;
        events = c.events ++ (connect (welcome p) ∷ []);
        connect_closed = true;
        dial = dial_closed c.dial;
      },
      unmarshalled-some unmarshal buffer _ c e ∙ noted ∙ unfold close_connect in rw open_,
      record {
        idle = record { free = refl; consistent = i.consistent };
        state = refl;
        connect_closed = refl;
        end_closed = refl;
        dial = refl;
        told = refl;
      },
    )

-- On an idle client whose channel `connect` is open, handleServerSync refuses the packet or ends the
-- handshake: the client is idle and synced, the channel is closed, a dialer that waits has succeeded,
-- and the listeners have got one event, with the packet's welcome text and bandwidth.
pub handle_server_sync-Ends :
    (unmarshal : Bytes → Option ServerSync) (buffer : Bytes) (c : Client)
    → IsIdle c
    → c.connect_closed ≡ false
    → Ends
        (λ _ d. (p : ServerSync) × (unmarshal buffer ≡ some p) × IsSynced p c d)
        (handle_server_sync unmarshal buffer c)
handle_server_sync-Ends unmarshal buffer c i open_ = elim (Option-cases (unmarshal buffer)) [
  | inl e ↦
      unfold handle_server_sync in
      unmarshalled-Ends unmarshal buffer _ c i λ p q. absurd (none-some p (sym e ∙ q))
  | inr (p, e) ↦
      let (d, ran, synced_) = handle_server_sync-IsSynced unmarshal buffer c p e i open_ in
      rw ran (well (p, e, synced_))
]

-- A second ServerSync closes the channel `connect` again, which panics.
handle_server_sync_panics :
    (unmarshal : Bytes → Option ServerSync) (buffer : Bytes) (c : Client) (p : ServerSync)
    → unmarshal buffer ≡ some p
    → c.locked ≡ false
    → c.connect_closed ≡ true
    → handle_server_sync unmarshal buffer c ≡ panicked
unfolding handle_server_sync ◌>>=◌ ◌>>◌ modify emit
handle_server_sync_panics unmarshal buffer c p e free closed =
    let (s, noted) = note_session_then p.session _ c free in
    unmarshalled-some unmarshal buffer _ c e ∙ noted ∙ unfold close_connect in rw closed

-- A Reject packet while the handshake is not over: a dialer that waits gets the error and the
-- connection is closed; one that has given up, or has had its error, lets the reader block for ever.
handle_reject_lem :
    (unmarshal : Bytes → Option Reject) (buffer : Bytes) (c : Client) (p : Reject)
    → unmarshal buffer ≡ some p
    → c.state ≡ connected
    → c.connect_closed ≡ false
    → (handle_reject unmarshal buffer (record c { dial = waiting })
        ≡ returned tt (record c {
          dial = rejected (record { type = or_zero p.type; reason = text_or_empty p.reason });
          conn_closed = true;
        }))
      × (handle_reject unmarshal buffer (record c { dial = timed_out }) ≡ blocked)
unfolding handle_reject ◌>>=◌ ◌>>◌ modify
handle_reject_lem unmarshal buffer c p e s o = (
  unmarshalled-some unmarshal buffer _ _ e
      ∙ require_connected_then _ _ s
      ∙ unfold send_connect in rw o,
  unmarshalled-some unmarshal buffer _ _ e
      ∙ require_connected_then _ _ s
      ∙ unfold send_connect in rw o,
)

pub handle_codec_version-Ends :
    (registered : Option ℕ) (encoder : ℕ → ℕ) (unmarshal : Bytes → Option CodecVersion)
    (buffer : Bytes) (c : Client)
    → IsIdle c
    → Ends (λ _ d. IsIdle d) (handle_codec_version registered encoder unmarshal buffer c)
unfolding handle_codec_version
handle_codec_version-Ends registered encoder unmarshal buffer c i =
    unmarshalled-Ends unmarshal buffer _ c i λ p _.
      use_codec-Ends encoder (find_codec (is_true p.opus) registered) _ c i
        λ a e. emit_last-Ends _ _ (record { free = i.free; consistent = i.consistent })

pub handle_suggest_config-Ends :
    (unmarshal : Bytes → Option SuggestConfig) (buffer : Bytes) (c : Client)
    → IsIdle c
    → Ends (λ _ d. IsIdle d) (handle_suggest_config unmarshal buffer c)
unfolding handle_suggest_config
handle_suggest_config-Ends unmarshal buffer c i =
    unmarshalled-Ends unmarshal buffer _ c i λ p _. emit_last-Ends _ c i
