-- ===== src/Client/Session/Handshake.antt =====
-- readRoutine from the dial to the disconnect, on a connection where the server completes the
-- handshake.
use gumble.Prelude.{
  ℕ, suc, ◌+◌, ◌*◌, ◌^◌, ◌≤◌, ◌<◌, ◌≡◌, ◌∙◌, ap, inl, inr, true, false, some, List, [], ◌∷◌, ◌++◌,
  All, length, append_assoc,
}
use gumble.Conn.{ReadError, read_error, read_packet, write_packet, maximum_packet_bytes}
use gumble.Protocol.{dispatch, server_sync}
use gumble.Client.{
  Client, Bytes, Event, waiting, succeeded, connected, disconnected, synced, connect, disconnect,
  error,
}
use gumble.Client.Monad.{returned}
use gumble.Client.Sound.{IsIdle}
use gumble.Client.Sync.{ServerSync, welcome, dial_closed}
use gumble.Client.Sync.Safety.{IsSynced, handle_server_sync-IsSynced}
use gumble.Client.Quiet.{Follows, IsNotice}
use gumble.Client.Session.{Externals, handler_of, handle_packet, read_loop, read_routine}
use gumble.Client.Session.Routine.{
  IsTame, frames, read_loop-frame, read_loop-frames, read_loop-refused, IsEnded,
  end_routine-IsEnded,
}

-- The client as DialWithDialer allocates it, while it waits for the handshake.
pub record IsDialing (c : Client) : Type 0 where
  pub idle : IsIdle c
  pub state : c.state ≡ connected
  pub dial : c.dial ≡ waiting
  pub connect_open : c.connect_closed ≡ false
  pub end_open : c.end_closed ≡ false

-- A frame that carries a ServerSync packet.
pub record IsGreeting (x : Externals) (p : ℕ × Bytes) (s : ServerSync) : Type 0 where
  pub is_sync : dispatch p.0 ≡ some server_sync
  pub type_fits : p.0 < 2 ^ 16
  pub data_fits : length p.1 ≤ 1024 * 1024 * 10
  pub parsed : x.to_server_sync p.1 ≡ some s

-- The client at the end of its life: the dialer has been served, both channels are closed, and what
-- the listeners have heard are notices, the connect, notices and the disconnect, in this order.
pub record IsOver (s : ServerSync) (c d : Client) : Type 0 where
  pub idle : IsIdle d
  pub state : d.state ≡ disconnected
  pub dial : d.dial ≡ succeeded
  pub connect_closed : d.connect_closed ≡ true
  pub end_closed : d.end_closed ≡ true
  pub before : List Event
  pub during : List Event
  pub notices : All IsNotice before × All IsNotice during
  pub told :
      d.events
      ≡ c.events
        ++ (before ++ (connect (welcome s) ∷ (during ++ (disconnect d.disconnect_type ∷ []))))

-- The turn of the loop that reads the greeting.
read_loop-greeting :
    (fuel : ℕ) (x : Externals) (p : ℕ × Bytes) (s : ServerSync) (tail : Bytes) (c : Client)
    → IsGreeting x p s
    → IsIdle c
    → c.connect_closed ≡ false
    → (d : Client) × IsSynced s c d
      × (read_loop (suc fuel) x (write_packet p.0 p.1 ++ tail) c ≡ read_loop fuel x tail d)
read_loop-greeting fuel x (t, b) s tail c g i open_ =
    let (d, ran, y) = handle_server_sync-IsSynced x.to_server_sync b c s g.parsed i open_ in
    let handled : handle_packet x t b c ≡ returned tt d =
      unfold handle_packet in unfold handler_of in rw (g.is_sync, handle_packet) ran in
    (d, y, read_loop-frame fuel x t b tail c d g.type_fits g.data_fits (inl handled))

-- The last event of a client that was synced.
ended_synced :
    {c d : Client}
    → IsEnded c d
    → c.state ≡ synced
    → d.events ≡ c.events ++ (disconnect d.disconnect_type ∷ [])
ended_synced {c} {d} e s = elim e.told [
  | inl (_, t) ↦ rw (e.disconnect_type) t
  | inr (n, _) ↦ absurd (n s)
]

-- The packets before the greeting, the greeting, those behind it, and the end.
module _ (s : ServerSync) {c c1 c2 c3 c4 : Client} where
  lived :
      IsDialing c
      → Follows (record c { disconnect_type = error }) c1
      → IsSynced s c1 c2
      → Follows c2 c3
      → IsEnded c3 c4
      → IsOver s c c4
  lived g f y f' e = record {
    idle = e.idle;
    state = e.state;
    dial = e.dial ∙ f'.dial ∙ y.dial ∙ ap dial_closed (f.dial ∙ g.dial);
    connect_closed = e.connect_closed ∙ f'.connect_closed ∙ y.connect_closed;
    end_closed = e.end_closed;
    before = f.news;
    during = f'.news;
    notices = (f.notices, f'.notices);
    told = ended_synced e (f'.state ∙ y.state) ∙ simp (f'.told, y.told, f.told, append_assoc);
  }

-- On a client that waits for the handshake, and a connection that carries the frames of harmless
-- packets, a ServerSync packet, more harmless packets, and then bytes that ReadPacket refuses, or
-- none, readRoutine ends after as many steps as there are packets and one more. It leaves an idle
-- client that is disconnected, with both its channels closed and the dialer served, whose listeners
-- have heard one connect, with what the packet says, and one disconnect, as the last event.
pub read_routine-IsOver :
    (x : Externals) (before after : List (ℕ × Bytes)) (greeting : ℕ × Bytes) (s : ServerSync)
    (tail : Bytes) (e : ReadError) (c : Client)
    → All (IsTame x) before
    → IsGreeting x greeting s
    → All (IsTame x) after
    → read_packet maximum_packet_bytes tail ≡ read_error e
    → IsDialing c
    → (d : Client) × IsOver s c d
      × (read_routine
            (length before + suc (length after + 1))
            x
            (frames before ++ (write_packet greeting.0 greeting.1 ++ (frames after ++ tail)))
            c
          ≡ some (returned tt d))
unfolding read_routine
read_routine-IsOver x before after greeting s tail e c hb hg ha q dialing =
    let start = record c { disconnect_type = error } in
    let (c1, i1, f1, r1) =
      read_loop-frames (suc (length after + 1)) x before
        (write_packet greeting.0 greeting.1 ++ (frames after ++ tail)) start hb
        (record { free = dialing.idle.free; consistent = dialing.idle.consistent }) in
    let (c2, y, r2) =
      read_loop-greeting (length after + 1) x greeting s (frames after ++ tail) c1 hg i1
        (f1.connect_closed ∙ dialing.connect_open) in
    let (c3, i3, f3, r3) = read_loop-frames 1 x after tail c2 ha y.idle in
    let (c4, ends, over) =
      end_routine-IsEnded c3 i3 (f3.end_closed ∙ y.end_closed ∙ f1.end_closed ∙ dialing.end_open) in
    let ran = r1 ∙ r2 ∙ r3 ∙ read_loop-refused x tail e c3 q in
    (c4, lived s dialing f1 y f3 over, rw (ran, read_routine, ends))
