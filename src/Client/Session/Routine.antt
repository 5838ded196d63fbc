-- ===== src/Client/Session/Routine.antt =====
-- readRoutine on a connection that carries harmless packets.
use gumble.Prelude.{
  ℕ, suc, ◌*◌, ◌^◌, ◌≤◌, ◌<◌, ◌≡◌, ◌∙◌, refl, ap, ◌⊎◌, ◌≢◌, inl, inr, true, some, List, [], ◌∷◌,
  ◌++◌, All, false, ◌+◌, length, append_assoc, arith, Option-cases,
}
use gumble.Conn.{ReadError, read_error, read_packet, write_packet, maximum_packet_bytes}
use gumble.Conn.Frames.{read_packet-write_packet}
use gumble.Protocol.{Message, dispatch}
use gumble.Client.{Client, Bytes, disconnected, disconnect, error, synced}
use gumble.Client.Monad.{Outcome, returned, failed, Error, M, emit}
use gumble.Client.Sound.{IsIdle, Ends, well, with_error, pure-Ends, State-cases}
use gumble.Client.Session.{Externals, handle_packet, read_loop, end_routine, read_routine}
use gumble.Client.Quiet.{IsQuiet, Follows, Follows-refl, Follows-trans, pure-IsQuiet}
use gumble.Client.Session.Quiet.{handler_of-IsQuiet}
use gumble.Client.Session.Harmless.{IsHarmless, handler_of-Ends}

-- A packet of a type and with data that fit the frame. A type without a handler is dropped.
pub record IsTame (x : Externals) (p : ℕ × Bytes) : Type 0 where
  pub type_fits : p.0 < 2 ^ 16
  pub data_fits : length p.1 ≤ 1024 * 1024 * 10
  pub harmless : (m : Message) → dispatch p.0 ≡ some m → IsHarmless x m p.1

-- The packets as WritePacket puts them on the connection.
unfoldable pub frames : List (ℕ × Bytes) → Bytes
frames [] = []
frames ((t, body) ∷ ps) = write_packet t body ++ frames ps

handle_packet-Ends :
    (x : Externals) (p : ℕ × Bytes) (c : Client)
    → IsTame x p
    → IsIdle c
    → Ends (λ _ d. IsIdle d) (handle_packet x p.0 p.1 c)
unfolding handle_packet
handle_packet-Ends x (t, b) c tame i = elim (Option-cases (dispatch t)) [
  | inl e ↦ rw (e, handle_packet) (pure-Ends tt c i)
  | inr (m, e) ↦ rw (e, handle_packet) (handler_of-Ends x m b c (tame.harmless m e) i)
]

-- What a quiet step leaves.
left :
    {m : M (Unit {0})} {c d : Client}
    → IsQuiet m
    → ((m c ≡ returned tt d) ⊎ ((e : Error) × (m c ≡ failed e d)))
    → Follows c d
left {m} {c} q (inl e) = rw e at (q.at c)
left {m} {c} q (inr (x, e)) = rw e at (q.at c)

-- A call that ends well hands an idle client to the next.
Ends-cases :
    {o : Outcome (Unit {0})}
    → Ends (λ _ d. IsIdle d) o
    → (d : Client) × IsIdle d × ((o ≡ returned tt d) ⊎ ((e : _) × (o ≡ failed e d)))
Ends-cases (well {a} {d} i) = (d, i, inl refl)
Ends-cases (with_error {e} {d} i) = (d, i, inr (e, refl))

-- A harmless packet is not one of those that end the handshake.
handle_packet-IsQuiet :
    (x : Externals) (p : ℕ × Bytes) → IsTame x p → IsQuiet (handle_packet x p.0 p.1)
unfolding handle_packet
handle_packet-IsQuiet x (t, b) tame = elim (Option-cases (dispatch t)) [
  | inl e ↦ rw (e, handle_packet) (pure-IsQuiet tt)
  | inr (m, e) ↦ rw (e, handle_packet) (handler_of-IsQuiet x m b (tame.harmless m e))
]

-- A frame at the front of what the connection carries is one turn of the loop, whatever is behind it.
pub read_loop-frame :
    (fuel : ℕ) (x : Externals) (t : ℕ) (b tail : Bytes) (c d : Client)
    → t < 2 ^ 16
    → length b ≤ 1024 * 1024 * 10
    → ((handle_packet x t b c ≡ returned tt d)
        ⊎ ((e : Error) × (handle_packet x t b c ≡ failed e d)))
    → read_loop (suc fuel) x (write_packet t b ++ tail) c ≡ read_loop fuel x tail d
unfolding read_loop
read_loop-frame fuel x t b tail c d ht hb o =
    let read = read_packet-write_packet maximum_packet_bytes t b tail ht (omega (arith, hb)) hb in
    elim o [ inl r ↦ rw (read, read_loop, r) | inr (err, r) ↦ rw (read, read_loop, r) ]

-- The turn that ends the loop.
pub read_loop-refused :
    (x : Externals) (tail : Bytes) (e : ReadError) (c : Client)
    → read_packet maximum_packet_bytes tail ≡ read_error e
    → read_loop 1 x tail c ≡ some (returned tt c)
unfolding read_loop
read_loop-refused x tail e c q = rw (q, read_loop)

-- The frames of harmless packets, one turn each.
pub read_loop-frames :
    (fuel : ℕ) (x : Externals) (ps : List (ℕ × Bytes)) (tail : Bytes) (c : Client)
    → All (IsTame x) ps
    → IsIdle c
    → (d : Client) × IsIdle d
      × Follows c d
      × (read_loop (length ps + fuel) x (frames ps ++ tail) c ≡ read_loop fuel x tail d)
unfolding frames
read_loop-frames fuel x [] tail c h i =
    (c, i, Follows-refl c, ap (λ n. read_loop n x tail c) (omega arith))
read_loop-frames fuel x ((t, b) ∷ ps) tail c h i =
    let (d, j, o) = Ends-cases (handle_packet-Ends x (t, b) c h.0 i) in
    let f : Follows c d = left (handle_packet-IsQuiet x (t, b) h.0) o in
    let (d', j', g, rest) = read_loop-frames fuel x ps tail d h.1 j in
    (
      d',
      j',
      Follows-trans f g,
      ap (λ n. read_loop n x ((write_packet t b ++ frames ps) ++ tail) c)
            (let one_more : suc (length ps) + fuel ≡ suc (length ps + fuel) = omega arith in
              one_more)
          ∙ ap (λ s. read_loop (suc (length ps + fuel)) x s c)
              (append_assoc (write_packet t b) (frames ps) tail)
          ∙ read_loop-frame (length ps + fuel) x t b (frames ps ++ tail) c d h.0.type_fits
              h.0.data_fits o
          ∙ rest,
    )

-- What the routine leaves: an idle client that is disconnected, and for a client that was synced one
-- last event.
pub record IsEnded (d d' : Client) : Type 0 where
  pub idle : IsIdle d'
  pub state : d'.state ≡ disconnected
  pub end_closed : d'.end_closed ≡ true
  pub dial : d'.dial ≡ d.dial
  pub connect_closed : d'.connect_closed ≡ d.connect_closed
  pub disconnect_type : d'.disconnect_type ≡ d.disconnect_type
  pub told :
      ((d.state ≡ synced) × (d'.events ≡ d.events ++ (disconnect d.disconnect_type ∷ [])))
      ⊎ ((d.state ≢ synced) × (d'.events ≡ d.events))

pub end_routine-IsEnded :
    (d : Client)
    → IsIdle d
    → d.end_closed ≡ false
    → (d' : Client) × (end_routine d ≡ returned tt d') × IsEnded d d'
unfolding end_routine emit
end_routine-IsEnded d i open_ = elim (State-cases d.state) [
  | inl e ↦ (
    record d {
      state = disconnected;
      end_closed = true;
      events = d.events ++ (disconnect d.disconnect_type ∷ []);
    },
    rw (open_, end_routine, e),
    record {
      idle = record { free = i.free; consistent = i.consistent };
      state = refl;
      end_closed = refl;
      dial = refl;
      connect_closed = refl;
      disconnect_type = refl;
      told = inl (e, refl);
    },
  )
  | inr (inl e) ↦ silent (λ s. cc) (rw (open_, end_routine, e))
  | inr (inr e) ↦ silent (λ s. cc) (rw (open_, end_routine, e))
]
  where
    silent :
        d.state ≢ synced
        → end_routine d ≡ returned tt (record d { state = disconnected; end_closed = true })
        → (d' : Client) × (end_routine d ≡ returned tt d') × IsEnded d d'
    silent n e = (
      record d { state = disconnected; end_closed = true },
      e,
      record {
        idle = record { free = i.free; consistent = i.consistent };
        state = refl;
        end_closed = refl;
        dial = refl;
        connect_closed = refl;
        disconnect_type = refl;
        told = inr (n, refl);
      },
    )

-- On a client that is idle and whose channel `end` is open, and a connection that carries the frames of
-- harmless packets and then bytes that ReadPacket refuses, or none, readRoutine ends after as many
-- steps as there are packets and one more. It leaves an idle client that is disconnected and has its
-- channel `end` closed. The packets change neither the state nor the dialer, and the listeners have
-- heard no connect, and a disconnect, as the last event, if and only if the client was synced.
read_routine-IsEnded :
    (x : Externals) (ps : List (ℕ × Bytes)) (tail : Bytes) (e : ReadError) (c : Client)
    → All (IsTame x) ps
    → read_packet maximum_packet_bytes tail ≡ read_error e
    → IsIdle c
    → c.end_closed ≡ false
    → (d : Client) × (d' : Client) × Follows (record c { disconnect_type = error }) d
      × (read_routine (length ps + 1) x (frames ps ++ tail) c ≡ some (returned tt d'))
      × IsEnded d d'
unfolding read_routine
read_routine-IsEnded x ps tail e c h q i open_ =
    let (d, j, f, loop) =
      read_loop-frames 1 x ps tail (record c { disconnect_type = error }) h
        (record { free = i.free; consistent = i.consistent }) in
    let (d', ends, ended) = end_routine-IsEnded d j (f.end_closed ∙ open_) in
    let ran = loop ∙ read_loop-refused x tail e d q in
    (d, d', f, rw (ran, read_routine, ends), ended)
