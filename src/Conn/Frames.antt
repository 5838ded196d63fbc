-- ===== src/Conn/Frames.antt =====
-- Reading back what was written.
use gumble.Prelude.{ℕ, ◌^◌, ◌≤◌, ◌<◌, ◌≡◌, refl, some, [], ◌∷◌, ◌++◌, length, arith}
use native.Mathlib.Nat.{mod-eq_of_lt}
use gumble.Conn.{
  Bytes, packet, read_error, too_large, read_full, write_header, write_packet, read_body,
  read_packet,
}

read_full-append : (xs rest : Bytes) → read_full (length xs) (xs ++ rest) ≡ some (xs, rest)
unfolding read_full
read_full-append [] rest = refl
read_full-append (x ∷ xs) rest = rw (read_full-append xs rest)

-- A header and the bytes that it announces are read as one packet.
pub read-frame :
    (maximum t : ℕ) (body rest : Bytes)
    → t < 2 ^ 16
    → length body < 2 ^ 32
    → length body ≤ maximum
    → read_packet maximum ((write_header t (length body) ++ body) ++ rest) ≡ packet t body rest
unfolding read_packet read_body write_header read_full
read-frame maximum t body rest ht hl hm = ground (arith, read_full-append body rest)

-- ReadPacket returns the type and the data of a packet that WritePacket wrote, and leaves the bytes
-- behind it, if the type fits 16 bits and the data is within the maximum and 32 bits.
pub read_packet-write_packet :
    (maximum t : ℕ) (body rest : Bytes)
    → t < 2 ^ 16
    → length body < 2 ^ 32
    → length body ≤ maximum
    → read_packet maximum (write_packet t body ++ rest) ≡ packet t body rest
unfolding write_packet
read_packet-write_packet maximum t body rest ht hl hm =
    rw (mod-eq_of_lt hl) (read-frame maximum t body rest ht hl hm)

-- A packet that is longer than the maximum is refused before its data is read.
read_packet_too_large :
    (maximum t : ℕ) (body rest : Bytes)
    → length body < 2 ^ 32
    → maximum < length body
    → read_packet maximum (write_packet t body ++ rest) ≡ read_error too_large
unfolding write_packet read_packet read_body write_header read_full
read_packet_too_large maximum t body rest hl hm = ground arith
