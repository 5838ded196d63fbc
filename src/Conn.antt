-- ===== src/Conn.antt =====
-- gumble/conn.go: frames of the control connection. The peer's bytes are a list, of which ReadPacket
-- takes what it reads; what is written is appended to a list. WriteAudio is modelled with writes that
-- fail; deadlines and the mutex around a write are left out.
pub mod Frames
pub mod Audio
mod Tests
use gumble.Prelude.{
  ℕ, zero, suc, ◌+◌, ◌*◌, ◌/◌, ◌%◌, ◌^◌, ◌≤◌, ◌<◌, ◌≡◌, Bool, true, false, Option, none, some, List,
  [], ◌∷◌, ◌++◌, ltb, ◌==◌, if◌then◌else◌, length, replicate, take, drop, bit_or,
}
use gumble.Prelude.Int.{ℤ, pos}
use gumble.Varint.{encode}

abbrev pub Bytes : Type 0
Bytes = List ℕ

pub data ReadError : Type 0 where
  -- `io.ReadFull` meets the end of the stream.
  unexpected_eof too_large : ReadError

-- A packet with the bytes behind it, or an error.
pub data ReadResult : Type 0 where
  packet : ℕ → Bytes → Bytes → ReadResult
  read_error : ReadError → ReadResult

-- `binary.BigEndian.PutUint16` and `PutUint32`.
abbrev pub put_uint16 : ℕ → Bytes
put_uint16 v = (v / 2 ^ 8 % 256) ∷ (v % 256) ∷ []

abbrev pub put_uint32 : ℕ → Bytes
put_uint32 v = (v / 2 ^ 24 % 256) ∷ (v / 2 ^ 16 % 256) ∷ (v / 2 ^ 8 % 256) ∷ (v % 256) ∷ []

-- `io.ReadFull` of n bytes: they and the rest of the stream.
unfoldable pub read_full : ℕ → Bytes → Option (Bytes × Bytes)
read_full zero s = some ([], s)
read_full (suc n) [] = none
read_full (suc n) (x ∷ s) = elim (read_full n s) [
  | none ↦ none
  | some (xs, rest) ↦ some (x ∷ xs, rest)
]

-- writeHeader: the type and the length are uint16 and uint32.
unfoldable pub write_header : ℕ → ℕ → Bytes
write_header ptype plength = put_uint16 ptype ++ put_uint32 plength

unfoldable pub write_packet : ℕ → Bytes → Bytes
write_packet ptype payload = write_header ptype (length payload % 2 ^ 32) ++ payload

-- The rest of ReadPacket once the six bytes of the header are there.
unfoldable pub read_body : ℕ → Bytes → Bytes → ReadResult
read_body maximum (a ∷ b ∷ c ∷ d ∷ e ∷ f ∷ _) s =
    let ptype = a * 2 ^ 8 + b in
    let plength = c * 2 ^ 24 + d * 2 ^ 16 + e * 2 ^ 8 + f in
    if ltb maximum plength then read_error too_large else elim (read_full plength s) [
      | some (body, rest) ↦ packet ptype body rest
      | none ↦ read_error unexpected_eof
    ]
read_body maximum header s = read_error unexpected_eof

-- ReadPacket under MaximumPacketBytes.
unfoldable pub read_packet : ℕ → Bytes → ReadResult
unfolding read_full read_body
read_packet maximum s = elim (read_full 6 s) [
  | some (header, rest) ↦ read_body maximum header rest
  | none ↦ read_error unexpected_eof
]

-- NewConn's MaximumPacketBytes.
abbrev pub maximum_packet_bytes : ℕ
maximum_packet_bytes = 1024 * 1024 * 10

-- The length field of an audio packet; its bit 13 marks the last packet of a stream.
abbrev pub audio_length : ℕ → Bool → ℕ
audio_length l final = if final then bit_or l 0x2000 else l

-- `buff[0]`
abbrev pub audio_first : ℕ → ℕ → ℕ
audio_first format target = bit_or (format * 2 ^ 5 % 256) target

-- `binary.Write` of a float32, given by its bits, in little endian; `none` reads a nil pointer.
abbrev pub put_float : Option ℕ → Option Bytes
put_float none = none
put_float (some v) =
    some ((v % 256) ∷ (v / 2 ^ 8 % 256) ∷ (v / 2 ^ 16 % 256) ∷ (v / 2 ^ 24 % 256) ∷ [])

-- `if X != nil { positionalLength = 3 * 4 }`
abbrev pub position_length : Option ℕ → ℕ
position_length none = 0
position_length (some x) = 3 * 4

-- The writes of `if positionalLength > 0 { … }`.
abbrev pub position_parts : Option ℕ → Option ℕ → Option ℕ → List (Option Bytes)
position_parts none y z = []
position_parts (some x) y z = put_float (some x) ∷ put_float y ∷ put_float z ∷ []

-- What WriteAudio writes once its header is encoded, one write after the other.
abbrev pub audio_parts : Bytes → Bytes → Option ℕ → Option ℕ → Option ℕ → List (Option Bytes)
audio_parts header payload x y z =
    some (write_header 1 ((length header + length payload + position_length x) % 2 ^ 32))
    ∷ some header
    ∷ some payload
    ∷ position_parts x y z

-- What WriteAudio comes to: what it has written, an error of a write, its own error, or a panic.
pub data Written : Type 0 where
  wrote : Bytes → Written
  write_failed out_of_range panics : Written

-- The writes from the i-th on, of which `sends i` tells whether it succeeds.
unfoldable pub send_parts : (ℕ → Bool) → ℕ → Bytes → List (Option Bytes) → Written
send_parts sends i sent [] = wrote sent
send_parts sends i sent (none ∷ parts) = panics
send_parts sends i sent (some b ∷ parts) =
    let rest = send_parts sends (suc i) (sent ++ b) parts in if sends i then rest else write_failed

-- WriteAudio on its buffer of 1 + 2 * MaxVarintLen bytes; the pointers X, Y and Z may be nil.
unfoldable pub write_audio :
    (ℕ → Bool) → ℕ → ℕ → ℤ → Bool → Bytes → Option ℕ → Option ℕ → Option ℕ → Written
unfolding send_parts
write_audio sends format target sequence final payload x y z =
    elim (encode (replicate 20 0) sequence) [
      | none ↦ panics
      | some (b, zero) ↦ out_of_range
      | some (b, suc n) ↦
          elim (encode (drop (suc n) b) (pos (audio_length (length payload) final))) [
            | none ↦ panics
            | some (c, zero) ↦ out_of_range
            | some (c, suc m) ↦ send_parts sends 0 [] (
                audio_parts (audio_first format target ∷ (take (suc n) b ++ take (suc m) c)) payload
                  x y z)
          ]
    ]
