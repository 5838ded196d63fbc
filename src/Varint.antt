-- ===== src/Varint.antt =====
-- gumble/varint/write.go and gumble/varint/read.go: the variable-length integers of the audio
-- protocol. An int64 is a ℤ in its range, a byte a number below 256, and a slice the list of its
-- elements: `b[1:]` is the tail, and an index or a slice past the end is a panic, here `none`.
pub mod Wire
pub mod Encode
pub mod Decode
pub mod RoundTrip
pub mod Bounds
mod Tests
use gumble.Prelude.{
  ℕ, zero, suc, ◌+◌, ◌-◌, ◌*◌, ◌/◌, ◌%◌, ◌^◌, ◌≤◌, ◌<◌, bit_and, bit_or, ◌≡◌, Bool, true, false,
  ◌&&◌, Option, none, some, List, [], ◌∷◌, ltb, leb, ◌==◌, if◌then◌else◌, length, get_or,
}
use gumble.Prelude.Int.{ℤ, pos, negsuc, neg_int64, complement, to_int64}
use mathlib.Core.Option

abbrev pub max_varint_len : ℕ
max_varint_len = 10

abbrev pub IsByte : ℕ → Type 0
IsByte x = x < 256

-- `b[0] = x0; b[1] = x1; …`
pub write : List ℕ → List ℕ → Option (List ℕ)
write b [] = some b
write [] (x ∷ xs) = none
write (y ∷ b) (x ∷ xs) = Option.map (◌∷◌ x) (write b xs)

abbrev pub returns : ℕ → Option (List ℕ) → Option (List ℕ × ℕ)
returns n = Option.map (λ b. (b, n))

abbrev byte : ℕ → ℕ
byte n = n % 256

-- `binary.BigEndian.PutUint32(b, uint32(v))` and `PutUint64`.
pub big_endian32 : ℕ → List ℕ
big_endian32 v = byte (v / 2 ^ 24) ∷ byte (v / 2 ^ 16) ∷ byte (v / 2 ^ 8) ∷ byte v ∷ []

pub big_endian64 : ℕ → List ℕ
unfolding big_endian32
big_endian64 v =
    byte (v / 2 ^ 56) ∷ byte (v / 2 ^ 48) ∷ byte (v / 2 ^ 40) ∷ byte (v / 2 ^ 32) ∷ big_endian32 v

-- The bytes of one branch each of `Encode`.
pub bytes14 : ℕ → List ℕ
bytes14 v = byte (bit_or (bit_and (v / 2 ^ 8) 0x3f) 0x80) ∷ byte (bit_and v 0xff) ∷ []

pub bytes21 : ℕ → List ℕ
bytes21 v =
    byte (bit_or (bit_and (v / 2 ^ 16) 0x1f) 0xc0)
    ∷ byte (bit_and (v / 2 ^ 8) 0xff)
    ∷ byte (bit_and v 0xff)
    ∷ []

pub bytes28 : ℕ → List ℕ
bytes28 v =
    byte (bit_or (bit_and (v / 2 ^ 24) 0xf) 0xe0)
    ∷ byte (bit_and (v / 2 ^ 16) 0xff)
    ∷ byte (bit_and (v / 2 ^ 8) 0xff)
    ∷ byte (bit_and v 0xff)
    ∷ []

-- The branches of `Encode` for a value that is not negative.
pub encode_positive : List ℕ → ℕ → Option (List ℕ × ℕ)
encode_positive b v =
    if leb v 0x7f
    then returns 1 (write b (byte v ∷ []))
    else if leb v 0x3fff
    then returns 2 (write b (bytes14 v))
    else if leb v 0x1fffff
    then returns 3 (write b (bytes21 v))
    else if leb v 0xfffffff
    then returns 4 (write b (bytes28 v))
    else if leb v (2 ^ 31 - 1)
    then returns 5 (write b (0xf0 ∷ big_endian32 v))
    else if leb v (2 ^ 63 - 1)
    then returns 9 (write b (0xf4 ∷ big_endian64 v))
    else some (b, 0)

-- `b[0] = x; return 1 + r`, where `r` comes from the same slice without its first element.
abbrev pub after_first : ℕ → Option (List ℕ × ℕ) → Option (List ℕ × ℕ)
after_first x = Option.map (λ (b, n). (x ∷ b, 1 + n))

-- The slice after the call, and the number of bytes written to its front.
pub encode : List ℕ → ℤ → Option (List ℕ × ℕ)
encode b (pos v) = encode_positive b v
encode [] (negsuc n) = none
encode (y ∷ b) (negsuc n) =
    let recursive = after_first 0xf8 (encode b (neg_int64 (negsuc n))) in
    if leb n 3 then some (bit_or 0xfc (byte (bit_and n 0xff)) ∷ b, 1) else recursive

-- The bytes `b[i], b[i + 1], …` as `|` of shifted numbers.
abbrev pub or_bytes2 : ℕ → ℕ → ℕ
or_bytes2 x y = bit_or (x * 2 ^ 8) y

abbrev pub or_bytes3 : ℕ → ℕ → ℕ → ℕ
or_bytes3 x y z = bit_or (bit_or (x * 2 ^ 16) (y * 2 ^ 8)) z

abbrev pub or_bytes4 : ℕ → ℕ → ℕ → ℕ → ℕ
or_bytes4 x y z w = bit_or (bit_or (bit_or (x * 2 ^ 24) (y * 2 ^ 16)) (z * 2 ^ 8)) w

-- `b[i]`; the code tests the length first.
abbrev pub index : List ℕ → ℕ → ℕ
index b i = get_or b i 0

-- `binary.BigEndian.Uint32(b[i:])` and `Uint64`.
abbrev pub read_uint32 : List ℕ → ℕ → ℕ
read_uint32 b i =
    index b i * 2 ^ 24 + index b (i + 1) * 2 ^ 16 + index b (i + 2) * 2 ^ 8 + index b (i + 3)

abbrev pub read_uint64 : List ℕ → ℕ → ℕ
read_uint64 b i = read_uint32 b i * 2 ^ 32 + read_uint32 b (i + 4)

-- `if v, n := …; n > 0 { return -v, n + 1 }; return 0, 0`
abbrev pub negated : ℤ × ℕ → ℤ × ℕ
negated (v, zero) = (pos 0, 0)
negated (v, suc n) = (neg_int64 v, suc n + 1)

-- The value and the number of bytes read, 0 on an error.
unfoldable pub decode : List ℕ → ℤ × ℕ
decode [] = (pos 0, 0)
decode (x ∷ r) =
    let b = x ∷ r in
    let recursive = negated (decode r) in
    if bit_and x 0x80 == 0
    then (pos x, 1)
    else if bit_and x 0xc0 == 0x80 && leb 2 (length b)
    then (pos (or_bytes2 (bit_and x 0x3f) (index b 1)), 2)
    else if bit_and x 0xe0 == 0xc0 && leb 3 (length b)
    then (pos (or_bytes3 (bit_and x 0x1f) (index b 1) (index b 2)), 3)
    else if bit_and x 0xf0 == 0xe0 && leb 4 (length b)
    then (pos (or_bytes4 (bit_and x 0xf) (index b 1) (index b 2) (index b 3)), 4)
    else if bit_and x 0xfc == 0xf0 && leb 5 (length b)
    then (pos (read_uint32 b 1), 5)
    else if bit_and x 0xfc == 0xf4 && leb 9 (length b)
    then (to_int64 (read_uint64 b 1), 9)
    else if bit_and x 0xfc == 0xf8
    then recursive
    else if bit_and x 0xfc == 0xfc
    then (complement (pos (bit_and x 0x03)), 1)
    else (pos 0, 0)
