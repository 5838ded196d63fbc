-- ===== src/Varint/Wire.antt =====
-- The bytes of gumble/varint in plain arithmetic, independent of the code's masks and shifts.
use gumble.Prelude.{
  ℕ, zero, suc, ◌+◌, ◌-◌, ◌/◌, ◌%◌, ◌^◌, ◌≤◌, List, [], ◌∷◌, leb, if◌then◌else◌, length, arith,
}
use gumble.Prelude.Int.{ℤ, pos, negsuc}

-- The last `k` base-256 digits of `v`, highest first, before `tail`.
abbrev pub digits256 : ℕ → ℕ → List ℕ → List ℕ
digits256 zero v tail = tail
digits256 (suc k) v tail = digits256 k (v / 256) ((v % 256) ∷ tail)

-- A number that is not negative: the length is told by the highest bits of the first byte.
unfoldable pub wire_positive : ℕ → List ℕ
wire_positive v =
    if leb v 0x7f
    then v ∷ []
    else if leb v 0x3fff
    then (0x80 + v / 256) ∷ digits256 1 v []
    else if leb v 0x1fffff
    then (0xc0 + v / 2 ^ 16) ∷ digits256 2 v []
    else if leb v 0xfffffff
    then (0xe0 + v / 2 ^ 24) ∷ digits256 3 v []
    else if leb v (2 ^ 31 - 1)
    then 0xf0 ∷ digits256 4 v []
    else 0xf4 ∷ digits256 8 v []

unfoldable pub wire : ℤ → List ℕ
wire (pos v) = wire_positive v
wire (negsuc n) = if leb n 3 then (0xfc + n) ∷ [] else 0xf8 ∷ wire_positive (n + 1)

pub length-wire_positive : (v : ℕ) → (1 ≤ length (wire_positive v)) × (length (wire_positive v) ≤ 9)
unfolding wire_positive
length-wire_positive v = ground arith

-- One to ten bytes.
pub length-wire : (v : ℤ) → (1 ≤ length (wire v)) × (length (wire v) ≤ 10)
unfolding wire
length-wire (pos v) = omega (arith, length-wire_positive v)
length-wire (negsuc n) = ground (arith, length-wire_positive (n + 1))
