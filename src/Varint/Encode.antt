-- ===== src/Varint/Encode.antt =====
-- `Encode` writes the wire form to the front of its slice.
use gumble.Prelude.{
  ℕ, suc, ◌+◌, ◌-◌, ◌/◌, ◌%◌, ◌^◌, ◌≤◌, ◌<◌, bit_and, bit_or, ◌≡◌, refl, ◌≢◌, Bool, true, Option,
  none, some, List, [], ◌∷◌, ◌++◌, ◌==◌, ==_iff, length, ap, leb, false, leb→le, le→leb,
  if◌then◌else◌, drop, arith,
}
use gumble.Prelude.Bits.{bit_and_low, all_below_sound}
use gumble.Prelude.Int.{neg_int64, ℤ, pos, negsuc, IsInt64}
use gumble.Varint.{
  write, bytes14, bytes21, bytes28, big_endian32, big_endian64, encode_positive, encode,
  after_first, returns,
}
use gumble.Varint.Wire.{digits256, wire_positive, wire}
use mathlib.Core.Option

-- `x & m | t` for the head byte, checked for every value of the field.
tag14 : (x : ℕ) → x < 0x40 → bit_or (bit_and x 0x3f) 0x80 ≡ 0x80 + x
tag14 x h =
    (==_iff _ _).0 (all_below_sound 0x40 (λ x. bit_or (bit_and x 0x3f) 0x80 == 0x80 + x) x refl h)

tag21 : (x : ℕ) → x < 0x20 → bit_or (bit_and x 0x1f) 0xc0 ≡ 0xc0 + x
tag21 x h =
    (==_iff _ _).0 (all_below_sound 0x20 (λ x. bit_or (bit_and x 0x1f) 0xc0 == 0xc0 + x) x refl h)

tag28 : (x : ℕ) → x < 0x10 → bit_or (bit_and x 0xf) 0xe0 ≡ 0xe0 + x
tag28 x h =
    (==_iff _ _).0 (all_below_sound 0x10 (λ x. bit_or (bit_and x 0xf) 0xe0 == 0xe0 + x) x refl h)

tag2 : (x : ℕ) → x < 4 → bit_or 0xfc x ≡ 0xfc + x
tag2 x h = (==_iff _ _).0 (all_below_sound 4 (λ x. bit_or 0xfc x == 0xfc + x) x refl h)

-- What a call returns that writes `bytes`.
unfoldable pub Writes : List ℕ → List ℕ → Option (List ℕ × ℕ) → Type 0
Writes b bytes r = r ≡ Option.map (λ c. (c, length bytes)) (write b bytes)

bytes14-digits : (v : ℕ) → v < 2 ^ 14 → bytes14 v ≡ (0x80 + v / 256) ∷ digits256 1 v []
unfolding bytes14
bytes14-digits v h = ground (arith, tag14 (v / 2 ^ 8), bit_and_low 8 v)

bytes21-digits : (v : ℕ) → v < 2 ^ 21 → bytes21 v ≡ (0xc0 + v / 2 ^ 16) ∷ digits256 2 v []
unfolding bytes21
bytes21-digits v h = ground (arith, tag21 (v / 2 ^ 16), bit_and_low 8 v, bit_and_low 8 (v / 2 ^ 8))

bytes28-digits : (v : ℕ) → v < 2 ^ 28 → bytes28 v ≡ (0xe0 + v / 2 ^ 24) ∷ digits256 3 v []
unfolding bytes28
bytes28-digits v h = ground (
  arith,
  tag28 (v / 2 ^ 24),
  bit_and_low 8 v,
  bit_and_low 8 (v / 2 ^ 8),
  bit_and_low 8 (v / 2 ^ 16),
)

big_endian32-digits : (v : ℕ) → big_endian32 v ≡ digits256 4 v []
unfolding big_endian32
big_endian32-digits v = ground arith

big_endian64-digits : (v : ℕ) → big_endian64 v ≡ digits256 8 v []
unfolding big_endian64
big_endian64-digits v = ground arith

branch :
    (b : List ℕ) (t : Bool) (xs ys : List ℕ) (r s : Option (List ℕ × ℕ))
    → (t ≡ true → Writes b xs r)
    → (t ≡ false → Writes b ys s)
    → Writes b (if t then xs else ys) (if t then r else s)
branch b true xs ys r s h k = h refl
branch b false xs ys r s h k = k refl

-- Writing equal bytes, of which the code returns the number.
written :
    (b : List ℕ) (n : ℕ) {xs ys : List ℕ}
    → xs ≡ ys
    → length ys ≡ n
    → Writes b ys (returns n (write b xs))
unfolding Writes
written b n e m = rw (e, m)

one_byte : (v : ℕ) → leb v 0x7f ≡ true → (v % 256) ∷ [] ≡ v ∷ []
one_byte v h = ground arith

encode_positive-wire :
    (b : List ℕ) (v : ℕ) → v < 2 ^ 63 → Writes b (wire_positive v) (encode_positive b v)
unfolding encode_positive wire_positive
encode_positive-wire b v h =
    branch b (leb v 0x7f) _ _ _ _ (λ k. written b 1 (one_byte v k) refl)
      λ _.
        branch b (leb v 0x3fff) _ _ _ _
          (λ k. written b 2 (bytes14-digits v (omega (arith, leb→le v 0x3fff k))) refl)
          λ _.
            branch b (leb v 0x1fffff) _ _ _ _
              (λ k. written b 3 (bytes21-digits v (omega (arith, leb→le v 0x1fffff k))) refl)
              λ _.
                branch b (leb v 0xfffffff) _ _ _ _
                  (λ k. written b 4 (bytes28-digits v (omega (arith, leb→le v 0xfffffff k))) refl)
                  λ _.
                    branch b (leb v (2 ^ 31 - 1)) _ _ _ _
                      (λ k. written b 5 (ap (◌∷◌ 0xf0) (big_endian32-digits v)) refl)
                      λ _.
                        rw (le→leb v (2 ^ 63 - 1) (omega arith))
                          (written b 9 (ap (◌∷◌ 0xf4) (big_endian64-digits v)) refl)

after_first-returns :
    (x n : ℕ) (o : Option (List ℕ))
    → after_first x (returns n o) ≡ returns (suc n) (Option.map (◌∷◌ x) o)
after_first-returns x n none = refl
after_first-returns x n (some c) = ground arith

after-written :
    (x y : ℕ) (b xs : List ℕ) (r : Option (List ℕ × ℕ))
    → Writes b xs r
    → Writes (y ∷ b) (x ∷ xs) (after_first x r)
unfolding write Writes
after-written x y b xs r h = rw h (after_first-returns x (length xs) (write b xs))

two_bits :
    (y : ℕ) (b : List ℕ) (n : ℕ)
    → n ≤ 3
    → Writes (y ∷ b) ((0xfc + n) ∷ []) (some (bit_or 0xfc (bit_and n 255 % 256) ∷ b, 1))
unfolding write Writes
two_bits y b n h = ground (arith, bit_and_low 8 n, tag2 n)

neg_int64-negsuc : (n : ℕ) → n + 1 < 2 ^ 63 → neg_int64 (negsuc n) ≡ pos (n + 1)
neg_int64-negsuc n h = ground arith

-- On every int64 but the least, `Encode` writes the wire form and returns its length.
pub encode-wire :
    (y : ℕ) (b : List ℕ) (v : ℤ)
    → IsInt64 v
    → v ≢ negsuc (2 ^ 63 - 1)
    → Writes (y ∷ b) (wire v) (encode (y ∷ b) v)
unfolding encode wire
encode-wire y b (pos v) h ne = encode_positive-wire (y ∷ b) v h
encode-wire y b (negsuc n) h ne =
    branch (y ∷ b) (leb n 3) _ _ _ _ (λ k. two_bits y b n (leb→le n 3 k))
      λ k.
        after-written 0xf8 y b (wire_positive (n + 1)) _
          (rw (neg_int64-negsuc n inside) (encode_positive-wire b (n + 1) inside))
  where
    inside : n + 1 < 2 ^ 63
    inside = grind arith

-- A slice that is long enough is overwritten at its front and nowhere else.
pub write-append :
    (b xs : List ℕ) → length xs ≤ length b → write b xs ≡ some (xs ++ drop (length xs) b)
unfolding write
write-append b [] h = refl
write-append [] (x ∷ xs) h = elim h [ ]
write-append (y ∷ b) (x ∷ xs) h = rw (write-append b xs (omega arith))
