-- ===== src/Varint/Decode.antt =====
-- What `Decode` reads, one class of first bytes at a time, in plain arithmetic.
use gumble.Prelude.{
  ℕ, suc, ◌+◌, ◌-◌, ◌*◌, ◌/◌, ◌%◌, ◌^◌, ◌≤◌, ◌<◌, bit_and, ◌≡◌, refl, List, ◌∷◌, ◌==◌, ==_iff,
  length, le→leb, ap, ◌∙◌, arith,
}
use gumble.Prelude.Bits.{bit_and_low, bit_or_low, all_below_sound}
use gumble.Prelude.Int.{ℤ, pos, negsuc, to_int64}
use gumble.Varint.{or_bytes2, or_bytes3, or_bytes4, negated, decode}

-- A mask of high bits of a byte, checked for every byte.
mask1 : (x k : ℕ) → x < 256 → x / 128 * 128 ≡ k → bit_and x 0x80 ≡ k
mask1 x k h e =
    (==_iff _ _).0 (all_below_sound 256 (λ x. bit_and x 0x80 == x / 128 * 128) x refl h) ∙ e

mask2 : (x k : ℕ) → x < 256 → x / 64 * 64 ≡ k → bit_and x 0xc0 ≡ k
mask2 x k h e =
    (==_iff _ _).0 (all_below_sound 256 (λ x. bit_and x 0xc0 == x / 64 * 64) x refl h) ∙ e

mask3 : (x k : ℕ) → x < 256 → x / 32 * 32 ≡ k → bit_and x 0xe0 ≡ k
mask3 x k h e =
    (==_iff _ _).0 (all_below_sound 256 (λ x. bit_and x 0xe0 == x / 32 * 32) x refl h) ∙ e

mask4 : (x k : ℕ) → x < 256 → x / 16 * 16 ≡ k → bit_and x 0xf0 ≡ k
mask4 x k h e =
    (==_iff _ _).0 (all_below_sound 256 (λ x. bit_and x 0xf0 == x / 16 * 16) x refl h) ∙ e

mask6 : (x k : ℕ) → x < 256 → x / 4 * 4 ≡ k → bit_and x 0xfc ≡ k
mask6 x k h e = (==_iff _ _).0 (all_below_sound 256 (λ x. bit_and x 0xfc == x / 4 * 4) x refl h) ∙ e

pub or_bytes2_sum : (x y : ℕ) → y < 256 → or_bytes2 x y ≡ x * 2 ^ 8 + y
or_bytes2_sum x y h = bit_or_low 8 x y h

pub or_bytes3_sum : (x y z : ℕ) → y < 256 → z < 256 → or_bytes3 x y z ≡ x * 2 ^ 16 + y * 2 ^ 8 + z
or_bytes3_sum x y z hy hz =
    ground (arith, bit_or_low 16 x (y * 2 ^ 8), bit_or_low 8 (x * 2 ^ 8 + y) z)

pub or_bytes4_sum :
    (x y z w : ℕ)
    → y < 256
    → z < 256
    → w < 256
    → or_bytes4 x y z w ≡ x * 2 ^ 24 + y * 2 ^ 16 + z * 2 ^ 8 + w
or_bytes4_sum x y z w hy hz hw = ground (
  arith,
  bit_or_low 24 x (y * 2 ^ 16),
  bit_or_low 16 (x * 2 ^ 8 + y) (z * 2 ^ 8),
  bit_or_low 8 (x * 2 ^ 16 + y * 2 ^ 8 + z) w,
)

low_field : (x t k : ℕ) → x < 2 ^ k → t % 2 ^ k ≡ 0 → bit_and (t + x) (2 ^ k - 1) ≡ x
low_field x t k h e = grind (arith, bit_and_low k (t + x))

module _ {x : ℕ} (r : List ℕ) where
  pub decode7 : x < 0x80 → decode (x ∷ r) ≡ (pos x, 1)
  unfolding decode
  decode7 h = rw (mask1 x 0 (omega arith) (omega arith))

  pub decode14 :
      {y : ℕ} → x < 0x40 → y < 256 → decode ((0x80 + x) ∷ y ∷ r) ≡ (pos (x * 2 ^ 8 + y), 2)
  unfolding decode
  decode14 {y} h hy =
      rw
        (
          mask1 (0x80 + x) 0x80 (omega arith) (omega arith),
          mask2 (0x80 + x) 0x80 (omega arith) (omega arith),
          le→leb 2 (suc (suc (length r))) (omega arith),
          low_field x 0x80 6 h refl,
        )
        (ap {A = ℕ} {B = ℤ × ℕ} (λ n. (pos n, 2)) (or_bytes2_sum x y hy))

  pub decode21 :
      {y z : ℕ}
      → x < 0x20
      → y < 256
      → z < 256
      → decode ((0xc0 + x) ∷ y ∷ z ∷ r) ≡ (pos (x * 2 ^ 16 + y * 2 ^ 8 + z), 3)
  unfolding decode
  decode21 {y} {z} h hy hz =
      rw
        (
          mask1 (0xc0 + x) 0x80 (omega arith) (omega arith),
          mask2 (0xc0 + x) 0xc0 (omega arith) (omega arith),
          mask3 (0xc0 + x) 0xc0 (omega arith) (omega arith),
          le→leb 3 (suc (suc (suc (length r)))) (omega arith),
          low_field x 0xc0 5 h refl,
        )
        (ap {A = ℕ} {B = ℤ × ℕ} (λ n. (pos n, 3)) (or_bytes3_sum x y z hy hz))

  pub decode28 :
      {y z w : ℕ}
      → x < 0x10
      → y < 256
      → z < 256
      → w < 256
      → decode ((0xe0 + x) ∷ y ∷ z ∷ w ∷ r) ≡ (pos (x * 2 ^ 24 + y * 2 ^ 16 + z * 2 ^ 8 + w), 4)
  unfolding decode
  decode28 {y} {z} {w} h hy hz hw =
      rw
        (
          mask1 (0xe0 + x) 0x80 (omega arith) (omega arith),
          mask2 (0xe0 + x) 0xc0 (omega arith) (omega arith),
          mask3 (0xe0 + x) 0xe0 (omega arith) (omega arith),
          mask4 (0xe0 + x) 0xe0 (omega arith) (omega arith),
          le→leb 4 (suc (suc (suc (suc (length r))))) (omega arith),
          low_field x 0xe0 4 h refl,
        )
        (ap {A = ℕ} {B = ℤ × ℕ} (λ n. (pos n, 4)) (or_bytes4_sum x y z w hy hz hw))

  pub decode2 : x ≤ 3 → decode ((0xfc + x) ∷ r) ≡ (negsuc x, 1)
  unfolding decode
  decode2 h =
      rw
        (
          mask1 (0xfc + x) 0x80 (omega arith) (omega arith),
          mask2 (0xfc + x) 0xc0 (omega arith) (omega arith),
          mask3 (0xfc + x) 0xe0 (omega arith) (omega arith),
          mask4 (0xfc + x) 0xf0 (omega arith) (omega arith),
          mask6 (0xfc + x) 0xfc (omega arith) (omega arith),
        )
        (ap {A = ℕ} {B = ℤ × ℕ} (λ n. (negsuc n, 1)) (low_field x 0xfc 2 (omega arith) refl))

pub decode32 :
    (x y z w : ℕ) (r : List ℕ)
    → decode (0xf0 ∷ x ∷ y ∷ z ∷ w ∷ r) ≡ (pos (x * 2 ^ 24 + y * 2 ^ 16 + z * 2 ^ 8 + w), 5)
unfolding decode
decode32 x y z w r = rw (le→leb 5 (suc (suc (suc (suc (suc (length r)))))) (omega arith))

pub decode64 :
    (a b c d e f g h : ℕ) (r : List ℕ)
    → decode (0xf4 ∷ a ∷ b ∷ c ∷ d ∷ e ∷ f ∷ g ∷ h ∷ r) ≡ (
      to_int64 (
          (a * 2 ^ 24 + b * 2 ^ 16 + c * 2 ^ 8 + d) * 2 ^ 32
          + (e * 2 ^ 24 + f * 2 ^ 16 + g * 2 ^ 8 + h)),
      9,
    )
unfolding decode
decode64 a b c d e f g h r =
    rw (le→leb 9 (length (0 ∷ a ∷ b ∷ c ∷ d ∷ e ∷ f ∷ g ∷ h ∷ r)) (omega arith))

pub decode_negative : (r : List ℕ) → decode (0xf8 ∷ r) ≡ negated (decode r)
unfolding decode
decode_negative r = refl
