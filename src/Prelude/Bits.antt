-- ===== src/Prelude/Bits.antt =====
-- `bit_and` and `bit_or` at variables: masks, disjoint fields, single bits, and tables for bytes.
use Prim.Native.Nat.{
  ℕ, zero, suc, ◌+◌, ◌-◌, ◌*◌, ◌/◌, ◌%◌, ◌^◌, ◌≤◌, ◌<◌, min, max, bit_and, bit_or, digits,
  bit_and-bitwise, bit_or-bitwise,
}
use mathlib.Core.Path.{◌≡◌, refl, ap}
use mathlib.Core.Bool.{Bool, true, ◌&&◌}
use native.Mathlib.Omega.{arith}
use native.Mathlib.Nat.{pow-suc, one-le-pow}

-- A native bit operation is a digit recursion on fuel; two sufficient amounts give one result.
module _ (rest : ℕ → ℕ) (op : ℕ → ℕ → ℕ) where
  enough_fuel : (f g a b : ℕ) → a ≤ f → a ≤ g → digits rest op f a b ≡ digits rest op g a b
  enough_fuel zero zero a b h k = refl
  enough_fuel zero (suc g) zero b h k = refl
  enough_fuel zero (suc g) (suc a) b h k = elim h [ ]
  enough_fuel (suc f) zero zero b h k = refl
  enough_fuel (suc f) zero (suc a) b h k = elim k [ ]
  enough_fuel (suc f) (suc g) zero b h k = refl
  enough_fuel (suc f) (suc g) (suc a) b h k =
      ap (λ (t : ℕ). t * 2 + op (suc a % 2) (b % 2))
        (enough_fuel f g (suc a / 2) (b / 2) (omega arith) (omega arith))

-- The lowest digit of the result, and the others.
pub bit_or_digit : (a b : ℕ) → bit_or a b ≡ bit_or (a / 2) (b / 2) * 2 + max (a % 2) (b % 2)
bit_or_digit zero b = omega (arith, bit_or-bitwise 0 b, bit_or-bitwise 0 (b / 2))
bit_or_digit (suc a) b = omega (
  arith,
  bit_or-bitwise (suc a) b,
  bit_or-bitwise (suc a / 2) (b / 2),
  enough_fuel (λ y. y) max a (suc a / 2) (suc a / 2) (b / 2) (omega arith) (omega arith),
)

pub bit_and_digit : (a b : ℕ) → bit_and a b ≡ bit_and (a / 2) (b / 2) * 2 + min (a % 2) (b % 2)
bit_and_digit zero b = omega (arith, bit_and-bitwise 0 b, bit_and-bitwise 0 (b / 2))
bit_and_digit (suc a) b = omega (
  arith,
  bit_and-bitwise (suc a) b,
  bit_and-bitwise (suc a / 2) (b / 2),
  enough_fuel (λ y. 0) min a (suc a / 2) (suc a / 2) (b / 2) (omega arith) (omega arith),
)

or_zero : (n a : ℕ) → a ≤ n → bit_or a 0 ≡ a
or_zero n zero h = refl
or_zero zero (suc a) h = elim h [ ]
or_zero (suc n) (suc a) h =
    omega (arith, bit_or_digit (suc a) 0, or_zero n (suc a / 2) (omega arith))

and_zero : (n a : ℕ) → a ≤ n → bit_and a 0 ≡ 0
and_zero n zero h = refl
and_zero zero (suc a) h = elim h [ ]
and_zero (suc n) (suc a) h =
    omega (arith, bit_and_digit (suc a) 0, and_zero n (suc a / 2) (omega arith))

pub bit_or-zero : (a : ℕ) → bit_or a 0 ≡ a
bit_or-zero a = or_zero a a (omega arith)

pub bit_and-zero : (a : ℕ) → bit_and a 0 ≡ 0
bit_and-zero a = and_zero a a (omega arith)

or_comm : (n a b : ℕ) → a ≤ n → bit_or a b ≡ bit_or b a
or_comm n zero b h = omega (arith, bit_or-bitwise 0 b, bit_or-zero b)
or_comm zero (suc a) b h = elim h [ ]
or_comm (suc n) (suc a) b h = omega (
  arith,
  bit_or_digit (suc a) b,
  bit_or_digit b (suc a),
  or_comm n (suc a / 2) (b / 2) (omega arith),
)

pub bit_or_comm : (a b : ℕ) → bit_or a b ≡ bit_or b a
bit_or_comm a b = or_comm a a b (omega arith)

shifted : (q k : ℕ) → q * 2 ^ suc k ≡ q * 2 ^ k * 2
shifted q k = omega (arith, ap (λ (t : ℕ). q * t) (pow-suc 2 k))

-- `q << k | r` is a sum where `r` has at most k bits.
pub bit_or_low : (k q r : ℕ) → r < 2 ^ k → bit_or (q * 2 ^ k) r ≡ q * 2 ^ k + r
bit_or_low zero q r h = ground (arith, bit_or-zero q)
bit_or_low (suc k) q r h =
    ground (arith, shifted q k, pow-suc 2 k, bit_or_digit (q * 2 ^ suc k) r, bit_or_low k q (r / 2))

mask_of_sum : (k q r : ℕ) → r < 2 ^ k → bit_and (q * 2 ^ k + r) (2 ^ k - 1) ≡ r
mask_of_sum zero q r h = ground (arith, bit_and-zero (q * 1 + r))
mask_of_sum (suc k) q r h = ground (
  arith,
  shifted q k,
  pow-suc 2 k,
  one-le-pow k 2,
  bit_and_digit (q * 2 ^ suc k + r) (2 ^ suc k - 1),
  mask_of_sum k q (r / 2),
)

-- `a & (1 << k - 1)` is a remainder.
pub bit_and_low : (k a : ℕ) → bit_and a (2 ^ k - 1) ≡ a % 2 ^ k
bit_and_low k a = ground (arith, one-le-pow k 2, mask_of_sum k (a / 2 ^ k) (a % 2 ^ k))

power_of_sum : (k q r : ℕ) → r < 2 ^ k → bit_and (q * 2 ^ k + r) (2 ^ k) ≡ q % 2 * 2 ^ k
power_of_sum zero q r h = ground (arith, bit_and_low 1 (q * 1 + r))
power_of_sum (suc k) q r h = ground (
  arith,
  shifted q k,
  shifted (q % 2) k,
  pow-suc 2 k,
  bit_and_digit (q * 2 ^ suc k + r) (2 ^ suc k),
  power_of_sum k q (r / 2),
)

-- `a & (1 << k)` is the digit of that weight.
pub bit_and-power : (k a : ℕ) → bit_and a (2 ^ k) ≡ a / 2 ^ k % 2 * 2 ^ k
bit_and-power k a = ground (arith, one-le-pow k 2, power_of_sum k (a / 2 ^ k) (a % 2 ^ k))

-- The digit of weight 2 ^ i.
abbrev pub bit_at : ℕ → ℕ → ℕ
bit_at a zero = a % 2
bit_at a (suc i) = bit_at (a / 2) i

pub bit_at-bit_or : (i a b : ℕ) → bit_at (bit_or a b) i ≡ max (bit_at a i) (bit_at b i)
bit_at-bit_or zero a b = omega (arith, bit_or_digit a b)
bit_at-bit_or (suc i) a b =
    let halves : bit_or a b / 2 ≡ bit_or (a / 2) (b / 2) = omega (arith, bit_or_digit a b) in
    rw halves (bit_at-bit_or i (a / 2) (b / 2))

-- Every value of a small range, by evaluation.
abbrev pub all_below : ℕ → (ℕ → Bool) → Bool
all_below zero p = true
all_below (suc n) p = p n && all_below n p

pub all_below_sound : (n : ℕ) (p : ℕ → Bool) (x : ℕ) → all_below n p ≡ true → x < n → p x ≡ true
all_below_sound zero p x h lt = elim lt [ ]
all_below_sound (suc n) p x h lt = ground (arith, all_below_sound n p x)
