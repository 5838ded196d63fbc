-- ===== src/Targets/Bitmask.antt =====
-- Permission.Has is the inclusion of sets of bits.
use gumble.Prelude.{ℕ, zero, suc, ◌/◌, ◌≤◌, ◌≡◌, ◌↔◌, bit_and, true, arith, ==_iff}
use gumble.Prelude.Bits.{bit_at, bit_and_digit, bit_and-zero}
use gumble.Targets.{has_permission}

-- A number whose bits are all among those of another is what the conjunction gives.
included : (n p o : ℕ) → o ≤ n → ((i : ℕ) → bit_at o i ≤ bit_at p i) → bit_and p o ≡ o
included zero p o h k = let none_left : o ≡ 0 = omega arith in rw none_left (bit_and-zero p)
included (suc n) p o h k =
    omega (arith, bit_and_digit p o, included n (p / 2) (o / 2) (omega arith) (λ i. k (suc i)), k 0)

conjoined : (p o : ℕ) → bit_and p o ≡ o → (i : ℕ) → bit_at o i ≤ bit_at p i
conjoined p o e zero = omega (arith, bit_and_digit p o)
conjoined p o e (suc i) = conjoined (p / 2) (o / 2) (omega (arith, bit_and_digit p o)) i

-- Has is true if and only if every bit that is set in the second permission is set in the first.
has_permission-bits : (p o : ℕ) → (has_permission p o ≡ true) ↔ ((i : ℕ) → bit_at o i ≤ bit_at p i)
unfolding has_permission
has_permission-bits p o = (
  λ e. conjoined p o ((==_iff (bit_and p o) o).0 e),
  λ k. (==_iff (bit_and p o) o).1 (included o p o (omega arith) k),
)
