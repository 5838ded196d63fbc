-- ===== src/Varint/Bounds.antt =====
-- Where `Encode` panics, and what `Decode` returns on any bytes.
use gumble.Prelude.{
  ℕ, zero, suc, ◌+◌, ◌-◌, ◌^◌, ◌≤◌, ◌<◌, bit_and, ◌≡◌, refl, ap, List, [], ◌∷◌, ◌==◌, length, arith,
  none, All, if_cases, leb, leb_and, ◌&&◌,
}
use gumble.Prelude.Int.{ℤ, pos, negsuc, to_int64, neg_int64, IsInt64}
use gumble.Prelude.Bits.{bit_and_low}
use gumble.Varint.{
  encode, decode, negated, IsByte, after_first, index, read_uint32, read_uint64, or_bytes2,
  or_bytes3, or_bytes4,
}
use gumble.Varint.Decode.{or_bytes2_sum, or_bytes3_sum, or_bytes4_sum}

-- `Encode` of the least int64 panics on every slice: `-value` is the value itself, so it calls itself
-- on ever shorter slices.
pub encode_least : (b : List ℕ) → encode b (negsuc (2 ^ 63 - 1)) ≡ none
unfolding encode
encode_least [] = refl
encode_least (y ∷ b) = ap (after_first 0xf8) (encode_least b)

index-IsByte : (b : List ℕ) (i : ℕ) → All IsByte b → index b i < 256
index-IsByte [] i h = omega arith
index-IsByte (x ∷ b) zero h = h.0
index-IsByte (x ∷ b) (suc i) h = index-IsByte b i h.1

-- At most the bytes that are there, an int64, and no bytes only with the value 0.
pub record Fits (b : List ℕ) (p : ℤ × ℕ) : Type 0 where
  pub within : p.1 ≤ length b
  pub int64 : IsInt64 p.0
  pub failed : p.1 ≡ 0 → p.0 ≡ pos 0

to_int64-IsInt64 : (w : ℕ) → w < 2 ^ 64 → IsInt64 (to_int64 w)
to_int64-IsInt64 w h = grind arith

neg_int64-IsInt64 : (v : ℤ) → IsInt64 v → IsInt64 (neg_int64 v)
neg_int64-IsInt64 (pos zero) h = h
neg_int64-IsInt64 (pos (suc n)) h = omega arith
neg_int64-IsInt64 (negsuc n) h = grind arith

fits : (b : List ℕ) (v : ℤ) (n : ℕ) → suc n ≤ length b → IsInt64 v → Fits b (v, suc n)
fits b v n h k = record { within = h; int64 = k; failed = λ e. absurd (omega arith) }

refused : (b : List ℕ) → Fits b (pos 0, 0)
refused b = record { within = omega arith; int64 = omega arith; failed = λ _. refl }

negated-Fits : (x : ℕ) (r : List ℕ) (p : ℤ × ℕ) → Fits r p → Fits (x ∷ r) (negated p)
negated-Fits x r (v, zero) h = refused (x ∷ r)
negated-Fits x r (v, suc n) h = record {
  within = omega (arith, h.within);
  int64 = neg_int64-IsInt64 v h.int64;
  failed = λ e. absurd (omega arith);
}

read_uint32-lt : (b : List ℕ) (i : ℕ) → All IsByte b → read_uint32 b i < 2 ^ 32
read_uint32-lt b i h = omega (
  arith,
  index-IsByte b i h,
  index-IsByte b (i + 1) h,
  index-IsByte b (i + 2) h,
  index-IsByte b (i + 3) h,
)

-- The branches of `Decode` that read a number of a fixed length.
module _ (b : List ℕ) (h : All IsByte b) where
  fits14 : (x : ℕ) → 2 ≤ length b → Fits b (pos (or_bytes2 (bit_and x 0x3f) (index b 1)), 2)
  fits14 x k =
      rw (or_bytes2_sum (bit_and x 0x3f) _ (index-IsByte b 1 h))
        (fits b _ 1 k (omega (arith, bit_and_low 6 x, index-IsByte b 1 h)))

  fits21 :
      (x : ℕ) → 3 ≤ length b → Fits b (pos (or_bytes3 (bit_and x 0x1f) (index b 1) (index b 2)), 3)
  fits21 x k =
      rw (or_bytes3_sum (bit_and x 0x1f) _ _ (index-IsByte b 1 h) (index-IsByte b 2 h))
        (fits b _ 2 k (omega (arith, bit_and_low 5 x, index-IsByte b 1 h, index-IsByte b 2 h)))

  fits28 :
      (x : ℕ)
      → 4 ≤ length b
      → Fits b (pos (or_bytes4 (bit_and x 0xf) (index b 1) (index b 2) (index b 3)), 4)
  fits28 x k =
      let one = index-IsByte b 1 h in
      let two = index-IsByte b 2 h in
      let three = index-IsByte b 3 h in
      rw (or_bytes4_sum (bit_and x 0xf) _ _ _ one two three)
        (fits b _ 3 k (omega (arith, bit_and_low 4 x, one, two, three)))

  fits32 : 5 ≤ length b → Fits b (pos (read_uint32 b 1), 5)
  fits32 k = fits b _ 4 k (omega (arith, read_uint32-lt b 1 h))

  fits64 : 9 ≤ length b → Fits b (to_int64 (read_uint64 b 1), 9)
  fits64 k =
      fits b _ 8 k (to_int64-IsInt64 _ (omega (arith, read_uint32-lt b 1 h, read_uint32-lt b 5 h)))

-- On a slice of bytes `Decode` reports no more bytes than there are, returns an int64, and 0 bytes only
-- together with the value 0.
pub decode-Fits : (b : List ℕ) → All IsByte b → Fits b (decode b)
unfolding decode
decode-Fits [] h = refused []
decode-Fits (x ∷ r) h =
    let b : List ℕ = x ∷ r in
    let rest = decode-Fits r h.1 in
    if_cases (Fits b) (bit_and x 0x80 == 0) _ _
      (λ _. fits b (pos x) 0 (omega arith) (omega (arith, h.0)))
      λ _.
        if_cases (Fits b) (bit_and x 0xc0 == 0x80 && leb 2 (length b)) _ _
          (λ t. fits14 b h x (leb_and _ _ _ t))
          λ _.
            if_cases (Fits b) (bit_and x 0xe0 == 0xc0 && leb 3 (length b)) _ _
              (λ t. fits21 b h x (leb_and _ _ _ t))
              λ _.
                if_cases (Fits b) (bit_and x 0xf0 == 0xe0 && leb 4 (length b)) _ _
                  (λ t. fits28 b h x (leb_and _ _ _ t))
                  λ _.
                    if_cases (Fits b) (bit_and x 0xfc == 0xf0 && leb 5 (length b)) _ _
                      (λ t. fits32 b h (leb_and _ _ _ t))
                      λ _.
                        if_cases (Fits b) (bit_and x 0xfc == 0xf4 && leb 9 (length b)) _ _
                          (λ t. fits64 b h (leb_and _ _ _ t))
                          λ _.
                            if_cases (Fits b) (bit_and x 0xfc == 0xf8) _ _
                              (λ _. negated-Fits x r (decode r) rest)
                              λ _.
                                if_cases (Fits b) (bit_and x 0xfc == 0xfc) _ _
                                  (λ _.
                                    fits b (negsuc (bit_and x 3)) 0 (omega arith)
                                      (omega (arith, bit_and_low 2 x)))
                                  λ _. refused b
