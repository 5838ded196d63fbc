-- ===== src/Varint/RoundTrip.antt =====
-- `Decode` after `Encode`.
use gumble.Prelude.{
  ℕ, suc, ◌+◌, ◌-◌, ◌^◌, ◌≤◌, ◌<◌, ◌≡◌, ◌≢◌, ap, ◌∙◌, List, [], ◌∷◌, ◌++◌, some, length, take, drop,
  arith, leb, leb→le, take-append_self, drop-append_self, length-append, length-drop, if_cases,
}
use gumble.Prelude.Int.{ℤ, pos, negsuc, IsInt64, to_int64}
use gumble.Varint.{decode, encode, negated}
use gumble.Varint.Wire.{digits256, wire, wire_positive, length-wire, length-wire_positive}
use gumble.Varint.Encode.{encode-wire, write-append, Writes}
use gumble.Varint.Decode.{
  decode7, decode14, decode21, decode28, decode32, decode64, decode2, decode_negative,
}

-- `xs` is read as `v`, whatever follows.
abbrev Reads : ℤ → List ℕ → List ℕ → Type 0
Reads v rest xs = decode (xs ++ rest) ≡ (v, length xs)

value : {a b : ℕ} (n : ℕ) → a ≡ b → ◌≡◌ {A = ℤ × ℕ} (pos a, n) (pos b, n)
value n e = ap {A = ℕ} {B = ℤ × ℕ} (λ a. (pos a, n)) e

to_int64_small : (w v : ℕ) → w ≡ v → v < 2 ^ 63 → to_int64 w ≡ pos v
to_int64_small w v e h = ground arith

decode-digits64 :
    (v : ℕ) (rest : List ℕ) → v < 2 ^ 63 → Reads (pos v) rest (0xf4 ∷ digits256 8 v [])
decode-digits64 v rest h =
    decode64 _ _ _ _ _ _ _ _ rest
    ∙ ap {A = ℤ} {B = ℤ × ℕ} (λ a. (a, 9)) (to_int64_small _ v (omega arith) h)

decode-wire_positive : (v : ℕ) (rest : List ℕ) → v < 2 ^ 63 → Reads (pos v) rest (wire_positive v)
unfolding wire_positive
decode-wire_positive v rest h =
    if_cases (Reads (pos v) rest) (leb v 0x7f) _ _
      (λ k. decode7 rest (omega (arith, leb→le v 0x7f k)))
      λ _.
        if_cases (Reads (pos v) rest) (leb v 0x3fff) _ _
          (λ k.
            decode14 rest (omega (arith, leb→le v 0x3fff k)) (omega arith) ∙ value 2 (omega arith))
          λ _.
            if_cases (Reads (pos v) rest) (leb v 0x1fffff) _ _
              (λ k.
                decode21 rest (omega (arith, leb→le v 0x1fffff k)) (omega arith) (omega arith)
                ∙ value 3 (omega arith))
              λ _.
                if_cases (Reads (pos v) rest) (leb v 0xfffffff) _ _
                  (λ k.
                    decode28 rest (omega (arith, leb→le v 0xfffffff k)) (omega arith) (omega arith)
                      (omega arith)
                    ∙ value 4 (omega arith))
                  λ _.
                    if_cases (Reads (pos v) rest) (leb v (2 ^ 31 - 1)) _ _
                      (λ k.
                        decode32 _ _ _ _ rest ∙ value 5 (omega (arith, leb→le v (2 ^ 31 - 1) k)))
                      λ _. decode-digits64 v rest h

negated_pos : (n k : ℕ) → 1 ≤ k → negated (pos (n + 1), k) ≡ (negsuc n, suc k)
negated_pos n k h = ground arith

-- A negative value is the negation of what follows its first byte.
decode-negsuc :
    (n : ℕ) (rest : List ℕ) → n + 1 < 2 ^ 63 → Reads (negsuc n) rest (0xf8 ∷ wire_positive (n + 1))
decode-negsuc n rest h =
    decode_negative _
    ∙ ap negated (decode-wire_positive (n + 1) rest h)
    ∙ negated_pos n _ (length-wire_positive (n + 1)).0

decode-wire : (v : ℤ) (rest : List ℕ) → IsInt64 v → v ≢ negsuc (2 ^ 63 - 1) → Reads v rest (wire v)
unfolding wire
decode-wire (pos v) rest h ne = decode-wire_positive v rest h
decode-wire (negsuc n) rest h ne =
    if_cases (Reads (negsuc n) rest) (leb n 3) _ _ (λ k. decode2 rest (leb→le n 3 k))
      λ _. decode-negsuc n rest (grind arith)

-- The bytes do not depend on what follows them.
pub encoding-reads :
    (b : List ℕ) (v : ℤ)
    → 10 ≤ length b
    → IsInt64 v
    → v ≢ negsuc (2 ^ 63 - 1)
    → (c : List ℕ) × (n : ℕ) × (encode b v ≡ some (c, n))
      × (1 ≤ n)
      × (n ≤ 10)
      × (length c ≡ length b)
      × (drop n c ≡ drop n b)
      × ((rest : List ℕ) → decode (take n c ++ rest) ≡ (v, n))
encoding-reads [] v h hv ne = elim h [ ]
encoding-reads (y ∷ b) v h hv ne = (
  wire v ++ drop size (y ∷ b),
  size,
  unfold Writes in encode-wire y b v hv ne ∙ rw (write-append (y ∷ b) (wire v) room),
  (length-wire v).0,
  (length-wire v).1,
  omega (arith, length-append (wire v) (drop size (y ∷ b)), length-drop size (y ∷ b), room),
  drop-append_self (wire v) (drop size (y ∷ b)),
  λ rest. rw (take-append_self (wire v) (drop size (y ∷ b))) (decode-wire v rest hv ne),
)
  where
    size : ℕ
    size = length (wire v)

    room : size ≤ length (y ∷ b)
    room = omega (arith, length-wire v)

-- `Encode` into a slice of ten bytes or more succeeds for every int64 but the least, leaves what is
-- behind its bytes as it was, and `Decode` reads back the value and the length, whatever follows.
pub decode-encode :
    (b : List ℕ) (v : ℤ) (rest : List ℕ)
    → 10 ≤ length b
    → IsInt64 v
    → v ≢ negsuc (2 ^ 63 - 1)
    → (c : List ℕ) × (n : ℕ) × (encode b v ≡ some (c, n))
      × (1 ≤ n)
      × (n ≤ 10)
      × (length c ≡ length b)
      × (drop n c ≡ drop n b)
      × (decode (take n c ++ rest) ≡ (v, n))
decode-encode b v rest h hv ne =
    let (c, n, e, lo, hi, same, kept, reads) = encoding-reads b v h hv ne in
    (c, n, e, lo, hi, same, kept, reads rest)
