-- ===== src/Varint/Tests.antt =====
-- Encodings of single values.
use gumble.Prelude.{
  ℕ, ◌≡◌, ◌≤◌, ◌-◌, ◌^◌, none, some, List, [], ◌∷◌, ◌++◌, length, take, drop, replicate, arith,
}
use gumble.Prelude.Int.{pos, negsuc}
use gumble.Varint.{encode, decode}
use gumble.Varint.RoundTrip.{decode-encode}
use gumble.Varint.Bounds.{decode-Fits, encode_least, Fits}

-- 300, with one byte behind it.
decode-encode_example :
    (c : List ℕ) × (n : ℕ) × (encode (replicate 10 0) (pos 300) ≡ some (c, n))
    × (1 ≤ n)
    × (n ≤ 10)
    × (length c ≡ 10)
    × (drop n c ≡ drop n (replicate {A = ℕ} 10 0))
    × (decode (take n c ++ (7 ∷ [])) ≡ (pos 300, n))
decode-encode_example =
    decode-encode (replicate 10 0) (pos 300) (7 ∷ []) (omega arith) (omega arith) (λ e. cc)

decode-Fits_example : Fits (0xf8 ∷ 0x81 ∷ 0x2c ∷ []) (decode (0xf8 ∷ 0x81 ∷ 0x2c ∷ []))
decode-Fits_example =
    decode-Fits (0xf8 ∷ 0x81 ∷ 0x2c ∷ []) (omega arith, (omega arith, (omega arith, tt)))

encode_least_example : encode (0 ∷ 0 ∷ 0 ∷ []) (negsuc (2 ^ 63 - 1)) ≡ none
encode_least_example = encode_least (0 ∷ 0 ∷ 0 ∷ [])
