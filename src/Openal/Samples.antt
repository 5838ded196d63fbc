-- ===== src/Openal/Samples.antt =====
-- Samples survive the two bytes that they are written to.
use gumble.Prelude.{
  ℕ, suc, ◌+◌, ◌*◌, ◌/◌, ◌%◌, ◌^◌, ◌≤◌, ◌<◌, ◌≡◌, refl, ap, true, none, some, Option-cases, inl,
  inr, none-some, List, [], ◌∷◌, All, length, take, arith, ◌==◌,
}
use mathlib.Core.Option.{some-injective}
use gumble.Prelude.Int.{ℤ, pos, negsuc}
use gumble.Conn.{Bytes}
use gumble.Openal.{to_uint16, to_int16, fill, samples_of, captured}

abbrev pub IsInt16 : ℤ → Type 0
IsInt16 (pos n) = n < 2 ^ 15
IsInt16 (negsuc n) = n < 2 ^ 15

to_int16-to_uint16 : (v : ℤ) → IsInt16 v → to_int16 (to_uint16 v) ≡ v
to_int16-to_uint16 (pos n) h = ground arith
to_int16-to_uint16 (negsuc n) h = ground arith

bytes_of : (w : ℕ) → w % 2 ^ 8 + w / 2 ^ 8 * 2 ^ 8 ≡ w
bytes_of w = omega arith

to_uint16_bound : (v : ℤ) → to_uint16 v < 2 ^ 16
to_uint16_bound (pos n) = omega arith
to_uint16_bound (negsuc n) = omega arith

-- What has been written of the array is two bytes for each sample, and these are the samples.
pub record IsWritten (xs : List ℤ) (raw : Bytes) : Type 0 where
  pub size : length (take (length xs * 2) raw) ≡ length xs * 2
  pub samples : samples_of (take (length xs * 2) raw) ≡ xs

pub fill-IsWritten :
    (xs : List ℤ) (raw raw' : Bytes) → fill xs raw ≡ some raw' → All IsInt16 xs → IsWritten xs raw'
unfolding fill samples_of
fill-IsWritten [] raw raw' e h = record { size = refl; samples = refl }
fill-IsWritten (x ∷ xs) [] raw' e h = absurd cc
fill-IsWritten (x ∷ xs) (a ∷ []) raw' e h = absurd cc
fill-IsWritten (x ∷ xs) (a ∷ b ∷ raw) raw' e h = elim (Option-cases (fill xs raw)) [
  | inl q ↦ absurd (none-some raw' (rw q at e))
  | inr (rest, q) ↦
      let w = fill-IsWritten xs raw rest q h.1 in
      let two : suc (length xs) * 2 ≡ suc (suc (length xs * 2)) = omega arith in
      let w16 : ℕ = to_uint16 x in
      let same : w16 % 2 ^ 8 ∷ w16 / 2 ^ 8 ∷ rest ≡ raw' = some-injective _ _ (rw q at e) in
      let back : to_int16 (w16 % 2 ^ 8 + w16 / 2 ^ 8 * 2 ^ 8) ≡ x =
        rw (bytes_of w16) (to_int16-to_uint16 x h.0) in
      rw (← same) (record {
        size = rw two (ap (λ n. suc (suc n)) w.size);
        samples = rw two (λ i. back i ∷ w.samples i);
      })
]

-- What is written for int16 samples is captured as the same samples, in a frame of their number.
pub captured-fill :
    (xs : List ℤ) (raw raw' : Bytes)
    → fill xs raw ≡ some raw'
    → All IsInt16 xs
    → captured (length xs) (take (length xs * 2) raw') ≡ some xs
unfolding captured
captured-fill xs raw raw' e h =
    let w = fill-IsWritten xs raw raw' e h in
    rw (w.size, w.samples) (rw (eq_refl (length xs * 2)) refl)
  where
    eq_refl : (n : ℕ) → (n == n) ≡ true
    eq_refl n = ground arith

-- Two bytes have to be there for each sample.
pub fill-fits :
    (xs : List ℤ) (raw : Bytes)
    → length xs * 2 ≤ length raw
    → (raw' : Bytes) × (fill xs raw ≡ some raw') × (length raw' ≡ length raw)
unfolding fill
fill-fits [] raw h = (raw, refl, refl)
fill-fits (x ∷ xs) [] h = absurd (omega arith)
fill-fits (x ∷ xs) (a ∷ []) h = absurd (omega arith)
fill-fits (x ∷ xs) (a ∷ b ∷ raw) h =
    let (rest, e, l) = fill-fits xs raw (omega arith) in
    (to_uint16 x % 2 ^ 8 ∷ to_uint16 x / 2 ^ 8 ∷ rest, rw (e, fill), ap (λ n. suc (suc n)) l)

pub fill_panics : (xs : List ℤ) (raw : Bytes) → length raw < length xs * 2 → fill xs raw ≡ none
unfolding fill
fill_panics [] raw h = absurd (omega arith)
fill_panics (x ∷ xs) [] h = refl
fill_panics (x ∷ xs) (a ∷ []) h = refl
fill_panics (x ∷ xs) (a ∷ b ∷ raw) h = rw (fill_panics xs raw (omega arith), fill)
