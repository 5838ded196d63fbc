-- ===== src/Outgoing/Tests.antt =====
-- Two buffers, and a codec that gives one byte.
use gumble.Prelude.{ℕ, suc, ◌≡◌, refl, true, Option, none, some, List, [], ◌∷◌, arith}
use gumble.Prelude.Int.{pos}
use gumble.Conn.{Written}
use gumble.Outgoing.{AudioBuffer, Encoder, target_id, write_calls, audio_outgoing}
use gumble.Outgoing.Numbered.{NoneNil, Obeys, AreSent, audio_outgoing-AreSent}

-- The state counts the buffers.
abbrev counting : Encoder ℕ
counting = record { encode = λ s b n k. (some (7 ∷ []), suc s); reset = λ s. 0 }

abbrev two : List AudioBuffer
two = some (pos 1 ∷ []) ∷ some (pos 2 ∷ []) ∷ []

counting-Obeys : Obeys counting 40
counting-Obeys s t b raw e = let one : 7 ∷ [] ≡ raw = cc in rw (← one) (omega arith)

two-NoneNil : NoneNil two
two-NoneNil = ((λ e. cc), ((λ e. cc), tt))

audio_outgoing-AreSent_example :
    (os : List (Option Written)) × (u : ℕ) × (write_calls
        (λ _ _. true)
        0
        counting
        none
        40
        (audio_outgoing two)
        (some 0)
      ≡ (os, some u))
    × AreSent counting (target_id none) 40 0 0 two os u
audio_outgoing-AreSent_example =
    audio_outgoing-AreSent counting none 40 (λ _ _. true) (λ _ _. refl) counting-Obeys (omega arith)
      two 0 two-NoneNil
