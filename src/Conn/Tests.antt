-- ===== src/Conn/Tests.antt =====
-- Frames of few bytes.
use gumble.Prelude.{ℕ, Bool, ◌==◌, not, ◌≡◌, refl, true, some, [], ◌∷◌, arith}
use gumble.Prelude.Int.{pos}
use gumble.Conn.{write_failed, write_audio}
use gumble.Conn.Audio.{Position, write_audio_failed}

abbrev somewhere : Position
somewhere = some (1, 2, 3)

-- The connection is closed before the data is written.
abbrev closing : ℕ → Bool
closing n = not (n == 2)

write_audio_failed_example :
    write_audio closing 4 31 (pos 300) true (8 ∷ 9 ∷ []) (some 1) (some 2) (some 3) ≡ write_failed
write_audio_failed_example =
    write_audio_failed closing 4 31 300 2 true (8 ∷ 9 ∷ []) somewhere (omega arith) (omega arith)
      (omega arith) refl
