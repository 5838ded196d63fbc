-- ===== src/Client/Texts.antt =====
-- Go's equality of strings, as `text_eq` tests it.
use gumble.Prelude.{◌≡◌, refl, true, [], ◌∷◌, arith}
use gumble.Client.{Text, text_eq}

pub text_eq_sound : (s t : Text) → text_eq s t ≡ true → s ≡ t
unfolding text_eq
text_eq_sound [] [] e = refl
text_eq_sound [] (y ∷ t) e = cc
text_eq_sound (x ∷ s) [] e = cc
text_eq_sound (x ∷ s) (y ∷ t) e = ground (arith, text_eq_sound s t)

pub text_eq_refl : (s : Text) → text_eq s s ≡ true
unfolding text_eq
text_eq_refl [] = refl
text_eq_refl (x ∷ s) = ground (arith, text_eq_refl s)
