-- ===== src/Util/PlainText.antt =====
-- PlainText of gumbleutil/textmessage.go, on the tokens that the decoder of package encoding/xml gives.
use gumble.Prelude.{
  Bool, true, false, ◌||◌, List, [], ◌∷◌, ◌++◌, ◌==◌, if◌then◌else◌, ◌≡◌, ◌∙◌, refl, ap, sym,
  append-nil, append_assoc, Bool-cases, inl, inr, if_cases,
}
use gumble.Client.{Text, text_eq}

pub data Token : Type 0 where
  char_data : Text → Token
  start_element : Text → Token
  other_token : Token

-- The local names of the elements that start a line.
abbrev blocks : List Text
blocks =
    (b'a' ∷ b'd' ∷ b'd' ∷ b'r' ∷ b'e' ∷ b's' ∷ b's' ∷ [])
    ∷ (b'a' ∷ b'r' ∷ b't' ∷ b'i' ∷ b'c' ∷ b'l' ∷ b'e' ∷ [])
    ∷ (b'a' ∷ b's' ∷ b'i' ∷ b'd' ∷ b'e' ∷ [])
    ∷ (b'a' ∷ b'u' ∷ b'd' ∷ b'i' ∷ b'o' ∷ [])
    ∷ (b'b' ∷ b'l' ∷ b'o' ∷ b'c' ∷ b'k' ∷ b'q' ∷ b'u' ∷ b'o' ∷ b't' ∷ b'e' ∷ [])
    ∷ (b'c' ∷ b'a' ∷ b'n' ∷ b'v' ∷ b'a' ∷ b's' ∷ [])
    ∷ (b'd' ∷ b'd' ∷ [])
    ∷ (b'd' ∷ b'i' ∷ b'v' ∷ [])
    ∷ (b'd' ∷ b'l' ∷ [])
    ∷ (b'f' ∷ b'i' ∷ b'e' ∷ b'l' ∷ b'd' ∷ b's' ∷ b'e' ∷ b't' ∷ [])
    ∷ (b'f' ∷ b'i' ∷ b'g' ∷ b'c' ∷ b'a' ∷ b'p' ∷ b't' ∷ b'i' ∷ b'o' ∷ b'n' ∷ [])
    ∷ (b'f' ∷ b'i' ∷ b'g' ∷ b'u' ∷ b'r' ∷ b'e' ∷ [])
    ∷ (b'f' ∷ b'o' ∷ b'o' ∷ b't' ∷ b'e' ∷ b'r' ∷ [])
    ∷ (b'f' ∷ b'o' ∷ b'r' ∷ b'm' ∷ [])
    ∷ (b'h' ∷ b'1' ∷ [])
    ∷ (b'h' ∷ b'2' ∷ [])
    ∷ (b'h' ∷ b'3' ∷ [])
    ∷ (b'h' ∷ b'4' ∷ [])
    ∷ (b'h' ∷ b'5' ∷ [])
    ∷ (b'h' ∷ b'6' ∷ [])
    ∷ (b'h' ∷ b'e' ∷ b'a' ∷ b'd' ∷ b'e' ∷ b'r' ∷ [])
    ∷ (b'h' ∷ b'g' ∷ b'r' ∷ b'o' ∷ b'u' ∷ b'p' ∷ [])
    ∷ (b'h' ∷ b'r' ∷ [])
    ∷ (b'n' ∷ b'o' ∷ b's' ∷ b'c' ∷ b'r' ∷ b'i' ∷ b'p' ∷ b't' ∷ [])
    ∷ (b'o' ∷ b'l' ∷ [])
    ∷ (b'o' ∷ b'u' ∷ b't' ∷ b'p' ∷ b'u' ∷ b't' ∷ [])
    ∷ (b'p' ∷ [])
    ∷ (b'p' ∷ b'r' ∷ b'e' ∷ [])
    ∷ (b's' ∷ b'e' ∷ b'c' ∷ b't' ∷ b'i' ∷ b'o' ∷ b'n' ∷ [])
    ∷ (b't' ∷ b'a' ∷ b'b' ∷ b'l' ∷ b'e' ∷ [])
    ∷ (b't' ∷ b'f' ∷ b'o' ∷ b'o' ∷ b't' ∷ [])
    ∷ (b'u' ∷ b'l' ∷ [])
    ∷ (b'v' ∷ b'i' ∷ b'd' ∷ b'e' ∷ b'o' ∷ [])
    ∷ []

unfoldable pub is_listed : Text → List Text → Bool
is_listed name [] = false
is_listed name (n ∷ ns) = text_eq name n || is_listed name ns

pub record Plain : Type 0 where
  pub buffer : Text
  pub newline : Bool

abbrev break_line : Plain → Plain
break_line s = record { buffer = s.buffer ++ (10 ∷ []); newline = true }

-- The body of the loop.
unfoldable pub write_token : Token → Plain → Plain
unfolding is_listed
write_token (char_data []) s = s
write_token (char_data (c ∷ cs)) s = record { buffer = s.buffer ++ (c ∷ cs); newline = false }
write_token (start_element name) s =
    if is_listed name blocks
    then (if s.newline then s else break_line s)
    else if text_eq name (b'b' ∷ b'r' ∷ [])
    then break_line s
    else s
write_token other_token s = s

unfoldable pub write_tokens : List Token → Plain → Plain
unfolding write_token
write_tokens [] s = s
write_tokens (t ∷ ts) s = write_tokens ts (write_token t s)

unfoldable pub plain_text : List Token → Text
unfolding write_tokens
plain_text ts = (write_tokens ts (record { buffer = []; newline = false })).buffer

-- The text without its line breaks.
abbrev pub joined : Text → Text
joined [] = []
joined (c ∷ cs) = if c == 10 then joined cs else c ∷ joined cs

-- The character data of the message.
abbrev pub data_of : List Token → Text
data_of [] = []
data_of (char_data cs ∷ ts) = cs ++ data_of ts
data_of (_ ∷ ts) = data_of ts

joined-append : (s t : Text) → joined (s ++ t) ≡ joined s ++ joined t
joined-append [] t = refl
joined-append (c ∷ cs) t = elim (Bool-cases (c == 10)) [
  | inl e ↦ rw e (joined-append cs t)
  | inr e ↦ rw e (ap (c ∷◌) (joined-append cs t))
]

joined-break_line : (s : Plain) → joined (break_line s).buffer ≡ joined s.buffer
joined-break_line s = joined-append s.buffer (10 ∷ []) ∙ append-nil (joined s.buffer)

joined-start_element :
    (name : Text) (s : Plain) → joined (write_token (start_element name) s).buffer ≡ joined s.buffer
unfolding write_token
joined-start_element name s =
    if_cases (λ (d : Plain). joined d.buffer ≡ joined s.buffer) (is_listed name blocks) _ _
      (λ _.
        if_cases (λ (d : Plain). joined d.buffer ≡ joined s.buffer) s.newline _ _ (λ _. refl)
          (λ _. joined-break_line s))
      (λ _.
        if_cases (λ (d : Plain). joined d.buffer ≡ joined s.buffer)
          (text_eq name (b'b' ∷ b'r' ∷ [])) _ _ (λ _. joined-break_line s) (λ _. refl))

joined-write_tokens :
    (ts : List Token) (s : Plain)
    → joined (write_tokens ts s).buffer ≡ joined s.buffer ++ joined (data_of ts)
unfolding write_tokens write_token
joined-write_tokens [] s = sym (append-nil (joined s.buffer))
joined-write_tokens (char_data [] ∷ ts) s = joined-write_tokens ts s
joined-write_tokens (char_data (c ∷ cs) ∷ ts) s =
    joined-write_tokens ts (record { buffer = s.buffer ++ (c ∷ cs); newline = false })
    ∙ ap (◌++ joined (data_of ts)) (joined-append s.buffer (c ∷ cs))
    ∙ append_assoc (joined s.buffer) (joined (c ∷ cs)) (joined (data_of ts))
    ∙ ap (joined s.buffer ++◌) (sym (joined-append (c ∷ cs) (data_of ts)))
joined-write_tokens (start_element name ∷ ts) s =
    joined-write_tokens ts (write_token (start_element name) s)
    ∙ ap (◌++ joined (data_of ts)) (joined-start_element name s)
joined-write_tokens (other_token ∷ ts) s = joined-write_tokens ts s

-- PlainText keeps the character data of the message and adds nothing but line breaks: without those,
-- the two are the same.
plain_text-data_of : (ts : List Token) → joined (plain_text ts) ≡ joined (data_of ts)
unfolding plain_text
plain_text-data_of ts = joined-write_tokens ts (record { buffer = []; newline = false })
