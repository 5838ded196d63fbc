-- ===== src/ChannelPath/Found.antt =====
-- The path of a channel leads back to it, once the name of the root is left out.
use gumble.Prelude.{
  ℕ, suc, ◌+◌, ◌≡◌, ◌∙◌, refl, sym, ap, none, some, List, [], ◌∷◌, ◌++◌, map, length, arith,
  append_assoc, ◌⊎◌, inl, inr, Bool-cases, false,
}
use gumble.Map
use gumble.Map.{Map}
use gumble.Client.Texts.{text_eq_sound, text_eq_refl}
use gumble.Client.{World, Text, text_eq}
use gumble.Requests.{find_child, find, find_channel_path}
use gumble.ChannelPath.{pieces_of, channel_path}
use gumble.ChannelPath.Reversal.{reverse, swap_from-reverse}

-- The entries of a map.
abbrev pub Holds : Map ℕ → ℕ → Type 0
Holds [] c = ⊥
Holds ((_, d) ∷ m) c = (c ≡ d) ⊎ Holds m c

-- Each channel has the one before it as its parent and is among its children, where no other channel
-- has its name.
abbrev pub Chain : World → ℕ → List ℕ → Type 0
Chain w p [] = Unit {0}
Chain w p (c ∷ cs) =
    ((w.channel_at c).parent ≡ some p)
    × Holds (w.channel_at p).children c
    × ((d : ℕ)
        → Holds (w.channel_at p).children d
        → (w.channel_at d).name ≡ (w.channel_at c).name
        → d ≡ c)
    × Chain w c cs

-- The child that has the name alone is the one that is found under it.
find_child-Holds :
    (w : World) (m : Map ℕ) (c : ℕ)
    → Holds m c
    → ((d : ℕ) → Holds m d → (w.channel_at d).name ≡ (w.channel_at c).name → d ≡ c)
    → find_child w m (w.channel_at c).name ≡ some c
unfolding find_child
find_child-Holds w [] c h only = absurd h
find_child-Holds w ((k, d) ∷ m) c h only =
    elim (Bool-cases (text_eq (w.channel_at d).name (w.channel_at c).name)) [
      | inl e ↦ rw (e, find_child) (ap some (only d (inl refl) (text_eq_sound _ _ e)))
      | inr e ↦
          rw (e, find_child)
            (elim h [
              | inl same ↦ absurd (other d same e)
              | inr later ↦ find_child-Holds w m c later (λ x g. only x (inr g))
            ])
    ]
  where
    other : (d : ℕ) → c ≡ d → text_eq (w.channel_at d).name (w.channel_at c).name ≡ false → ⊥
    other d same e = let no = rw (same, text_eq_refl (w.channel_at d).name) at e in cc

abbrev pub last_of : ℕ → List ℕ → ℕ
last_of p [] = p
last_of p (c ∷ cs) = last_of c cs

abbrev pub names : World → List ℕ → List Text
names w cs = map (λ c. (w.channel_at c).name) cs

find-Chain :
    (w : World) (p : ℕ) (cs : List ℕ) → Chain w p cs → find w p (names w cs) ≡ some (last_of p cs)
unfolding find
find-Chain w p [] h = refl
find-Chain w p (c ∷ cs) h = rw (find_child-Holds w _ c h.1 h.2, find) (find-Chain w c cs h.3)

pieces_of-Chain :
    (fuel : ℕ) (w : World) (p : ℕ) (cs : List ℕ) (ps : List Text)
    → pieces_of fuel w (some p) ≡ some ps
    → Chain w p cs
    → pieces_of (length cs + fuel) w (some (last_of p cs)) ≡ some (reverse (names w cs) ++ ps)
unfolding pieces_of reverse
pieces_of-Chain fuel w p [] ps e h = ap (λ (n : ℕ). pieces_of n w (some p)) (omega arith) ∙ e
pieces_of-Chain fuel w p (c ∷ cs) ps e h =
    let up : pieces_of (suc fuel) w (some c) ≡ some ((w.channel_at c).name ∷ ps) = rw (h.0, e) in
    ap (λ (n : ℕ). pieces_of n w (some (last_of c cs))) (omega arith)
    ∙ pieces_of-Chain (suc fuel) w c cs ((w.channel_at c).name ∷ ps) up h.3
    ∙ ap some (sym (append_assoc (reverse (names w cs)) ((w.channel_at c).name ∷ []) ps))

reverse-snoc : (xs : List Text) (x : Text) → reverse (xs ++ (x ∷ [])) ≡ x ∷ reverse xs
unfolding reverse
reverse-snoc [] x = refl
reverse-snoc (y ∷ xs) x = rw (reverse-snoc xs x)

reverse-reverse : (xs : List Text) → reverse (reverse xs) ≡ xs
unfolding reverse
reverse-reverse [] = refl
reverse-reverse (x ∷ xs) = reverse-snoc (reverse xs) x ∙ ap (◌∷◌ x) (reverse-reverse xs)

-- For a channel at the end of a chain of children from the root, each of which has a name that no other
-- child of the same channel has, ChannelPath returns the names of the chain, the
-- root's first, after a step for each of them; Channels.Find of the names without the root's returns
-- the channel.
pub channel_path-find :
    (w : World) (root : ℕ) (cs : List ℕ)
    → Map.get w.channels 0 ≡ some root
    → (w.channel_at root).parent ≡ none
    → Chain w root cs
    → (channel_path (length cs + 1) w (some (last_of root cs))
        ≡ some ((w.channel_at root).name ∷ names w cs))
      × (find_channel_path w (names w cs) ≡ some (last_of root cs))
unfolding channel_path pieces_of find_channel_path
channel_path-find w root cs e top h =
    let start : pieces_of 1 w (some root) ≡ some ((w.channel_at root).name ∷ []) = rw top in
    let pieces = pieces_of-Chain 1 w root cs ((w.channel_at root).name ∷ []) start h in
    (
      rw (pieces, channel_path)
          (ap some (
            swap_from-reverse (reverse (names w cs) ++ ((w.channel_at root).name ∷ []))
            ∙ reverse-snoc (reverse (names w cs)) (w.channel_at root).name
            ∙ ap (◌∷◌ (w.channel_at root).name) (reverse-reverse (names w cs)))),
      rw (e, find_channel_path) (find-Chain w root cs h),
    )
