-- ===== src/ChannelPath/Reversal.antt =====
-- The loop of ChannelPath that swaps from both ends reverses the slice.
use gumble.Prelude.{
  ℕ, zero, suc, ◌+◌, ◌*◌, ◌-◌, ◌/◌, ◌≤◌, ◌<◌, ◌≡◌, ◌≢◌, ◌∙◌, refl, sym, ap, ◌⊎◌, inl, inr, false,
  List, [], ◌∷◌, ◌++◌, length, get_or, arith, length-append, ◌==◌, if◌then◌else◌, ltb, ltb→lt,
  Bool-cases,
}
use gumble.Client.{Text}
use gumble.ChannelPath.{set_piece, swap_at, swap_from}

length-set_piece : (i : ℕ) (s : Text) (xs : List Text) → length (set_piece i s xs) ≡ length xs
unfolding set_piece
length-set_piece i s [] = refl
length-set_piece zero s (x ∷ xs) = refl
length-set_piece (suc i) s (x ∷ xs) = ap suc (length-set_piece i s xs)

get_or-set_piece :
    (i j : ℕ) (s : Text) (xs : List Text)
    → i < length xs
    → get_or (set_piece i s xs) j [] ≡ (if j == i then s else get_or xs j [])
unfolding set_piece
get_or-set_piece i j s [] h = elim h [ ]
get_or-set_piece zero zero s (x ∷ xs) h = refl
get_or-set_piece zero (suc j) s (x ∷ xs) h = ground arith
get_or-set_piece (suc i) zero s (x ∷ xs) h = ground arith
get_or-set_piece (suc i) (suc j) s (x ∷ xs) h = ground (arith, get_or-set_piece i j s xs)

length-swap_at : (i : ℕ) (xs : List Text) → length (swap_at i xs) ≡ length xs
length-swap_at i xs =
    length-set_piece i _ (set_piece (length xs - 1 - i) (get_or xs i []) xs)
    ∙ length-set_piece _ _ xs

get_or-swap_at :
    (i j : ℕ) (xs : List Text)
    → i < length xs
    → get_or (swap_at i xs) j [] ≡ (
        if j == i
        then get_or xs (length xs - 1 - i) []
        else if j == (length xs - 1 - i)
        then get_or xs i []
        else get_or xs j [])
get_or-swap_at i j xs h =
    get_or-set_piece i j (get_or xs (length xs - 1 - i) [])
      (set_piece (length xs - 1 - i) (get_or xs i []) xs)
      (omega (arith, length-set_piece (length xs - 1 - i) (get_or xs i []) xs))
    ∙ ap (λ t. if j == i then get_or xs (length xs - 1 - i) [] else t)
        (get_or-set_piece (length xs - 1 - i) j (get_or xs i []) xs (omega arith))

-- What `rounds` rounds from the place i on have swapped: the places from i on, and those they mirror.
abbrev Outside : ℕ → ℕ → ℕ → ℕ → Type 0
Outside i rounds j n = ((j < i) ⊎ (i + rounds ≤ j)) × ((j < n - (i + rounds)) ⊎ (n ≤ j + i))

swap_from-Outside :
    (rounds i j n : ℕ) (xs : List Text)
    → length xs ≡ n
    → 2 * (i + rounds) ≤ n
    → Outside i rounds j n
    → get_or (swap_from rounds i xs) j [] ≡ get_or xs j []
unfolding swap_from
swap_from-Outside zero i j n xs e h a = refl
swap_from-Outside (suc rounds) i j n xs e h a =
    swap_from-Outside rounds (suc i) j n (swap_at i xs) (length-swap_at i xs ∙ e) (omega arith)
      (split a.0, away a.1)
    ∙ get_or-swap_at i j xs (omega arith)
    ∙ ground arith
  where
    split : (j < i) ⊎ (i + suc rounds ≤ j) → (j < suc i) ⊎ (suc i + rounds ≤ j)
    split (inl p) = inl (omega arith)
    split (inr p) = inr (omega arith)

    away : (j < n - (i + suc rounds)) ⊎ (n ≤ j + i) → (j < n - (suc i + rounds)) ⊎ (n ≤ j + suc i)
    away (inl p) = inl (omega arith)
    away (inr p) = inr (omega arith)

abbrev Inside : ℕ → ℕ → ℕ → ℕ → Type 0
Inside i rounds j n = ((i ≤ j) × (j < i + rounds)) ⊎ ((n - (i + rounds) ≤ j) × (j < n - i))

apart : (a b : ℕ) → a ≢ b → (a == b) ≡ false
apart a b h = ground arith

together : (a b : ℕ) → (a == b) ≡ false → a ≢ b
together a b h e = ground arith

swap_from-Inside :
    (rounds i j n : ℕ) (xs : List Text)
    → length xs ≡ n
    → 2 * (i + rounds) ≤ n
    → Inside i rounds j n
    → get_or (swap_from rounds i xs) j [] ≡ get_or xs (n - 1 - j) []
unfolding swap_from
swap_from-Inside zero i j n xs e h (inl a) = absurd (omega arith)
swap_from-Inside zero i j n xs e h (inr a) = absurd (omega arith)
swap_from-Inside (suc rounds) i j n xs e h a = elim (Bool-cases (j == i)) [
  | inl p ↦
      let q : j ≡ i = ground arith in
      swap_from-Outside rounds (suc i) j n (swap_at i xs) (length-swap_at i xs ∙ e) (omega arith)
        (inl (omega arith), inl (omega arith))
      ∙ get_or-swap_at i j xs (omega arith)
      ∙ rw p (ap (λ (k : ℕ). get_or xs k []) (omega arith))
  | inr p ↦ elim (Bool-cases (j == (n - 1 - i))) [
    | inl p' ↦
        let q : j ≡ n - 1 - i = ground arith in
        swap_from-Outside rounds (suc i) j n (swap_at i xs) (length-swap_at i xs ∙ e) (omega arith)
          (inr (omega arith), inr (omega arith))
        ∙ get_or-swap_at i j xs (omega arith)
        ∙ rw (e, p, p') (ap (λ (k : ℕ). get_or xs k []) (omega arith))
    | inr p' ↦
        swap_from-Inside rounds (suc i) j n (swap_at i xs) (length-swap_at i xs ∙ e) (omega arith)
          (inner (together j i p) (together j (n - 1 - i) p') a)
        ∙ get_or-swap_at i (n - 1 - j) xs (omega arith)
        ∙ rw
            (
              e,
              apart (n - 1 - j) i (other (together j (n - 1 - i) p') a),
              apart (n - 1 - j) (n - 1 - i) (other2 (together j i p) a),
            )
            refl
  ]
]
  where
    inner : j ≢ i → j ≢ n - 1 - i → Inside i (suc rounds) j n → Inside (suc i) rounds j n
    inner x y (inl (u, v)) = inl (omega arith, omega arith)
    inner x y (inr (u, v)) = inr (omega arith, omega arith)

    other : j ≢ n - 1 - i → Inside i (suc rounds) j n → n - 1 - j ≢ i
    other x (inl (u, v)) k = absurd (omega arith)
    other x (inr (u, v)) k = absurd (omega arith)

    other2 : j ≢ i → Inside i (suc rounds) j n → n - 1 - j ≢ n - 1 - i
    other2 x (inl (u, v)) k = absurd (omega arith)
    other2 x (inr (u, v)) k = absurd (omega arith)

-- All rounds of the loop.
swap_from_all :
    (j : ℕ) (xs : List Text)
    → j < length xs
    → get_or (swap_from (length xs / 2) 0 xs) j [] ≡ get_or xs (length xs - 1 - j) []
swap_from_all j xs h = elim (thirds j (length xs)) [
  | inl a ↦
      swap_from-Inside (length xs / 2) 0 j (length xs) xs refl (omega arith)
        (inl (omega arith, omega arith))
  | inr (inl a) ↦
      swap_from-Inside (length xs / 2) 0 j (length xs) xs refl (omega arith)
        (inr (omega arith, omega arith))
  | inr (inr (a, b)) ↦
      swap_from-Outside (length xs / 2) 0 j (length xs) xs refl (omega arith)
        (inr (omega arith), inl (omega arith))
      ∙ ap (λ (k : ℕ). get_or xs k []) (omega arith)
]
  where
    thirds : (j n : ℕ) → (j < n / 2) ⊎ ((n - n / 2 ≤ j) ⊎ ((n / 2 ≤ j) × (j < n - n / 2)))
    thirds j n = elim (Bool-cases (ltb j (n / 2))) [
      | inl e ↦ inl (ltb→lt _ _ e)
      | inr e ↦ elim (Bool-cases (ltb j (n - n / 2))) [
        | inl f ↦ inr (inr (ground arith, ltb→lt _ _ f))
        | inr f ↦ inr (inl (ground arith))
      ]
    ]

unfoldable pub reverse : List Text → List Text
reverse [] = []
reverse (x ∷ xs) = reverse xs ++ (x ∷ [])

length-reverse : (xs : List Text) → length (reverse xs) ≡ length xs
unfolding reverse
length-reverse [] = refl
length-reverse (x ∷ xs) = omega (arith, length-append (reverse xs) (x ∷ []), length-reverse xs)

get_or-append :
    (j : ℕ) (xs ys : List Text)
    → get_or (xs ++ ys) j []
      ≡ (if ltb j (length xs) then get_or xs j [] else get_or ys (j - length xs) [])
get_or-append j [] ys = ground arith
get_or-append zero (x ∷ xs) ys = ground arith
get_or-append (suc j) (x ∷ xs) ys = ground (arith, get_or-append j xs ys)

get_or-reverse :
    (j : ℕ) (xs : List Text)
    → j < length xs
    → get_or (reverse xs) j [] ≡ get_or xs (length xs - 1 - j) []
unfolding reverse
get_or-reverse j [] h = elim h [ ]
get_or-reverse j (x ∷ xs) h =
    get_or-append j (reverse xs) (x ∷ []) ∙ elim (Bool-cases (ltb j (length xs))) [
      | inl e ↦
          let less : j < length xs = ltb→lt _ _ e in
          let one : suc (length xs) - 1 - j ≡ suc (length xs - 1 - j) = omega arith in
          rw (length-reverse xs, e, one) (get_or-reverse j xs less)
      | inr e ↦
          let last : j - length xs ≡ 0 = ground arith in
          let first : suc (length xs) - 1 - j ≡ 0 = ground arith in
          rw (length-reverse xs, e, last, first)
    ]

list_ext :
    (xs ys : List Text)
    → length xs ≡ length ys
    → ((j : ℕ) → j < length xs → get_or xs j [] ≡ get_or ys j [])
    → xs ≡ ys
list_ext [] [] e h = refl
list_ext [] (y ∷ ys) e h = absurd (omega arith)
list_ext (x ∷ xs) [] e h = absurd (omega arith)
list_ext (x ∷ xs) (y ∷ ys) e h =
    let heads : x ≡ y = h 0 (omega arith) in
    let tails : xs ≡ ys = list_ext xs ys (omega arith) (λ j k. h (suc j) (omega arith)) in
    rw (heads, tails)

length-swap_from : (rounds i : ℕ) (xs : List Text) → length (swap_from rounds i xs) ≡ length xs
unfolding swap_from
length-swap_from zero i xs = refl
length-swap_from (suc rounds) i xs =
    length-swap_from rounds (suc i) (swap_at i xs) ∙ length-swap_at i xs

pub swap_from-reverse : (xs : List Text) → swap_from (length xs / 2) 0 xs ≡ reverse xs
swap_from-reverse xs =
    let size : length (swap_from (length xs / 2) 0 xs) ≡ length xs = length-swap_from _ 0 xs in
    list_ext (swap_from (length xs / 2) 0 xs) (reverse xs) (size ∙ sym (length-reverse xs)) λ j h.
      let less : j < length xs = omega arith in
      swap_from_all j xs less ∙ sym (get_or-reverse j xs less)
