-- ===== src/Map.antt =====
-- Go maps with uint32 keys, as association lists. A key may stand once; the order of the list is the
-- order in which `range` visits the entries, which Go leaves open.
use gumble.Prelude.{ℕ, ◌≡◌, refl, Option, none, some, List, [], ◌∷◌, ◌==◌, if◌then◌else◌, arith}

abbrev pub Map {ℓ} : Type ℓ → Type ℓ
Map V = List (ℕ × V)

module _ {ℓ} {V : Type ℓ} where
  -- `m[k]`
  unfoldable pub get : Map V → ℕ → Option V
  get [] k = none
  get ((j, v) ∷ m) k = if k == j then some v else get m k

  -- `m[k] = v`
  unfoldable pub put : Map V → ℕ → V → Map V
  put [] k v = (k, v) ∷ []
  put ((j, w) ∷ m) k v = if k == j then (k, v) ∷ m else (j, w) ∷ put m k v

  -- `delete(m, k)`
  unfoldable pub delete : Map V → ℕ → Map V
  delete [] k = []
  delete ((j, v) ∷ m) k = let rest = delete m k in if k == j then rest else (j, v) ∷ rest

  pub get-put :
      (m : Map V) (k j : ℕ) (v : V) → get (put m k v) j ≡ (if j == k then some v else get m j)
  unfolding get put
  get-put [] k j v = refl
  get-put ((i, w) ∷ m) k j v = ground (arith, get-put m k j v)

  pub get-delete : (m : Map V) (k j : ℕ) → get (delete m k) j ≡ (if j == k then none else get m j)
  unfolding get delete
  get-delete [] k j = ground arith
  get-delete ((i, w) ∷ m) k j = ground (arith, get-delete m k j)

-- A heap: what each reference points to.
abbrev pub Heap {ℓ} : Type ℓ → Type ℓ
Heap A = ℕ → A

-- `*p = a`
abbrev pub store {ℓ} : {A : Type ℓ} → Heap A → ℕ → A → Heap A
store h p a q = if q == p then a else h q
