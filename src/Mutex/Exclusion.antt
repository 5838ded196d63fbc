-- ===== src/Mutex/Exclusion.antt =====
-- Mutual exclusion of the reader-preferred mutex.
use gumble.Prelude.{◌+◌, ◌<◌, ◌≡◌, ◌≢◌, refl, some, arith, ◌⊎◌, inl, inr, Bool-cases, ◌==◌}
use gumble.Mutex.{
  RpwMutex, readers, Gate, open_, arriving, counted, departing, uncounted, Step, lock, unlock,
  r_lock, count, first, further, r_unlock, discount, last, leave, Reach, start, next,
}

-- What the counter says at each place of the gate, and who holds `w` then.
abbrev Counts : RpwMutex → Gate → Type 0
Counts m open_ = (m.n ≡ m.inside) × (0 < m.n → m.w ≡ some readers) × (m.n ≡ 0 → m.w ≢ some readers)
Counts m arriving =
    (m.n ≡ m.inside) × (0 < m.n → m.w ≡ some readers) × (m.n ≡ 0 → m.w ≢ some readers)
Counts m counted =
    (m.n ≡ m.inside + 1) × (0 < m.inside → m.w ≡ some readers) × (m.inside ≡ 0 → m.w ≢ some readers)
Counts m departing = (m.n ≡ m.inside + 1) × (m.w ≡ some readers) × Unit {0}
Counts m uncounted = (m.n ≡ m.inside) × (m.w ≡ some readers) × Unit {0}

step-Counts : {m m' : RpwMutex} → Counts m m.gate → Step m m' → Counts m' m'.gate
step-Counts i (lock a e) = grind arith
step-Counts i (unlock a e) = grind arith
step-Counts i (r_lock a e) = grind arith
step-Counts i (count a e) = grind arith
step-Counts i (first a b c e) = grind arith
step-Counts i (further a b e) = grind arith
step-Counts i (r_unlock a b e) = grind arith
step-Counts i (discount a e) = grind arith
step-Counts i (last a b e) = grind arith
step-Counts i (leave a b e) = grind arith

Reach-Counts : {m : RpwMutex} → Reach m → Counts m m.gate
Reach-Counts start = (omega arith, (λ h. absurd (omega arith)), λ _ e. cc)
Reach-Counts (next r s) = step-Counts (Reach-Counts r) s

exclusion_at : (m : RpwMutex) (g : Gate) → Counts m g → 0 < m.inside → m.w ≡ some readers
exclusion_at m open_ i h = ground (arith, i.1)
exclusion_at m arriving i h = ground (arith, i.1)
exclusion_at m counted i h = ground (arith, i.1)
exclusion_at m departing i h = i.1
exclusion_at m uncounted i h = i.1

leaving_at : (m : RpwMutex) (g : Gate) → Counts m g → (g ≢ uncounted) ⊎ (m.w ≡ some readers)
leaving_at m uncounted i = inr i.1
leaving_at m open_ i = inl (λ e. cc)
leaving_at m arriving i = inl (λ e. cc)
leaving_at m counted i = inl (λ e. cc)
leaving_at m departing i = inl (λ e. cc)

open_at : (m : RpwMutex) (g : Gate) → Counts m g → g ≡ open_ → m.n ≡ m.inside
open_at m open_ i e = i.0
open_at m uncounted i e = cc
open_at m arriving i e = cc
open_at m counted i e = cc
open_at m departing i e = cc

-- Whatever the goroutines did: no reader is inside, or `w` is locked for the readers, and so by no
-- writer; and a reader that has counted itself out is about to unlock a `w` that the readers hold.
pub Reach-exclusion :
    {m : RpwMutex}
    → Reach m
    → ((m.inside ≡ 0) ⊎ (m.w ≡ some readers)) × ((m.gate ≢ uncounted) ⊎ (m.w ≡ some readers))
Reach-exclusion {m} r = (inside, gate)
  where
    inside : (m.inside ≡ 0) ⊎ (m.w ≡ some readers)
    inside = elim (Bool-cases (m.inside == 0)) [
      | inl e ↦ inl (ground arith)
      | inr ne ↦ inr (exclusion_at m m.gate (Reach-Counts r) (ground arith))
    ]

    gate : (m.gate ≢ uncounted) ⊎ (m.w ≡ some readers)
    gate = leaving_at m m.gate (Reach-Counts r)

-- A reader that arrives while another is inside gets in by its own steps, whoever waits for `w`.
reader_preferred :
    {m : RpwMutex}
    → Reach m
    → m.gate ≡ open_
    → 0 < m.inside
    → Reach (record m { n = m.n + 1; inside = m.inside + 1 })
reader_preferred {m} r e h =
    let equal = open_at m m.gate (Reach-Counts r) e in
    next (next (next r (r_lock e refl)) (count refl refl))
      (further refl (omega (arith, equal)) (ground arith))
