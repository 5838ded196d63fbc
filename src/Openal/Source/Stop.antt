-- ===== src/Openal/Source/Stop.antt =====
-- Which goroutines StopSource can end.
use gumble.Prelude.{
  ℕ, suc, ◌+◌, ◌≤◌, ◌<◌, ◌≡◌, ◌∙◌, ◌⊎◌, refl, sym, inl, inr, true, false, Bool, Bool-cases, Option,
  none, some, Option-cases, none-some, List, [], ◌∷◌, ◌++◌, All, All-append, arith,
}
use mathlib.Core.List.{Mem, mem-cons_self, mem-cons_of_mem}
use mathlib.Core.Option.{some-injective}
use gumble.Openal.Source.{
  Routine, launched, running, Capture, start_source, stop_source, destroy_source, Step, start, stop,
  destroy, read_stop, finish, Reach, at_start, next, Steps, stay, go,
}

-- The goroutines that wait on a nil channel.
abbrev stuck_in : List Routine → ℕ
stuck_in [] = 0
stuck_in (launched ∷ rs) = stuck_in rs
stuck_in (running (some c) ∷ rs) = stuck_in rs
stuck_in (running none ∷ rs) = suc (stuck_in rs)

abbrev pub stuck : Capture → ℕ
stuck s = stuck_in s.routines

stuck-append : (xs ys : List Routine) → stuck_in (xs ++ ys) ≡ stuck_in xs + stuck_in ys
stuck-append [] ys = omega arith
stuck-append (launched ∷ xs) ys = stuck-append xs ys
stuck-append (running (some c) ∷ xs) ys = stuck-append xs ys
stuck-append (running none ∷ xs) ys = omega (arith, stuck-append xs ys)

-- What a call does where it gives no error.
start-some :
    (s s' : Capture)
    → start_source s ≡ some s'
    → (s.source_stop ≡ none)
      × (record s {
        capturing = true;
        source_stop = some s.next_channel;
        next_channel = s.next_channel + 1;
        routines = launched ∷ s.routines;
      }
          ≡ s')
unfolding start_source
start-some s s' e = elim (Option-cases s.source_stop) [
  | inl q ↦ (q, some-injective _ _ (rw (q, start_source) at e))
  | inr (c, q) ↦ absurd (none-some s' (rw (q, start_source) at e))
]

stop-some :
    (s s' : Capture)
    → stop_source s ≡ some s'
    → (c : ℕ) × (s.source_stop ≡ some c)
      × (record s { closed = c ∷ s.closed; source_stop = none; capturing = false } ≡ s')
unfolding stop_source
stop-some s s' e = elim (Option-cases s.source_stop) [
  | inl q ↦ absurd (none-some s' (rw (q, stop_source) at e))
  | inr (c, q) ↦ (c, q, some-injective _ _ (rw (q, stop_source) at e))
]

-- Destroy changes nothing that it does not stop.
destroy-cases :
    (P : Capture → Type 0) (s : Capture)
    → ((b : Bool) → P (record s { has_source = b }))
    → ((s' : Capture) (b : Bool) → stop_source s ≡ some s' → P (record s' { has_source = b }))
    → P (destroy_source s)
unfolding destroy_source
destroy-cases P s same stopped = elim (Bool-cases s.has_source) [
  | inl e ↦ elim (Option-cases (stop_source s)) [
    | inl q ↦ rw (e, destroy_source, q) (same false)
    | inr (s', q) ↦ rw (e, destroy_source, q) (stopped s' false q)
  ]
  | inr e ↦ rw (e, destroy_source) (same s.has_source)
]

-- No step ends a goroutine that waits on a nil channel.
Step-stuck : {s s' : Capture} → Step s s' → stuck s ≤ stuck s'
Step-stuck {s} {s'} (start _ e) = let (q, r) = start-some s s' e in rw (← r) (omega arith)
Step-stuck {s} {s'} (stop e) = let (c, q, r) = stop-some s s' e in rw (← r) (omega arith)
Step-stuck {s} {s'} (destroy e) = rw e (
    destroy-cases (λ d. stuck s ≤ stuck d) s (λ b. omega arith)
      λ d b q. let (c, _, r) = stop-some s d q in rw (← r) (omega arith))
Step-stuck {s} {s'} (read_stop before after e f) =
    rw
      (
        f,
        e,
        stuck-append before (launched ∷ after),
        stuck-append before (running s.source_stop ∷ after),
      )
      (ap_le before (s.source_stop) after)
  where
    ap_le :
        (before : List Routine) (c : Option ℕ) (after : List Routine)
        → stuck_in before + stuck_in after ≤ stuck_in before + stuck_in (running c ∷ after)
    ap_le before none after = omega arith
    ap_le before (some c) after = omega arith
Step-stuck {s} {s'} (finish before after c e m f) =
    rw (f, e, stuck-append before (running (some c) ∷ after), stuck-append before after)
      (omega arith)

Steps-stuck : {s s' : Capture} → Steps s s' → stuck s ≤ stuck s'
Steps-stuck stay = omega arith
Steps-stuck (go r t) = omega (arith, Steps-stuck r, Step-stuck t)

-- Where StopSource is called before the goroutine has read the field, a next step is that it reads nil;
-- from there on, whatever is called, there is a goroutine that never ends.
pub read_stop-leaks :
    (s : Capture) (before after : List Routine)
    → s.source_stop ≡ none
    → s.routines ≡ before ++ (launched ∷ after)
    → (d : Capture) × Step s d × ((d' : Capture) → Steps d d' → 0 < stuck d')
read_stop-leaks s before after e r =
    let d = record s { routines = before ++ (running s.source_stop ∷ after) } in
    let one : 0 < stuck d = rw (e, stuck-append before (running none ∷ after)) (omega arith) in
    (d, read_stop before after r refl, λ d' steps. omega (arith, one, Steps-stuck steps))

-- A goroutine that has read a channel has read the one that StopSource closes next, or has closed.
abbrev Holds : Option ℕ → List ℕ → Routine → Type 0
Holds field closed launched = Unit {0}
Holds field closed (running none) = Unit {0}
Holds field closed (running (some c)) = (field ≡ some c) ⊎ Mem c closed

abbrev AllHold : Capture → Type 0
AllHold s = All (Holds s.source_stop s.closed) s.routines

All-split : (P : Routine → Type 0) (xs ys : List Routine) → All P (xs ++ ys) → All P xs × All P ys
All-split P [] ys h = (tt, h)
All-split P (x ∷ xs) ys h = let (a, b) = All-split P xs ys h.1 in ((h.0, a), b)

All-change :
    (P Q : Routine → Type 0) (xs : List Routine) → ((r : Routine) → P r → Q r) → All P xs → All Q xs
All-change P Q [] f h = tt
All-change P Q (x ∷ xs) f h = (f x h.0, All-change P Q xs f h.1)

-- The field is nil, and gets a channel.
opened : (c : ℕ) (closed : List ℕ) (r : Routine) → Holds none closed r → Holds (some c) closed r
opened c closed launched h = tt
opened c closed (running none) h = tt
opened c closed (running (some x)) (inl e) = absurd (none-some x e)
opened c closed (running (some x)) (inr m) = inr m

-- Its channel is closed.
shut : (c : ℕ) (closed : List ℕ) (r : Routine) → Holds (some c) closed r → Holds none (c ∷ closed) r
shut c closed launched h = tt
shut c closed (running none) h = tt
shut c closed (running (some x)) (inl e) = inr (rw (some-injective _ _ e) mem-cons_self)
shut c closed (running (some x)) (inr m) = inr (mem-cons_of_mem c m)

now_reads : (field : Option ℕ) (closed : List ℕ) → Holds field closed (running field)
now_reads none closed = tt
now_reads (some c) closed = inl refl

stopped-AllHold : (s d : Capture) → stop_source s ≡ some d → AllHold s → AllHold d
stopped-AllHold s d e h =
    let (c, q, r) = stop-some s d e in
    rw (← r) (All-change _ _ s.routines (shut c s.closed) (rw q at h))

Step-AllHold : {s s' : Capture} → Step s s' → AllHold s → AllHold s'
Step-AllHold {s} {s'} (start _ e) h =
    let (q, r) = start-some s s' e in
    rw (← r) (tt, All-change _ _ s.routines (opened s.next_channel s.closed) (rw q at h))
Step-AllHold {s} {s'} (stop e) h = stopped-AllHold s s' e h
Step-AllHold {s} {s'} (destroy e) h =
    rw e (destroy-cases AllHold s (λ b. h) λ d b q. stopped-AllHold s d q h)
Step-AllHold {s} {s'} (read_stop before after e f) h =
    let (front, back) =
      All-split (Holds s.source_stop s.closed) before (launched ∷ after) (rw e at h) in
    rw f (All-append _ before _ front (now_reads s.source_stop s.closed, back.1))
Step-AllHold {s} {s'} (finish before after c e m f) h =
    let (front, back) =
      All-split (Holds s.source_stop s.closed) before (running (some c) ∷ after) (rw e at h) in
    rw f (All-append _ before _ front back.1)

Reach-AllHold : {s : Capture} → Reach s → AllHold s
Reach-AllHold at_start = tt
Reach-AllHold (next r t) = Step-AllHold t (Reach-AllHold r)

-- In every interleaving of the calls and the goroutines: where the source is stopped, each goroutine
-- that has read a channel finds it closed, and so can end.
pub Reach-can_finish :
    (s : Capture) (before after : List Routine) (c : ℕ)
    → Reach s
    → s.source_stop ≡ none
    → s.routines ≡ before ++ (running (some c) ∷ after)
    → Step s (record s { routines = before ++ after })
Reach-can_finish s before after c r e f =
    let (_, back) =
      All-split (Holds s.source_stop s.closed) before (running (some c) ∷ after)
        (rw f at (Reach-AllHold r)) in
    elim back.0 [
      | inl q ↦ absurd (none-some c (sym e ∙ q))
      | inr m ↦ finish before after c f m refl
    ]
