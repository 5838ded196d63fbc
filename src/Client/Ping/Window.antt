-- ===== src/Client/Ping/Window.antt =====
-- The times that handlePing keeps are those of the last twelve pings.
use gumble.Prelude.{
  ℕ, zero, suc, ◌+◌, ◌-◌, ◌^◌, ◌≤◌, ◌<◌, ◌≡◌, ◌∙◌, refl, sym, ap, Option, some, List, [], ◌∷◌, ◌++◌,
  false, leb, le→leb, map, length, take, drop, arith, length-append, Bool-cases, inl, inr, leb→le,
}
use gumble.Client.{PingStats, Client, Bytes}
use gumble.Client.Monad.{◌>>=◌, ◌>>◌, modify, client, panic, returned, panicked, unmarshalled-some}
use gumble.Client.Ping.{
  FloatOps, shift, set_at, sum_of, average_of, variance_of, count, make_room, note_at, note_ping,
  Ping, note_timestamp, handle_ping,
}

take_all : (n : ℕ) (xs : List ℕ) → length xs ≤ n → take n xs ≡ xs
take_all zero [] h = refl
take_all zero (x ∷ xs) h = elim h [ ]
take_all (suc n) [] h = refl
take_all (suc n) (x ∷ xs) h = ap (◌∷◌ x) (take_all n xs (omega arith))

drop-suc : (k : ℕ) (xs : List ℕ) → drop 1 (drop k xs) ≡ drop (suc k) xs
drop-suc zero xs = refl
drop-suc (suc k) [] = refl
drop-suc (suc k) (x ∷ xs) = drop-suc k xs

drop-append_le : (k : ℕ) (xs ys : List ℕ) → k ≤ length xs → drop k (xs ++ ys) ≡ drop k xs ++ ys
drop-append_le zero xs ys h = refl
drop-append_le (suc k) [] ys h = elim h [ ]
drop-append_le (suc k) (x ∷ xs) ys h = drop-append_le k xs ys (omega arith)

length-set_at : (n t : ℕ) (xs : List ℕ) → length (set_at n t xs) ≡ length xs
unfolding set_at
length-set_at n t [] = refl
length-set_at zero t (x ∷ xs) = refl
length-set_at (suc n) t (x ∷ xs) = ap suc (length-set_at n t xs)

take-set_at :
    (n t : ℕ) (xs : List ℕ) → n < length xs → take (suc n) (set_at n t xs) ≡ take n xs ++ (t ∷ [])
unfolding set_at
take-set_at n t [] h = elim h [ ]
take-set_at zero t (x ∷ xs) h = refl
take-set_at (suc n) t (x ∷ xs) h = ap (◌∷◌ x) (take-set_at n t xs (omega arith))

-- Shifted by one place, with the new time in the last.
set_at-shift :
    (m t x : ℕ) (xs : List ℕ) → length xs ≡ m → set_at m t (shift (x ∷ xs)) ≡ xs ++ (t ∷ [])
unfolding set_at shift
set_at-shift zero t x [] h = refl
set_at-shift zero t x (y ∷ xs) h = absurd (omega arith)
set_at-shift (suc m) t x [] h = absurd (omega arith)
set_at-shift (suc m) t x (y ∷ xs) h = ap (◌∷◌ y) (set_at-shift m t y xs (omega arith))

-- The mean of some times and the mean of the squares of their distances from it, where the operations
-- are those of float32, from the left.
abbrev total : FloatOps → ℕ → List ℕ → ℕ
total ops sum [] = sum
total ops sum (x ∷ xs) = total ops (ops.add sum x) xs

abbrev pub mean : FloatOps → List ℕ → ℕ
mean ops xs = ops.divide (total ops 0 xs) (ops.of_int (length xs))

abbrev squares : FloatOps → ℕ → List ℕ → List ℕ
squares ops avg xs = map (λ x. ops.multiply (ops.subtract avg x) (ops.subtract avg x)) xs

abbrev pub mean_square : FloatOps → ℕ → List ℕ → ℕ
mean_square ops avg xs = ops.divide (total ops 0 (squares ops avg xs)) (ops.of_int (length xs))

sum_of-total :
    (ops : FloatOps) (f : ℕ → ℕ) (sum : ℕ) (xs : List ℕ)
    → sum_of ops f sum xs ≡ total ops sum (map f xs)
unfolding sum_of
sum_of-total ops f sum [] = refl
sum_of-total ops f sum (x ∷ xs) = sum_of-total ops f (ops.add sum (f x)) xs

average_of-mean : (ops : FloatOps) (xs : List ℕ) → average_of ops xs ≡ mean ops xs
unfolding average_of
average_of-mean ops xs =
    ap (λ (n : ℕ). ops.divide n (ops.of_int (length xs)))
      (sum_of-total ops (λ x. x) 0 xs ∙ ap (total ops 0) (map_same xs))
  where
    map_same : (ys : List ℕ) → map (λ (x : ℕ). x) ys ≡ ys
    map_same [] = refl
    map_same (y ∷ ys) = ap (◌∷◌ y) (map_same ys)

variance_of-mean_square :
    (ops : FloatOps) (avg : ℕ) (xs : List ℕ) → variance_of ops avg xs ≡ mean_square ops avg xs
unfolding variance_of
variance_of-mean_square ops avg xs =
    ap (λ (n : ℕ). ops.divide n (ops.of_int (length xs))) (sum_of-total ops _ 0 xs)

-- The last twelve elements.
abbrev pub window : List ℕ → List ℕ
window ts = drop (length ts - 12) ts

-- The statistics after the pings `ts`.
pub record IsWindow (ts : List ℕ) (s : PingStats) : Type 0 where
  pub received : s.received ≡ length ts
  pub size : length s.times ≡ 12
  pub seen : take (length ts) s.times ≡ window ts

-- One more element.
window-snoc :
    (t : ℕ) (ts xs : List ℕ) (k : ℕ)
    → drop k ts ≡ xs
    → k ≤ length ts
    → k ≡ length ts + 1 - 12
    → xs ++ (t ∷ []) ≡ window (ts ++ (t ∷ []))
window-snoc t ts xs k e h q =
    ap (λ ys. ys ++ (t ∷ [])) (sym e)
    ∙ sym (drop-append_le k ts (t ∷ []) h)
    ∙ ap (λ (n : ℕ). drop n (ts ++ (t ∷ []))) (omega (arith, q, length-append ts (t ∷ [])))

-- What make_room and set_at leave: an array of twelve, and the part of it that is read.
abbrev Noted : ℕ → List ℕ → List ℕ → Type 0
Noted t ts xs =
    (index : ℕ) × (times : List ℕ) × (make_room (length ts) xs ≡ (times, index))
    × (length (set_at index t times) ≡ 12)
    × (take (suc index) (set_at index t times) ≡ window (ts ++ (t ∷ [])))
    × (take (length (ts ++ (t ∷ []))) (set_at index t times) ≡ window (ts ++ (t ∷ [])))

Noted-few :
    (t : ℕ) (ts xs : List ℕ)
    → length xs ≡ 12
    → take (length ts) xs ≡ window ts
    → leb (length xs) (length ts) ≡ false
    → length ts < 12
    → Noted t ts xs
Noted-few t ts xs size seen e few =
    let whole : take (suc (length ts)) (set_at (length ts) t xs) ≡ window (ts ++ (t ∷ [])) =
      take-set_at (length ts) t xs (omega (arith, size))
      ∙ window-snoc t ts (take (length ts) xs) (length ts - 12) (sym seen) (omega arith)
          (omega (arith, few)) in
    let one : length (ts ++ (t ∷ [])) ≡ suc (length ts) =
      omega (arith, length-append ts (t ∷ [])) in
    (
      length ts,
      xs,
      rw e,
      length-set_at (length ts) t xs ∙ size,
      whole,
      ap (λ (n : ℕ). take n (set_at (length ts) t xs)) one ∙ whole,
    )

Noted-full :
    (t : ℕ) (ts xs : List ℕ)
    → length xs ≡ 12
    → take (length ts) xs ≡ window ts
    → length xs ≤ length ts
    → Noted t ts xs
Noted-full t ts [] size seen h = absurd (omega arith)
Noted-full t ts (x ∷ xs) size seen h =
    let m : ℕ = suc (length xs) - 1 in
    let moved : set_at m t (shift (x ∷ xs)) ≡ xs ++ (t ∷ []) =
      set_at-shift m t x xs (omega arith) in
    let old : window ts ≡ x ∷ xs = sym seen ∙ take_all (length ts) (x ∷ xs) h in
    let new : xs ++ (t ∷ []) ≡ window (ts ++ (t ∷ [])) =
      window-snoc t ts xs (suc (length ts - 12))
        (sym (drop-suc (length ts - 12) ts) ∙ ap (drop 1) old) (omega (arith, size, h))
        (omega (arith, size, h)) in
    let twelve : length (xs ++ (t ∷ [])) ≡ 12 = omega (arith, length-append xs (t ∷ []), size) in
    let read : (n : ℕ) → 12 ≤ n → take n (set_at m t (shift (x ∷ xs))) ≡ window (ts ++ (t ∷ [])) =
      λ n k. ap (take n) moved ∙ take_all n (xs ++ (t ∷ [])) (omega (arith, twelve, k)) ∙ new in
    (
      m,
      shift (x ∷ xs),
      rw (le→leb _ _ h),
      ap length moved ∙ twelve,
      read (suc m) (omega (arith, size)),
      read (length (ts ++ (t ∷ []))) (omega (arith, length-append ts (t ∷ []), size, h)),
    )

noted : (t : ℕ) (ts xs : List ℕ) → length xs ≡ 12 → take (length ts) xs ≡ window ts → Noted t ts xs
noted t ts xs size seen = elim (Bool-cases (leb (length xs) (length ts))) [
  | inl e ↦ Noted-full t ts xs size seen (leb→le _ _ e)
  | inr e ↦ Noted-few t ts xs size seen e (ground (arith, size))
]

note_ping-IsWindow :
    (ops : FloatOps) (t : ℕ) (ts : List ℕ) (s : PingStats)
    → IsWindow ts s
    → length ts + 1 < 2 ^ 32
    → (s' : PingStats) × (note_ping ops t (count s).received (count s) ≡ some s')
      × IsWindow (ts ++ (t ∷ [])) s'
      × (s'.average ≡ average_of ops (window (ts ++ (t ∷ []))))
      × (s'.variance ≡ variance_of ops s'.average (window (ts ++ (t ∷ []))))
unfolding note_ping
note_ping-IsWindow ops t ts s w small =
    let (index, times, room, size, read, kept) = noted t ts s.times w.size w.seen in
    let counted : (count s).received ≡ suc (length ts) = omega (arith, w.received, small) in
    (
      note_at ops t (count s) (times, index),
      ap (λ (n : ℕ). note_ping ops t n (count s)) counted
          ∙ ap (λ r. some (note_at ops t (count s) r)) room,
      record {
        received = omega (arith, counted, length-append ts (t ∷ []));
        size = size;
        seen = kept;
      },
      ap (average_of ops) read,
      ap (variance_of ops (average_of ops (take (suc index) (set_at index t times)))) read,
    )

-- If the client keeps the times of the last twelve of the pings `ts`, fewer than 2^32 - 1 of them, then
-- after handlePing of a packet with a timestamp it keeps those of the last twelve with the new one, the
-- average is their mean, the variance is the mean of the squares of their distances from it, and nothing
-- else has changed.
pub handle_ping-IsWindow :
    (ops : FloatOps) (millis : ℕ → ℕ) (unmarshal : Bytes → Option Ping) (buffer : Bytes)
    (c : Client) (p : Ping) (t : ℕ) (ts : List ℕ)
    → unmarshal buffer ≡ some p
    → p.timestamp ≡ some t
    → IsWindow ts c.ping
    → length ts + 1 < 2 ^ 32
    → (s : PingStats) × (handle_ping ops millis unmarshal buffer c
        ≡ returned tt (record c { ping = s }))
      × IsWindow (ts ++ (millis t ∷ [])) s
      × (s.average ≡ mean ops (window (ts ++ (millis t ∷ []))))
      × (s.variance ≡ mean_square ops s.average (window (ts ++ (millis t ∷ []))))
unfolding handle_ping ◌>>=◌ ◌>>◌ modify
handle_ping-IsWindow ops millis unmarshal buffer c p t ts e et w small =
    let (s, note, kept, avg, var) = note_ping-IsWindow ops (millis t) ts c.ping w small in
    (
      s,
      unmarshalled-some unmarshal buffer _ c e ∙ timed p.timestamp et note,
      kept,
      avg ∙ average_of-mean ops _,
      var ∙ variance_of-mean_square ops s.average _,
    )
  where
    timed :
        (o : Option ℕ) {s : PingStats}
        → o ≡ some t
        → note_ping ops (millis t) (count c.ping).received (count c.ping) ≡ some s
        → note_timestamp ops millis o (record c { ping = count c.ping })
          ≡ returned tt (record c { ping = s })
    timed o e n = unfold ◌>>=◌ modify note_timestamp client in rw (e, note_timestamp, ◌>>=◌, n)

-- The packet that brings the number of packets to 2^32 panics: the index is -1.
handle_ping_panics :
    (ops : FloatOps) (millis : ℕ → ℕ) (unmarshal : Bytes → Option Ping) (buffer : Bytes)
    (c : Client) (p : Ping) (t : ℕ)
    → unmarshal buffer ≡ some p
    → p.timestamp ≡ some t
    → c.ping.received ≡ 2 ^ 32 - 1
    → handle_ping ops millis unmarshal buffer c ≡ panicked
unfolding handle_ping ◌>>=◌ ◌>>◌ modify
handle_ping_panics ops millis unmarshal buffer c p t e et full =
    unmarshalled-some unmarshal buffer _ c e ∙ timed p.timestamp et (omega (arith, full))
  where
    timed :
        (o : Option ℕ)
        → o ≡ some t
        → (count c.ping).received ≡ 0
        → note_timestamp ops millis o (record c { ping = count c.ping }) ≡ panicked
    timed o e n =
        unfold ◌>>=◌ note_timestamp client note_ping panic in
        rw (e, note_timestamp, ◌>>=◌, n, note_ping)
