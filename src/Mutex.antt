-- ===== src/Mutex.antt =====
-- gumble/rpwmutex.go: the reader-preferred mutex `volatile`, as the interleavings of any number of
-- goroutines. A step is one statement of Lock, Unlock, RLock or RUnlock. The mutex `r` admits one
-- goroutine at a time to the counter, and `gate` says where that one stands.
pub mod Exclusion
mod Tests
use gumble.Prelude.{ℕ, suc, ◌+◌, ◌-◌, ◌<◌, ◌≡◌, ◌≢◌, Option, none, some}

-- Who locked `w`: a writer, or the first of the readers.
pub data Owner : Type 0 where
  writer readers : Owner

-- In RLock and RUnlock, before and after the counter is changed.
pub data Gate : Type 0 where
  open_ arriving counted departing uncounted : Gate

-- `inside` counts the goroutines between the end of RLock and the start of RUnlock.
pub record RpwMutex : Type 0 where
  pub w : Option Owner
  pub gate : Gate
  pub n : ℕ
  pub inside : ℕ

pub data Step (m m' : RpwMutex) : Type 0 where
  -- Lock: `m.w.Lock()`.
  lock : m.w ≡ none → m' ≡ record m { w = some writer } → Step m m'
  -- Unlock, by the writer: `m.w.Unlock()`.
  unlock : m.w ≡ some writer → m' ≡ record m { w = none } → Step m m'
  -- RLock: `m.r.Lock()`, `m.n++`, and `m.w.Lock()` for the first reader, then `m.r.Unlock()`.
  r_lock : m.gate ≡ open_ → m' ≡ record m { gate = arriving } → Step m m'
  count : m.gate ≡ arriving → m' ≡ record m { gate = counted; n = m.n + 1 } → Step m m'
  first :
      m.gate ≡ counted
      → m.n ≡ 1
      → m.w ≡ none
      → m' ≡ record m { w = some readers; gate = open_; inside = m.inside + 1 }
      → Step m m'
  further :
      m.gate ≡ counted → m.n ≢ 1 → m' ≡ record m { gate = open_; inside = m.inside + 1 } → Step m m'
  -- RUnlock: `m.r.Lock()`, `m.n--`, and `m.w.Unlock()` by the last reader, then `m.r.Unlock()`.
  r_unlock :
      m.gate ≡ open_
      → 0 < m.inside
      → m' ≡ record m { gate = departing; inside = m.inside - 1 }
      → Step m m'
  discount : m.gate ≡ departing → m' ≡ record m { gate = uncounted; n = m.n - 1 } → Step m m'
  last : m.gate ≡ uncounted → m.n ≡ 0 → m' ≡ record m { w = none; gate = open_ } → Step m m'
  leave : m.gate ≡ uncounted → m.n ≢ 0 → m' ≡ record m { gate = open_ } → Step m m'

-- The zero value.
abbrev pub fresh : RpwMutex
fresh = record { w = none; gate = open_; n = 0; inside = 0 }

pub data Reach : RpwMutex → Type 0 where
  start : Reach fresh
  next : {m m' : RpwMutex} → Reach m → Step m m' → Reach m'
