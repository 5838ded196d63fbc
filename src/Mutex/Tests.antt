-- ===== src/Mutex/Tests.antt =====
-- A reader inside.
use gumble.Prelude.{◌≡◌, ◌≢◌, refl, ◌⊎◌, some}
use gumble.Mutex.{RpwMutex, Reach, start, next, r_lock, count, first, uncounted, open_, readers}
use gumble.Mutex.Exclusion.{Reach-exclusion}

-- After one RLock.
abbrev reading : RpwMutex
reading = record { w = some readers; gate = open_; n = 1; inside = 1 }

reading-Reach : Reach reading
reading-Reach =
    next (next (next start (r_lock refl refl)) (count refl refl)) (first refl refl refl refl)

Reach-exclusion_example :
    ((reading.inside ≡ 0) ⊎ (reading.w ≡ some readers))
    × ((reading.gate ≢ uncounted) ⊎ (reading.w ≡ some readers))
Reach-exclusion_example = Reach-exclusion reading-Reach
