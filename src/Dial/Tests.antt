-- ===== src/Dial/Tests.antt =====
-- A deadline at 90 and a timeout of 50 from the time 10 on, with a TLS dial until 30.
use gumble.Prelude.{◌≡◌, refl, true, none, some, ltb, ◌+◌, ◌-◌, if◌then◌else◌, arith}
use gumble.Dial.{dial_with_dialer, received, synchronization_timeout}
use gumble.Dial.Limit.{dial_with_dialer-late}

-- The limit is 60, and an answer at 70 is still in time.
dial_with_dialer-late_example :
    (dial_with_dialer true 10 (some 30) (some 90) 50 (some (70, none))
      ≡ (if ltb 70 (60 + (30 - 10)) then received none else synchronization_timeout))
    × (dial_with_dialer true 10 (some 30) (some 90) 50 none ≡ synchronization_timeout)
dial_with_dialer-late_example =
    dial_with_dialer-late true 10 30 (some 90) 50 60 70 none refl (omega arith) (omega arith)
      (λ e. omega arith)
