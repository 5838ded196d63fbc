-- ===== src/Stream/Tests.antt =====
-- A stream that is paused, and stopped before its process takes the pause.
use gumble.Prelude.{◌≡◌, refl, true, some, arith}
use gumble.Stream.{
  Steps, Stream, paused, stopped, kill, cleanup_in, cleanup, Reach, start, next, play_fresh, pause,
  stop_paused, read_fails,
}
use gumble.Stream.Cleanup.{IsCleaned, Reach-IsCleaned, Steps-stuck}

abbrev pausing : Stream
pausing = record { state = paused; has_cmd = true; wg = 1; processes = 1; pausing = 1 }

pausing-Reach : Reach pausing
pausing-Reach = next (next start (play_fresh refl refl)) (pause refl refl)

Reach-IsCleaned_example : (d : Stream) × (cleanup pausing ≡ some d) × IsCleaned pausing d
Reach-IsCleaned_example = Reach-IsCleaned pausing-Reach (λ e. cc)

-- The process cannot read from the command that was killed, and ends.
abbrev stuck : Stream
stuck = record { state = stopped; has_cmd = true; wg = 0; processes = 0; pausing = 1 }

stopped-Reach : Reach (record stuck { processes = 1 })
unfolding cleanup_in kill
stopped-Reach = next pausing-Reach (stop_paused refl refl)

stuck-Reach : Reach stuck
unfolding cleanup_in
stuck-Reach =
    next stopped-Reach (read_fails {d = record stuck { processes = 1 }} (omega arith) refl refl)

-- The call of Pause waits for ever.
pause_waits : Reach stuck × ((s : Stream) → Steps stuck s → s ≡ stuck)
pause_waits = (stuck-Reach, λ s r. Steps-stuck refl refl r)
