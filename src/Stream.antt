-- ===== src/Stream.antt =====
-- gumbleffmpeg/stream.go: the states of a stream, as the interleavings of the calls of its methods and
-- of its goroutines `process`. What is done while `l` is held is one step. The ffmpeg process, the
-- samples and the times are left out.
pub mod Cleanup
pub mod Play
mod Tests
use gumble.Prelude.{ℕ, zero, suc, ◌+◌, ◌-◌, ◌<◌, ◌≡◌, Bool, true, false, Option, none, some}

pub data State : Type 0 where
  initial playing paused stopped : State

pub record Stream : Type 0 where
  pub state : State
  -- `cmd` is not nil.
  pub has_cmd : Bool
  -- The counter of `wg`.
  pub wg : ℕ
  -- The goroutines that run `process`.
  pub processes : ℕ
  -- The calls of Pause that wait to send on the channel `pause`.
  pub pausing : ℕ

-- New.
abbrev pub fresh : Stream
fresh = record { state = initial; has_cmd = false; wg = 0; processes = 0; pausing = 0 }

-- `s.cmd.Process.Kill()` and what follows it: a nil `cmd`, or a counter below 0, is a panic, `none`.
-- The channel has no buffer, so its length is 0.
unfoldable pub kill : Bool → ℕ → Stream → Option Stream
kill false wg s = none
kill true zero s = none
kill true (suc n) s = some (record s { state = stopped; wg = n })

unfoldable pub cleanup_in : State → Stream → Option Stream
unfolding kill
cleanup_in stopped s = some s
cleanup_in st s = kill s.has_cmd s.wg s

abbrev pub cleanup : Stream → Option Stream
cleanup s = cleanup_in s.state s

pub data Step (s s' : Stream) : Type 0 where
  -- Play of a fresh stream, where the command starts.
  play_fresh :
      s.state ≡ initial
      → s'
        ≡ record s { state = playing; has_cmd = true; wg = s.wg + 1; processes = s.processes + 1 }
      → Step s s'
  -- Play of a paused stream.
  play_paused :
      s.state ≡ paused → s' ≡ record s { state = playing; processes = s.processes + 1 } → Step s s'
  -- Pause, up to its send.
  pause : s.state ≡ playing → s' ≡ record s { state = paused; pausing = s.pausing + 1 } → Step s s'
  -- A process receives from `pause`, which ends it and the call.
  hand_over :
      0 < s.pausing
      → 0 < s.processes
      → s' ≡ record s { pausing = s.pausing - 1; processes = s.processes - 1 }
      → Step s s'
  -- A process cannot read, and ends with cleanup.
  read_fails :
      {d : Stream}
      → 0 < s.processes
      → cleanup s ≡ some d
      → s' ≡ record d { processes = d.processes - 1 }
      → Step s s'
  -- Stop.
  stop_playing : s.state ≡ playing → cleanup s ≡ some s' → Step s s'
  stop_paused : s.state ≡ paused → cleanup s ≡ some s' → Step s s'

pub data Reach : Stream → Type 0 where
  start : Reach fresh
  next : {s s' : Stream} → Reach s → Step s s' → Reach s'

-- Any number of steps.
pub data Steps (s : Stream) : Stream → Type 0 where
  stay : Steps s s
  go : {s' s'' : Stream} → Steps s s' → Step s' s'' → Steps s s''
