-- ===== src/Openal/Tests.antt =====
-- A device that plays what it is given, and a goroutine with two buffers.
use gumble.Prelude.{
  ℕ, zero, suc, ◌+◌, ◌-◌, ◌≤◌, ◌<◌, ◌≡◌, refl, ap, Bool, true, none, some, List, [], ◌∷◌, ◌++◌, All,
  length, replicate, take, drop, arith, leb, if◌then◌else◌,
}
use mathlib.Core.List.Perm
use gumble.Prelude.Int.{ℤ, pos, negsuc}
use gumble.Map.{store}
use gumble.Conn.{Bytes}
use gumble.Openal.{SourceOps, SourceLaws, raw_size, Player, play_packet}
use gumble.Openal.Samples.{IsInt16}
use gumble.Openal.Buffers.{HasBuffers, Played, play_packet-Played}
use gumble.Openal.Panic.{play_packet_panics}
use gumble.Openal.Source.{
  launched, running, Capture, fresh, start_source, stop_source, Step, start, stop, read_stop, Reach,
  at_start, next, Steps,
}
use gumble.Openal.Source.Stop.{stuck, read_stop-leaks, Reach-can_finish}

record Device : Type 0 where
  queue : List ℕ
  stored : ℕ → Bytes
  done : ℕ
  playing : Bool

abbrev processed : Device → ℕ
processed s = if leb s.done (length s.queue) then s.done else length s.queue

abbrev ops : SourceOps Device
ops = record {
  buffers_processed = processed;
  unqueue_buffers = λ n s. (take n s.queue, record s { queue = drop n s.queue; done = s.done - n });
  set_data = λ b d s. record s { stored = store s.stored b d };
  queue_buffer = λ b s. record s { queue = s.queue ++ (b ∷ []) };
  is_playing = λ s. s.playing;
  play = λ s. record s { playing = true };
  elapse = λ t s. record s { done = s.done + t };
}

processed_bound : (s : Device) → processed s ≤ length s.queue
processed_bound s = ground arith

stored_back : (h : ℕ → Bytes) (b : ℕ) (d : Bytes) → store h b d b ≡ d
stored_back h b d = ground arith

abbrev ops_laws : SourceLaws ops
ops_laws = record {
  queued = λ s. s.queue;
  data_of = λ s. s.stored;
  processed_bound = processed_bound;
  unqueue_front = λ n s h. (refl, refl);
  set_data_queued = λ b d s. refl;
  set_data_stored = λ b d s. stored_back s.stored b d;
  queue_back = λ b s. refl;
  queue_stored = λ b s. refl;
  play_queued = λ s. refl;
  play_stored = λ s. refl;
  elapse_queued = λ t s. refl;
}

length-replicate {ℓ} : {A : Type ℓ} (a : A) (n : ℕ) → length (replicate n a) ≡ n
length-replicate a zero = refl
length-replicate a (suc n) = ap suc (length-replicate a n)

abbrev player : Player Device
player = record {
  source = record { queue = 1 ∷ []; stored = λ b. []; done = 1; playing = true };
  empty_bufs = 0 ∷ [];
  raw = replicate raw_size 0;
}

player-HasBuffers : HasBuffers ops ops_laws (0 ∷ 1 ∷ []) player
player-HasBuffers = record { all = Perm.refl _; raw_length = length-replicate {A = ℕ} 0 raw_size }

abbrev two_samples : List ℤ
two_samples = pos 7 ∷ negsuc 3 ∷ []

two_samples-IsInt16 : All IsInt16 two_samples
two_samples-IsInt16 = (omega arith, (omega arith, tt))

play_packet-Played_example :
    (p' : Player Device) × (play_packet ops two_samples player ≡ some p')
    × Played ops ops_laws two_samples player p'
    × HasBuffers ops ops_laws (0 ∷ 1 ∷ []) p'
play_packet-Played_example =
    play_packet-Played ops ops_laws (0 ∷ 1 ∷ []) two_samples player player-HasBuffers (omega arith)
      two_samples-IsInt16

play_packet_panics_example : play_packet ops (replicate 2881 (pos 0)) player ≡ none
play_packet_panics_example =
    play_packet_panics ops (replicate 2881 (pos 0)) player (length-replicate {A = ℕ} 0 raw_size)
      (omega (arith, length-replicate (pos 0) 2881)) (omega (arith, length-replicate (pos 0) 2881))

-- Started and stopped before the goroutine has run.
abbrev early : Capture
early = record fresh { next_channel = 1; closed = 0 ∷ []; routines = launched ∷ [] }

read_stop-leaks_example :
    (d : Capture) × Step early d × ((d' : Capture) → Steps d d' → 0 < stuck d')
read_stop-leaks_example = read_stop-leaks early [] [] refl refl

-- Started, read, and stopped.
abbrev late : Capture
late = record early { routines = running (some 0) ∷ [] }

late-Reach : Reach late
unfolding start_source stop_source
late-Reach = next (next (next at_start (start refl refl)) (read_stop [] [] refl refl)) (stop refl)

Reach-can_finish_example : Step late (record late { routines = [] })
Reach-can_finish_example = Reach-can_finish late [] [] 0 late-Reach refl refl
