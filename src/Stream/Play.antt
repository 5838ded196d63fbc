-- ===== src/Stream/Play.antt =====
-- Play, Pause and Stop of gumbleffmpeg/stream.go as functions, with what the operating system gives, the
-- sources of gumbleffmpeg/source.go, and the samples that `process` sends.
pub mod Steps
use gumble.Prelude.{
  ℕ, ◌+◌, ◌*◌, Bool, true, false, Option, none, some, List, [], ◌∷◌, ◌++◌, map, if◌then◌else◌,
}
use gumble.Prelude.Int.{ℤ}
use gumble.Conn.{Bytes, read_full}
use gumble.Client.{Text}
use gumble.Openal.{samples_of}
use gumble.Stream.{State, initial, playing, paused, stopped, Stream, cleanup_in, kill}

pub data Source : Type 0 where
  source_file : Text → Source
  source_reader : Source
  source_exec : Text → List Text → Source

-- "-i" and "-".
abbrev input : Text
input = b'-' ∷ b'i' ∷ []

abbrev dash : Text
dash = b'-' ∷ []

unfoldable pub arguments : Source → List Text
arguments (source_file name) = input ∷ name ∷ []
arguments source_reader = input ∷ dash ∷ []
arguments (source_exec name arg) = input ∷ dash ∷ []

-- "-ss" with the offset, if there is one, the source's arguments, and the format that is asked for:
-- "-ac", "1", "-ar", "48000", "-f", "s16le" and "-". `offset` is what FormatFloat gives.
abbrev offset_arguments : Option Text → List Text
offset_arguments none = []
offset_arguments (some offset) = (b'-' ∷ b's' ∷ b's' ∷ []) ∷ offset ∷ []

unfoldable pub play_arguments : Option Text → Source → List Text
unfolding arguments
play_arguments offset src =
    offset_arguments offset
    ++ (arguments src
        ++ ((b'-' ∷ b'a' ∷ b'c' ∷ [])
            ∷ (b'1' ∷ [])
            ∷ (b'-' ∷ b'a' ∷ b'r' ∷ [])
            ∷ (b'4' ∷ b'8' ∷ b'0' ∷ b'0' ∷ b'0' ∷ [])
            ∷ (b'-' ∷ b'f' ∷ [])
            ∷ (b's' ∷ b'1' ∷ b'6' ∷ b'l' ∷ b'e' ∷ [])
            ∷ dash
            ∷ []))

-- What is given by the environment: whether the pipe of the command, the source's own command and its
-- pipe, and the command itself are made and started.
pub record Starts : Type 0 where
  pub pipe : Bool
  pub source_pipe : Bool
  pub source_command : Bool
  pub command : Bool

-- The method `start`; only that of sourceExec can fail.
unfoldable pub source_starts : Source → Starts → Bool
source_starts (source_exec name arg) x = if x.source_pipe then x.source_command else false
source_starts _ x = true

pub data StreamError : Type 0 where
  already_playing has_stopped nil_source not_playing not_playing_nor_paused : StreamError
  pipe_error source_error command_error : StreamError

-- A call gives an error, or none; `none` is a panic.
pub data Called : Type 0 where
  refused : StreamError → Called
  done : Stream → Called
  panics : Called

-- The rest of Play for a fresh stream. Where the command does not start, the source's `done` is called.
unfoldable pub play_source : Option Source → Starts → Stream → Called
unfolding source_starts
play_source none x s = refused nil_source
play_source (some src) x s =
    if x.pipe
    then (if source_starts src x
        then (if x.command
            then done (record s {
              state = playing;
              has_cmd = true;
              wg = s.wg + 1;
              processes = s.processes + 1;
            })
            else refused command_error)
        else refused source_error)
    else refused pipe_error

unfoldable pub play : Option Source → Starts → Stream → Called
unfolding play_source
play src x s = elim s.state [
  | paused ↦ done (record s { state = playing; processes = s.processes + 1 })
  | playing ↦ refused already_playing
  | stopped ↦ refused has_stopped
  | initial ↦ play_source src x s
]

-- Pause, up to its send.
unfoldable pub pause_call : Stream → Called
pause_call s = elim s.state [
  | playing ↦ done (record s { state = paused; pausing = s.pausing + 1 })
  | _ ↦ refused not_playing
]

abbrev pub cleaned_up : Option Stream → Called
cleaned_up none = panics
cleaned_up (some d) = done d

-- Stop, up to its Wait.
unfoldable pub stop_call : Stream → Called
unfolding cleanup_in
stop_call s = elim s.state [
  | stopped ↦ refused not_playing_nor_paused
  | initial ↦ refused not_playing_nor_paused
  | playing ↦ cleaned_up (cleanup_in playing s)
  | paused ↦ cleaned_up (cleanup_in paused s)
]

-- What `process` sends at a tick, and the rest of the pipe, or nothing where the pipe has no full frame;
-- `scale` is `int16(s.Volume * float32(v))`.
unfoldable pub frame_of : (ℤ → ℤ) → ℕ → Bytes → Option (List ℤ × Bytes)
unfolding samples_of read_full
frame_of scale frame_size pipe = elim (read_full (frame_size * 2) pipe) [
  | none ↦ none
  | some (buffer, rest) ↦ some (map scale (samples_of buffer), rest)
]
