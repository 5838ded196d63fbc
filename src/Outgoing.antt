-- ===== src/Outgoing.antt =====
-- AudioOutgoing of gumble/client.go and writeAudio of gumble/audio.go: the buffers that the
-- application sends on the channel before it closes it, and the packets that go out.
pub mod Numbered
mod Tests
use gumble.Prelude.{
  ℕ, suc, ◌+◌, ◌-◌, ◌%◌, ◌^◌, Bool, true, false, Option, none, some, List, [], ◌∷◌, if◌then◌else◌,
  length,
}
use gumble.Prelude.Int.{ℤ, pos}
use gumble.Conn.{Bytes, Written, write_audio}

-- `none` is a nil slice.
abbrev pub AudioBuffer : Type 0
AudioBuffer = Option (List ℤ)

-- A call of writeAudio.
pub record Call : Type 0 where
  pub buffer : AudioBuffer
  pub sequence : ℕ
  pub final : Bool

-- `if previous != nil { previous.writeAudio(c, seq, true) }`
unfoldable pub last_call : AudioBuffer → ℕ → List Call
last_call none seq = []
last_call (some b) seq = record { buffer = some b; sequence = seq; final = true } ∷ []

-- `for p := range ch { … }` and what follows it.
unfoldable pub calls_from : AudioBuffer → ℕ → List AudioBuffer → List Call
unfolding last_call
calls_from previous seq [] = last_call previous seq
calls_from previous seq (p ∷ ps) =
    record { buffer = previous; sequence = seq; final = false }
    ∷ calls_from p ((seq + 1) % (2 ^ 31 - 1)) ps

-- The goroutine of AudioOutgoing; a receive from a closed channel gives nil.
unfoldable pub audio_outgoing : List AudioBuffer → List Call
unfolding calls_from
audio_outgoing [] = calls_from none 0 []
audio_outgoing (p ∷ ps) = calls_from p 0 ps

-- The codec's encoder: Encode with the state after it, and Reset. The state is code of the codec.
pub record Encoder (S : Type 0) : Type 0 where
  pub encode : S → AudioBuffer → ℕ → ℕ → Option Bytes × S
  pub reset : S → S

abbrev pub samples_in : AudioBuffer → ℕ
samples_in none = 0
samples_in (some b) = length b

-- `byte(target.ID)`, or 0 without a target.
abbrev pub target_id : Option ℕ → ℕ
target_id none = 0
target_id (some id) = id % 256

-- What comes of a call: nothing is written if Encode gives an error. `sends` tells which of the call's
-- writes succeed.
abbrev pub written : (ℕ → Bool) → Option Bytes → ℕ → ℕ → Bool → Option Written
written sends none target seq final = none
written sends (some raw) target seq final =
    some (write_audio sends 4 target (pos seq) final raw none none none)

-- writeAudio; without an encoder there is nothing to do.
unfoldable pub write_call :
    {S : Type 0}
    → (ℕ → Bool)
    → Encoder S
    → Option ℕ
    → ℕ
    → Call
    → Option S
    → Option Written × Option S
write_call sends encoder target data_bytes call none = (none, none)
write_call sends encoder target data_bytes call (some s) =
    let (raw, t) = encoder.encode s call.buffer (samples_in call.buffer) data_bytes in
    (
      written sends raw (target_id target) call.sequence call.final,
      some (if call.final then encoder.reset t else t),
    )

-- The calls one after the other, with what comes of each; `sends k` is about the call at the place k.
-- AudioOutgoing does not read the errors.
unfoldable pub write_calls :
    {S : Type 0}
    → (ℕ → ℕ → Bool)
    → ℕ
    → Encoder S
    → Option ℕ
    → ℕ
    → List Call
    → Option S
    → List (Option Written) × Option S
unfolding write_call
write_calls sends k encoder target data_bytes [] s = ([], s)
write_calls sends k encoder target data_bytes (call ∷ calls) s =
    let (result, t) = write_call (sends k) encoder target data_bytes call s in
    let (results, u) = write_calls sends (suc k) encoder target data_bytes calls t in
    (result ∷ results, u)
