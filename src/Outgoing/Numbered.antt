-- ===== src/Outgoing/Numbered.antt =====
-- The packets of a stream: one for each buffer, numbered from 0, the last one marked.
use gumble.Prelude.{
  ℕ, suc, ◌+◌, ◌-◌, ◌%◌, ◌^◌, ◌≤◌, ◌<◌, ◌≡◌, ◌≢◌, ◌∙◌, refl, ap, Bool, true, false, Option, none,
  some, List, [], ◌∷◌, ◌++◌, All, if◌then◌else◌, length, arith,
}
use gumble.Conn.{Bytes, audio_length, Written, wrote}
use gumble.Conn.Audio.{IsAudioFrame, write_audio_lem}
use gumble.Outgoing.{
  AudioBuffer, Call, last_call, calls_from, audio_outgoing, Encoder, samples_in, target_id,
  write_call, write_calls,
}

-- `math.MaxInt32`, where the numbers start again.
abbrev pub max_int32 : ℕ
max_int32 = 2 ^ 31 - 1

abbrev pub is_last : List AudioBuffer → Bool
is_last [] = true
is_last (b ∷ bs) = false

-- The calls as they should be, from the place n on.
unfoldable pub numbered : ℕ → List AudioBuffer → List Call
numbered n [] = []
numbered n (b ∷ bs) =
    record { buffer = b; sequence = n % max_int32; final = is_last bs } ∷ numbered (suc n) bs

-- No buffer is nil.
abbrev pub NoneNil : List AudioBuffer → Type 0
NoneNil bs = All (λ b. b ≢ none) bs

last_numbered :
    (b : AudioBuffer) (n : ℕ) → b ≢ none → last_call b (n % max_int32) ≡ numbered n (b ∷ [])
unfolding last_call numbered
last_numbered none n h = absurd (h refl)
last_numbered (some b) n h = refl

calls_from-numbered :
    (b : AudioBuffer) (bs : List AudioBuffer) (n : ℕ)
    → NoneNil (b ∷ bs)
    → calls_from b (n % max_int32) bs ≡ numbered n (b ∷ bs)
unfolding calls_from numbered
calls_from-numbered b [] n h = last_numbered b n h.0
calls_from-numbered b (b' ∷ bs) n h =
    let next : (n % max_int32 + 1) % max_int32 ≡ suc n % max_int32 = omega arith in
    ap (◌∷◌ (record { buffer = b; sequence = n % max_int32; final = false }))
      (ap (λ (k : ℕ). calls_from b' k bs) next ∙ calls_from-numbered b' bs (suc n) h.1)

audio_outgoing-numbered : (bs : List AudioBuffer) → NoneNil bs → audio_outgoing bs ≡ numbered 0 bs
unfolding audio_outgoing calls_from last_call numbered
audio_outgoing-numbered [] h = refl
audio_outgoing-numbered (b ∷ bs) h = calls_from-numbered b bs 0 h

-- What the codec promises: where Encode gives no error, it gives at most as many bytes as it is asked
-- for.
abbrev pub Obeys : {S : Type 0} → Encoder S → ℕ → Type 0
Obeys {S} encoder data_bytes =
    (s t : S) (b : AudioBuffer) (raw : Bytes)
    → encoder.encode s b (samples_in b) data_bytes ≡ (some raw, t)
    → length raw ≤ data_bytes

-- The encoder's state is reset after the last buffer.
abbrev pub after_buffer : {S : Type 0} → Encoder S → Bool → S → S
after_buffer encoder last t = if last then encoder.reset t else t

-- The buffers from the place n on, what comes of them, and the state of the encoder before and after.
-- A buffer that the encoder takes in its state gives a frame, which is read back with the bytes of the
-- encoder, the buffer's number, the target, and a length that marks the last one; one that it refuses
-- gives nothing.
pub data AreSent {S : Type 0} (encoder : Encoder S) (target data_bytes : ℕ)
    : ℕ → S → List AudioBuffer → List (Option Written) → S → Type 0 where
  no_buffers : {n : ℕ} {s : S} → AreSent encoder target data_bytes n s [] [] s
  sent :
      {n : ℕ} {s t u : S} {b : AudioBuffer} {bs : List AudioBuffer} {os : List (Option Written)}
      {raw frame : Bytes}
      → encoder.encode s b (samples_in b) data_bytes ≡ (some raw, t)
      → IsAudioFrame 4 target
          (n % max_int32)
          (audio_length (length raw) (is_last bs))
          (raw ++ [])
          []
          frame
      → AreSent encoder target data_bytes (suc n) (after_buffer encoder (is_last bs) t) bs os u
      → AreSent encoder target data_bytes n s (b ∷ bs) (some (wrote frame) ∷ os) u
  left_out :
      {n : ℕ} {s t u : S} {b : AudioBuffer} {bs : List AudioBuffer} {os : List (Option Written)}
      → encoder.encode s b (samples_in b) data_bytes ≡ (none, t)
      → AreSent encoder target data_bytes (suc n) (after_buffer encoder (is_last bs) t) bs os u
      → AreSent encoder target data_bytes n s (b ∷ bs) (none ∷ os) u

module _ {S : Type 0} (encoder : Encoder S) (target : Option ℕ) (data_bytes : ℕ)
    (sends : ℕ → ℕ → Bool) (all : (k i : ℕ) → sends k i ≡ true) (obeys : Obeys encoder data_bytes)
    (small : data_bytes < 2 ^ 13) where
  -- Some calls do what they should.
  abbrev Done : ℕ → List Call → S → List AudioBuffer → Type 0
  Done n calls s bs =
      (os : List (Option Written)) × (u : S) × (write_calls sends n encoder target data_bytes calls
          (some s)
        ≡ (os, some u))
      × AreSent encoder (target_id target) data_bytes n s bs os u

  -- One more call, for what the encoder gives.
  call-Done :
      (n : ℕ) (b : AudioBuffer) (bs : List AudioBuffer) (s : S) (r : Option Bytes × S)
      → encoder.encode s b (samples_in b) data_bytes ≡ r
      → Done (suc n) (numbered (suc n) bs) (after_buffer encoder (is_last bs) r.1) bs
      → Done n (numbered n (b ∷ bs)) s (b ∷ bs)
  unfolding write_calls write_call numbered
  call-Done n b bs s (none, t) e (os, u, q, h) =
      (none ∷ os, u, rw (e, write_calls, q), left_out e h)
  call-Done n b bs s (some raw, t) e (os, u, q, h) =
      let (frame, w, heard) =
        write_audio_lem (sends n) 4 (target_id target) (n % max_int32) (is_last bs) raw none []
          (all n) (omega arith) (omega (arith, obeys s t b raw e, small)) in
      (some (wrote frame) ∷ os, u, rw (e, write_calls, q, w), sent e heard h)

  numbered-AreSent : (n : ℕ) (bs : List AudioBuffer) (s : S) → Done n (numbered n bs) s bs
  unfolding write_calls numbered
  numbered-AreSent n [] s = ([], s, refl, no_buffers)
  numbered-AreSent n (b ∷ bs) s =
      call-Done n b bs s (encoder.encode s b (samples_in b) data_bytes) refl
        (numbered-AreSent (suc n) bs _)

  -- If no buffer is nil, there is an encoder, which gives an error or at most the bytes that it is asked
  -- for, fewer than 2^13, and no write fails, then AudioOutgoing gives the buffers to the encoder in
  -- their order. It writes one packet for each that the encoder takes, with the encoder's bytes, its
  -- number the place of the buffer modulo 2^31 - 1, and with the mark of the end on the packet of the
  -- last buffer and no other. After the last buffer the encoder is reset.
  pub audio_outgoing-AreSent :
      (bs : List AudioBuffer) (s : S)
      → NoneNil bs
      → (os : List (Option Written)) × (u : S) × (write_calls sends 0 encoder target data_bytes
            (audio_outgoing bs)
            (some s)
          ≡ (os, some u))
        × AreSent encoder (target_id target) data_bytes 0 s bs os u
  audio_outgoing-AreSent bs s h = rw (audio_outgoing-numbered bs h) (numbered-AreSent 0 bs s)
