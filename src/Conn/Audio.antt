-- ===== src/Conn/Audio.antt =====
-- The audio packets of WriteAudio, as a receiver takes them apart.
use gumble.Prelude.{
  ℕ, zero, suc, ◌+◌, ◌*◌, ◌%◌, ◌^◌, ◌≤◌, ◌<◌, ◌≡◌, refl, ap, Bool, true, false, Option, none, some,
  List, [], ◌∷◌, ◌++◌, ◌/◌, ◌∙◌, map, sym, append-nil, Bool-cases, inl, inr, length, take, drop,
  replicate, arith, append_assoc, length-append, length-drop, drop-append_self,
}
use gumble.Prelude.Bits.{bit_or_comm, bit_or_low}
use gumble.Prelude.Int.{pos}
use gumble.Varint.{encode, decode}
use gumble.Varint.RoundTrip.{encoding-reads}
use gumble.Conn.{
  Bytes, packet, read_packet, write_header, audio_length, audio_first, audio_parts, position_length,
  wrote, write_failed, send_parts, write_audio,
}
use gumble.Conn.Frames.{read-frame}

audio_length-lt : (l : ℕ) (final : Bool) → l < 2 ^ 13 → audio_length l final < 2 ^ 14
audio_length-lt l true h = omega (arith, bit_or_comm l 0x2000, bit_or_low 13 1 l h)
audio_length-lt l false h = omega arith

pub length-take_le : (n : ℕ) (xs : Bytes) → n ≤ length xs → length (take n xs) ≡ n
length-take_le zero xs h = refl
length-take_le (suc n) [] h = elim h [ ]
length-take_le (suc n) (x ∷ xs) h = ap suc (length-take_le n xs (omega arith))

pub drop-append_at : (n : ℕ) (xs ys : Bytes) → length xs ≡ n → drop n (xs ++ ys) ≡ ys
drop-append_at n xs ys e = rw (← e) (drop-append_self xs ys)

-- A position is the bits of three float32.
abbrev pub Position : Type 0
Position = Option (ℕ × ℕ × ℕ)

abbrev pub x_of : Position → Option ℕ
x_of none = none
x_of (some (x, y, z)) = some x

abbrev pub y_of : Position → Option ℕ
y_of none = none
y_of (some (x, y, z)) = some y

abbrev pub z_of : Position → Option ℕ
z_of none = none
z_of (some (x, y, z)) = some z

abbrev pub little_endian : ℕ → Bytes
little_endian v = (v % 256) ∷ (v / 2 ^ 8 % 256) ∷ (v / 2 ^ 16 % 256) ∷ (v / 2 ^ 24 % 256) ∷ []

abbrev floats : Position → List Bytes
floats none = []
floats (some (x, y, z)) = little_endian x ∷ little_endian y ∷ little_endian z ∷ []

abbrev concat : List Bytes → Bytes
concat [] = []
concat (b ∷ bs) = b ++ concat bs

abbrev pub position_bytes : Position → Bytes
position_bytes position = concat (floats position)

length-position_bytes :
    (position : Position) → length (position_bytes position) ≡ position_length (x_of position)
length-position_bytes none = refl
length-position_bytes (some (x, y, z)) = refl

abbrev audio_frame : Bytes → Bytes → Bytes → Bytes
audio_frame header payload position =
    write_header 1 ((length header + length payload + length position) % 2 ^ 32)
    ++ (header ++ (payload ++ position))

send_parts-wrote :
    (sends : ℕ → Bool) (i : ℕ) (sent : Bytes) (bs : List Bytes)
    → ((n : ℕ) → sends n ≡ true)
    → send_parts sends i sent (map some bs) ≡ wrote (sent ++ concat bs)
unfolding send_parts
send_parts-wrote sends i sent [] h = ap wrote (sym (append-nil sent))
send_parts-wrote sends i sent (b ∷ bs) h =
    rw (h i)
      (send_parts-wrote sends (suc i) (sent ++ b) bs h ∙ ap wrote (append_assoc sent b (concat bs)))

send_parts_failed :
    (sends : ℕ → Bool) (i k : ℕ) (sent : Bytes) (bs : List Bytes)
    → k < length bs
    → sends (i + k) ≡ false
    → send_parts sends i sent (map some bs) ≡ write_failed
unfolding send_parts
send_parts_failed sends i k sent [] h e = absurd (omega arith)
send_parts_failed sends i zero sent (b ∷ bs) h e =
    let now : sends i ≡ false = ap sends (omega arith) ∙ e in rw now refl
send_parts_failed sends i (suc k) sent (b ∷ bs) h e =
    let later : send_parts sends (suc i) (sent ++ b) (map some bs) ≡ write_failed =
      send_parts_failed sends (suc i) k (sent ++ b) bs (omega arith) (ap sends (omega arith) ∙ e) in
    elim (Bool-cases (sends i)) [ inl q ↦ rw (q, later) refl | inr q ↦ rw q refl ]

-- The pieces that are written, where X, Y and Z are nil or none of them is.
abbrev pieces : Bytes → Bytes → Position → List Bytes
pieces header payload position =
    write_header 1 ((length header + length payload + length (position_bytes position)) % 2 ^ 32)
    ∷ header
    ∷ payload
    ∷ floats position

audio_parts-pieces :
    (header payload : Bytes) (position : Position)
    → audio_parts header payload (x_of position) (y_of position) (z_of position)
      ≡ map some (pieces header payload position)
audio_parts-pieces header payload none = refl
audio_parts-pieces header payload (some (x, y, z)) = refl

-- What `write_audio` computes once both numbers are encoded.
write_audio_of :
    (sends : ℕ → Bool) (format target sequence : ℕ) (final : Bool) (payload : Bytes)
    (x y z : Option ℕ) (b c : Bytes) (n m : ℕ)
    → 1 ≤ n
    → 1 ≤ m
    → encode (replicate 20 0) (pos sequence) ≡ some (b, n)
    → encode (drop n b) (pos (audio_length (length payload) final)) ≡ some (c, m)
    → write_audio sends format target (pos sequence) final payload x y z
      ≡ send_parts sends 0 []
          (audio_parts (audio_first format target ∷ (take n b ++ take m c)) payload x y z)
unfolding write_audio
write_audio_of sends format target sequence final payload x y z b c zero m hn hm e f = elim hn [ ]
write_audio_of sends format target sequence final payload x y z b c (suc n) zero hn hm e f =
    elim hm [ ]
write_audio_of sends format target sequence final payload x y z b c (suc n) (suc m) hn hm e f =
    rw (e, f, write_audio)

-- What a receiver finds in an audio packet: the type, and a body of which the first byte is the format
-- and target, then the two numbers, then the data and the position.
pub record IsAudioFrame (format target sequence len : ℕ) (content rest frame : Bytes) : Type 0 where
  pub body : Bytes
  pub tail : Bytes
  pub n : ℕ
  pub m : ℕ
  pub framed : read_packet (1024 * 1024 * 10) (frame ++ rest) ≡ packet 1 body rest
  pub first : body ≡ audio_first format target ∷ tail
  pub n_positive : 1 ≤ n
  pub m_positive : 1 ≤ m
  pub sequenced : decode tail ≡ (pos sequence, n)
  pub sized : decode (drop n tail) ≡ (pos len, m)
  pub carried : drop m (drop n tail) ≡ content

-- The parts of a frame, for any two encodings `xs` and `ys` in its header.
audio_frame_parts :
    (format target sequence len n m : ℕ) (xs ys payload position rest : Bytes)
    → length xs ≡ n
    → length ys ≡ m
    → 1 ≤ n
    → 1 ≤ m
    → length xs + length ys + length payload + length position ≤ 2 ^ 20
    → ((more : Bytes) → decode (xs ++ more) ≡ (pos sequence, n))
    → ((more : Bytes) → decode (ys ++ more) ≡ (pos len, m))
    → IsAudioFrame format target sequence len
        (payload ++ position)
        rest
        (audio_frame (audio_first format target ∷ (xs ++ ys)) payload position)
audio_frame_parts format target sequence len n m xs ys payload position rest hx hy n1 m1 small rx
      ry =
    record {
      body = audio_first format target ∷ ((xs ++ ys) ++ (payload ++ position));
      tail = xs ++ (ys ++ (payload ++ position));
      n = n;
      m = m;
      framed = rw total (
          read-frame (1024 * 1024 * 10) 1
            (audio_first format target ∷ ((xs ++ ys) ++ (payload ++ position))) rest (omega arith)
            (omega (arith, body_size)) (omega (arith, body_size)));
      first = ap (◌∷◌ (audio_first format target)) (append_assoc xs ys (payload ++ position));
      n_positive = n1;
      m_positive = m1;
      sequenced = rx (ys ++ (payload ++ position));
      sized = rw (drop-append_at n xs (ys ++ (payload ++ position)) hx) (ry (payload ++ position));
      carried =
          rw (drop-append_at n xs (ys ++ (payload ++ position)) hx)
            (drop-append_at m ys (payload ++ position) hy);
    }
  where
    body_size :
        length ((xs ++ ys) ++ (payload ++ position))
        ≡ length xs + length ys + (length payload + length position)
    body_size = omega (
      arith,
      length-append (xs ++ ys) (payload ++ position),
      length-append xs ys,
      length-append payload position,
    )

    total :
        (suc (length (xs ++ ys)) + length payload + length position) % 2 ^ 32
        ≡ suc (length ((xs ++ ys) ++ (payload ++ position)))
    total = omega (arith, body_size, length-append xs ys)

-- The two numbers of the header, encoded: what WriteAudio writes, and how a receiver takes it apart.
record IsEncoded (format target sequence : ℕ) (final : Bool) (payload : Bytes) (position : Position)
    (rest : Bytes) : Type 0 where
  header : Bytes
  sent :
      (sends : ℕ → Bool) (x y z : Option ℕ)
      → write_audio sends format target (pos sequence) final payload x y z
        ≡ send_parts sends 0 [] (audio_parts header payload x y z)
  parts :
      IsAudioFrame format target sequence
        (audio_length (length payload) final)
        (payload ++ position_bytes position)
        rest
        (audio_frame header payload (position_bytes position))

encoded :
    (format target sequence : ℕ) (final : Bool) (payload : Bytes) (position : Position)
    (rest : Bytes)
    → sequence < 2 ^ 63
    → length payload < 2 ^ 13
    → IsEncoded format target sequence final payload position rest
encoded format target sequence final payload position rest hs hl =
    let len : ℕ = audio_length (length payload) final in
    let (b, n, eb, n1, n10, lb, _, reads) =
      encoding-reads (replicate 20 0) (pos sequence) (omega arith) hs (λ e. cc) in
    let room : 10 ≤ length (drop n b) = omega (arith, length-drop n b, lb, n10) in
    let (c, m, ec, m1, m10, lc, _, reads_len) =
      encoding-reads (drop n b) (pos len) room
        (omega (arith, audio_length-lt (length payload) final hl)) (λ e. cc) in
    record {
      header = audio_first format target ∷ (take n b ++ take m c);
      sent = λ sends x y z.
          write_audio_of sends format target sequence final payload x y z b c n m n1 m1 eb ec;
      parts =
          audio_frame_parts format target sequence len n m (take n b) (take m c) payload
            (position_bytes position) rest (length-take_le n b (omega (arith, lb, n10)))
            (length-take_le m c (omega (arith, lc, m10, room))) n1 m1
            (omega (
              arith,
              length-take_le n b (omega (arith, lb, n10)),
              length-take_le m c (omega (arith, lc, m10, room)),
              at_most position,
              n10,
              m10,
            ))
            reads reads_len;
    }
  where
    at_most : (position : Position) → length (position_bytes position) ≤ 12
    at_most none = omega arith
    at_most (some p) = omega arith

-- The pieces go out one after the other.
sent_pieces :
    {format target sequence : ℕ} {final : Bool} {payload : Bytes} {position : Position}
    {rest : Bytes} (e : IsEncoded format target sequence final payload position rest)
    (sends : ℕ → Bool)
    → write_audio sends format target
        (pos sequence)
        final
        payload
        (x_of position)
        (y_of position)
        (z_of position)
      ≡ send_parts sends 0 [] (map some (pieces e.header payload position))
sent_pieces {payload} {position} e sends =
    e.sent sends (x_of position) (y_of position) (z_of position)
    ∙ ap (send_parts sends 0 []) (audio_parts-pieces e.header payload position)

pub write_audio_lem :
    (sends : ℕ → Bool) (format target sequence : ℕ) (final : Bool) (payload : Bytes)
    (position : Position) (rest : Bytes)
    → ((n : ℕ) → sends n ≡ true)
    → sequence < 2 ^ 63
    → length payload < 2 ^ 13
    → (frame : Bytes) × (write_audio sends format target
          (pos sequence)
          final
          payload
          (x_of position)
          (y_of position)
          (z_of position)
        ≡ wrote frame)
      × IsAudioFrame format target sequence
          (audio_length (length payload) final)
          (payload ++ position_bytes position)
          rest
          frame
write_audio_lem sends format target sequence final payload position rest all hs hl =
    let e = encoded format target sequence final payload position rest hs hl in
    (
      audio_frame e.header payload (position_bytes position),
      sent_pieces e sends ∙ send_parts-wrote sends 0 [] (pieces e.header payload position) all,
      e.parts,
    )

-- With the same arguments, but where one of the first three writes fails, those of the two headers and
-- of the data, WriteAudio gives its error.
pub write_audio_failed :
    (sends : ℕ → Bool) (format target sequence k : ℕ) (final : Bool) (payload : Bytes)
    (position : Position)
    → sequence < 2 ^ 63
    → length payload < 2 ^ 13
    → k < 3
    → sends k ≡ false
    → write_audio sends format target
        (pos sequence)
        final
        payload
        (x_of position)
        (y_of position)
        (z_of position)
      ≡ write_failed
write_audio_failed sends format target sequence k final payload position hs hl small e =
    let enc = encoded format target sequence final payload position [] hs hl in
    sent_pieces enc sends
    ∙ send_parts_failed sends 0 k [] (pieces enc.header payload position) (omega arith)
        (ap sends (omega arith) ∙ e)
