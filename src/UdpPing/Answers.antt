-- ===== src/UdpPing/Answers.antt =====
-- Which answer Ping takes, and what it reads from it.
use gumble.Prelude.{
  ℕ, suc, ◌+◌, ◌-◌, ◌^◌, ◌<◌, ◌≡◌, ◌∙◌, refl, ap, sym, Bool, true, false, Option, none, some,
  Option-cases, inl, inr, List, [], ◌∷◌, ◌++◌, length, take, drop, take-append_self, arith,
}
use gumble.Prelude.Int.{ℤ, pos}
use gumble.Conn.{put_uint32}
use gumble.Client.{Bytes}
use gumble.UdpPing.{
  PingResponse, Ids, find_id, Happening, send, incoming, read_fails, note_send, uint32_of, id_of,
  response_of, responded, ping_loop, ping,
}

-- The packets sent and the stray answers, to ids that have not been sent, before an answer is taken.
abbrev pub AreStray : List Happening → Ids → Type 0
AreStray [] ids = Unit {0}
AreStray (send t id ∷ hs) ids = AreStray hs (note_send t id ids)
AreStray (incoming t b ∷ hs) ids = (find_id (id_of b) ids ≡ none) × AreStray hs ids
AreStray (read_fails ∷ hs) ids = ⊥

-- The ids that have been sent behind them.
abbrev pub ids_after : List Happening → Ids → Ids
ids_after [] ids = ids
ids_after (send t id ∷ hs) ids = ids_after hs (note_send t id ids)
ids_after (_ ∷ hs) ids = ids_after hs ids

-- The answer of a server, as the protocol has it.
abbrev pub answer : ℕ → Bytes → ℕ → ℕ → ℕ → Bytes
answer version id users maximum bitrate =
    put_uint32 version ++ (id ++ (put_uint32 users ++ (put_uint32 maximum ++ put_uint32 bitrate)))

ping_loop-taken :
    (before after : List Happening) (ids : Ids) (t sent : ℕ) (b : Bytes)
    → AreStray before ids
    → find_id (id_of b) (ids_after before ids) ≡ some sent
    → ping_loop (before ++ (incoming t b ∷ after)) ids ≡ responded (response_of (t - sent) b)
unfolding ping_loop
ping_loop-taken [] after ids t sent b h e = rw (e, ping_loop)
ping_loop-taken (send t' id ∷ hs) after ids t sent b h e = ping_loop-taken hs after _ t sent b h e
ping_loop-taken (incoming t' b' ∷ hs) after ids t sent b h e =
    rw (h.0, ping_loop) (ping_loop-taken hs after ids t sent b h.1 e)
ping_loop-taken (read_fails ∷ hs) after ids t sent b h e = absurd h

-- What a response goes back to.
pub record IsAnswered (hs : List Happening) (ids : Ids) (r : PingResponse) : Type 0 where
  pub before : List Happening
  pub after : List Happening
  pub time : ℕ
  pub sent : ℕ
  pub bytes : Bytes
  pub split : hs ≡ before ++ (incoming time bytes ∷ after)
  pub stray : AreStray before ids
  pub known : find_id (id_of bytes) (ids_after before ids) ≡ some sent
  pub read : r ≡ response_of (time - sent) bytes

ping_loop-IsAnswered :
    (hs : List Happening) (ids : Ids) (r : PingResponse)
    → ping_loop hs ids ≡ responded r
    → IsAnswered hs ids r
unfolding ping_loop
ping_loop-IsAnswered [] ids r e = absurd cc
ping_loop-IsAnswered (read_fails ∷ hs) ids r e = absurd cc
ping_loop-IsAnswered (send t id ∷ hs) ids r e =
    let a = ping_loop-IsAnswered hs (note_send t id ids) r e in
    record {
      before = send t id ∷ a.before;
      after = a.after;
      time = a.time;
      sent = a.sent;
      bytes = a.bytes;
      split = ap (send t id ∷◌) a.split;
      stray = a.stray;
      known = a.known;
      read = a.read;
    }
ping_loop-IsAnswered (incoming t b ∷ hs) ids r e = elim (Option-cases (find_id (id_of b) ids)) [
  | inl q ↦
      let a = ping_loop-IsAnswered hs ids r (rw (q, ping_loop) at e) in
      record {
        before = incoming t b ∷ a.before;
        after = a.after;
        time = a.time;
        sent = a.sent;
        bytes = a.bytes;
        split = ap (incoming t b ∷◌) a.split;
        stray = (q, a.stray);
        known = a.known;
        read = a.read;
      }
  | inr (sent, q) ↦
      let same : responded (response_of (t - sent) b) ≡ responded r = rw (q, ping_loop) at e in
      record {
        before = [];
        after = hs;
        time = t;
        sent = sent;
        bytes = b;
        split = refl;
        stray = tt;
        known = q;
        read = cc;
      }
]

-- A response comes from the first answer to a packet that was sent, with the time since then; before it
-- there were only packets sent and answers to ids that had not been sent.
pub ping-IsAnswered :
    (timeout : ℤ) (dials : Bool) (t : ℕ) (id : Option Bytes) (hs : List Happening)
    (r : PingResponse)
    → ping timeout dials t id hs ≡ responded r
    → IsAnswered hs (note_send t id []) r
unfolding ping
ping-IsAnswered (pos n) true t id hs r e = ping_loop-IsAnswered hs (note_send t id []) r e
ping-IsAnswered (pos n) false t id hs r e = absurd cc
ping-IsAnswered _ dials t id hs r e = absurd cc

uint32_of-put : (v : ℕ) (rest : Bytes) → v < 2 ^ 32 → uint32_of (put_uint32 v ++ rest) ≡ v
uint32_of-put v rest h = omega arith

-- The id, and what is behind it.
id_of-answer : (v : ℕ) (id : Bytes) (u m b : ℕ) → length id ≡ 8 → id_of (answer v id u m b) ≡ id
id_of-answer v id u m b h =
    ap (λ n. take n (id ++ (put_uint32 u ++ (put_uint32 m ++ put_uint32 b)))) (sym h)
    ∙ take-append_self id _

behind_id : (id rest : Bytes) (n : ℕ) → length id ≡ 8 → drop (8 + n) (id ++ rest) ≡ drop n rest
behind_id id rest n h = ap (λ k. drop (k + n) (id ++ rest)) (sym h) ∙ drop_more id rest n
  where
    drop_more : (id rest : Bytes) (n : ℕ) → drop (length id + n) (id ++ rest) ≡ drop n rest
    drop_more [] rest n = ap (λ k. drop k rest) (omega arith)
    drop_more (x ∷ xs) rest n =
        ap (λ k. drop k (x ∷ (xs ++ rest)))
          (let up : suc (length xs) + n ≡ suc (length xs + n) = omega arith in up)
        ∙ drop_more xs rest n

-- An answer is read as it was written.
pub response_of-answer :
    (elapsed v : ℕ) (id : Bytes) (u m b : ℕ)
    → length id ≡ 8
    → v < 2 ^ 32
    → u < 2 ^ 32
    → m < 2 ^ 32
    → b < 2 ^ 32
    → response_of elapsed (answer v id u m b) ≡ record {
      ping = elapsed;
      version = v;
      connected_users = u;
      maximum_users = m;
      maximum_bitrate = b;
    }
unfolding response_of
response_of-answer elapsed v id u m b h hv hu hm hb = λ i. record {
  ping = elapsed;
  version = uint32_of-put v (id ++ rest) hv i;
  connected_users =
      (ap uint32_of (behind_id id rest 0 h) ∙ uint32_of-put u (put_uint32 m ++ put_uint32 b) hu) i;
  maximum_users = (ap uint32_of (behind_id id rest 4 h) ∙ uint32_of-put m (put_uint32 b) hm) i;
  maximum_bitrate = (ap uint32_of (behind_id id rest 8 h) ∙ uint32_of-put b [] hb) i;
}
  where
    rest : Bytes
    rest = put_uint32 u ++ (put_uint32 m ++ put_uint32 b)

-- Where a server answers to a packet that was sent, and only stray answers come before it, Ping returns
-- the numbers that the server has written and the time since the newest packet with that id.
pub ping-answer :
    (timeout t0 : ℕ) (first : Option Bytes) (before after : List Happening) (t sent v : ℕ)
    (id : Bytes) (u m b : ℕ)
    → AreStray before (note_send t0 first [])
    → find_id id (ids_after before (note_send t0 first [])) ≡ some sent
    → length id ≡ 8
    → v < 2 ^ 32
    → u < 2 ^ 32
    → m < 2 ^ 32
    → b < 2 ^ 32
    → ping (pos timeout) true t0 first (before ++ (incoming t (answer v id u m b) ∷ after))
      ≡ responded (record {
        ping = t - sent;
        version = v;
        connected_users = u;
        maximum_users = m;
        maximum_bitrate = b;
      })
unfolding ping
ping-answer timeout t0 first before after t sent v id u m b stray known h hv hu hm hb =
    ping_loop-taken before after (note_send t0 first []) t sent (answer v id u m b) stray
      (rw (id_of-answer v id u m b h) known)
    ∙ ap responded (response_of-answer (t - sent) v id u m b h hv hu hm hb)
