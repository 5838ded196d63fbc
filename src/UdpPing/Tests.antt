-- ===== src/UdpPing/Tests.antt =====
-- A packet is sent twice, and the second one is answered, after a stray answer.
use gumble.Prelude.{◌≡◌, refl, true, some, List, [], ◌∷◌, ◌++◌, replicate, arith}
use gumble.Prelude.Int.{pos}
use gumble.Client.{Bytes, text_eq}
use gumble.UdpPing.{Happening, send, incoming, note_send, find_id, responded, ping, PingResponse}
use gumble.UdpPing.Answers.{answer, AreStray, IsAnswered, ids_after, ping-IsAnswered, ping-answer}

abbrev first : Bytes
first = replicate 8 1

abbrev second : Bytes
second = replicate 8 2

abbrev before : List Happening
before = incoming 3 (answer 9 (replicate 8 7) 0 0 0) ∷ send 5 (some second) ∷ []

abbrev response : PingResponse
response = record {
  ping = 4;
  version = 66052;
  connected_users = 12;
  maximum_users = 100;
  maximum_bitrate = 72000;
}

before-AreStray : AreStray before (note_send 0 (some first) [])
unfolding find_id note_send text_eq
before-AreStray = (refl, tt)

second_known : find_id second (ids_after before (note_send 0 (some first) [])) ≡ some 5
unfolding find_id note_send text_eq
second_known = refl

ping-answer_example :
    ping
      (pos 1000)
      true
      0
      (some first)
      (before ++ (incoming 9 (answer 66052 second 12 100 72000) ∷ []))
    ≡ responded response
ping-answer_example =
    ping-answer 1000 0 (some first) before [] 9 5 66052 second 12 100 72000 before-AreStray
      second_known refl (omega arith) (omega arith) (omega arith) (omega arith)

ping-IsAnswered_example :
    IsAnswered
      (before ++ (incoming 9 (answer 66052 second 12 100 72000) ∷ []))
      (note_send 0 (some first) [])
      response
ping-IsAnswered_example =
    ping-IsAnswered (pos 1000) true 0 (some first)
      (before ++ (incoming 9 (answer 66052 second 12 100 72000) ∷ [])) response ping-answer_example
