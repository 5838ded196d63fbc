-- ===== src/Openal/Panic.antt =====
-- The test of a packet's size compares samples with bytes.
use gumble.Prelude.{◌≤◌, ◌<◌, ◌≡◌, false, none, List, length, arith, ltb}
use gumble.Prelude.Int.{ℤ}
use gumble.Openal.{SourceOps, raw_size, Player, play_packet}
use gumble.Openal.Samples.{fill_panics}

-- A packet that passes the test and has more samples than the array has room for makes the goroutine
-- panic, and with it the program.
pub play_packet_panics :
    {S : Type 0} (o : SourceOps S) (xs : List ℤ) (p : Player S)
    → length p.raw ≡ raw_size
    → 2880 < length xs
    → length xs ≤ raw_size
    → play_packet o xs p ≡ none
unfolding play_packet
play_packet_panics o xs p l more passes =
    let passed : ltb raw_size (length xs) ≡ false = ground arith in
    rw (passed, fill_panics xs p.raw (omega arith), play_packet)
