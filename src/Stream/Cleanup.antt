-- ===== src/Stream/Cleanup.antt =====
-- Cleanup never panics, and what a stopped stream does with a call of Pause that still waits.
use gumble.Prelude.{ℕ, zero, suc, ◌<◌, ◌≡◌, ◌≢◌, ◌∙◌, refl, ap, Bool, true, false, some, arith}
use gumble.Stream.{
  State, initial, playing, paused, stopped, Stream, kill, cleanup_in, cleanup, Step, play_fresh,
  play_paused, pause, hand_over, read_fails, stop_playing, stop_paused, Reach, start, next, Steps,
  stay, go,
}

-- What holds in each state.
abbrev Counts : Stream → State → Type 0
Counts s initial = (s.has_cmd ≡ false) × (s.wg ≡ 0) × (s.processes ≡ 0) × (s.pausing ≡ 0)
Counts s stopped = s.wg ≡ 0
Counts s st = (s.has_cmd ≡ true) × (s.wg ≡ 1)

-- After a cleanup the stream is stopped, and nothing but the state and the counter has changed.
pub record IsCleaned (s d : Stream) : Type 0 where
  pub state : d.state ≡ stopped
  pub wg : d.wg ≡ 0
  pub processes : d.processes ≡ s.processes
  pub pausing : d.pausing ≡ s.pausing

kill-IsCleaned :
    (s : Stream) (b : Bool) (n : ℕ)
    → b ≡ true
    → n ≡ 1
    → (d : Stream) × (kill b n s ≡ some d) × IsCleaned s d
unfolding kill
kill-IsCleaned s false n e f = absurd cc
kill-IsCleaned s true zero e f = absurd (omega arith)
kill-IsCleaned s true (suc n) e f = (
  record s { state = stopped; wg = n },
  refl,
  record { state = refl; wg = omega arith; processes = refl; pausing = refl },
)

cleanup_in-IsCleaned :
    (s : Stream) (st : State)
    → s.state ≡ st
    → st ≢ initial
    → Counts s st
    → (d : Stream) × (cleanup_in st s ≡ some d) × IsCleaned s d
unfolding cleanup_in
cleanup_in-IsCleaned s initial e n c = absurd (n refl)
cleanup_in-IsCleaned s playing e n c = kill-IsCleaned s s.has_cmd s.wg c.0 c.1
cleanup_in-IsCleaned s paused e n c = kill-IsCleaned s s.has_cmd s.wg c.0 c.1
cleanup_in-IsCleaned s stopped e n c =
    (s, refl, record { state = e; wg = c; processes = refl; pausing = refl })

cleaned :
    (s : Stream) {d : Stream}
    → s.state ≢ initial
    → Counts s s.state
    → cleanup s ≡ some d
    → IsCleaned s d
cleaned s {d} n c q =
    let (d', q', i) = cleanup_in-IsCleaned s s.state refl n c in
    let same : d' ≡ d = cc in rw (← same) i

-- A stream with a process has been started.
started : (s : Stream) (st : State) → Counts s st → 0 < s.processes → st ≢ initial
started s initial c h e = absurd (omega (arith, c.2))
started s playing c h e = cc
started s paused c h e = cc
started s stopped c h e = cc

handed :
    (s : Stream) (st : State) (n m : ℕ)
    → Counts s st
    → 0 < s.processes
    → Counts (record s { pausing = n; processes = m }) st
handed s initial n m c h = absurd (omega (arith, c.2))
handed s playing n m c h = c
handed s paused n m c h = c
handed s stopped n m c h = c

step-Counts : {s s' : Stream} → Counts s s.state → Step s s' → Counts s' s'.state
step-Counts i (play_fresh e f) = grind arith
step-Counts i (play_paused e f) = grind arith
step-Counts i (pause e f) = grind arith
step-Counts {s} i (hand_over a b f) = rw f (handed s s.state _ _ i b)
step-Counts {s} i (read_fails a q f) =
    let d = cleaned s (started s s.state i a) i q in rw (f, d.state) d.wg
step-Counts {s} i (stop_playing e q) = let d = cleaned s (λ n. cc) i q in rw d.state d.wg
step-Counts {s} i (stop_paused e q) = let d = cleaned s (λ n. cc) i q in rw d.state d.wg

Reach-Counts : {s : Stream} → Reach s → Counts s s.state
Reach-Counts start = (refl, refl, refl, refl)
Reach-Counts (next r s) = step-Counts (Reach-Counts r) s

-- In every interleaving, on a stream that has been started, and so wherever Stop or a process that
-- cannot read calls it, cleanup does not panic: it stops the stream and leaves the counter of `wg` at 0,
-- so the calls of Wait return, and the processes and the calls of Pause as they are.
pub Reach-IsCleaned :
    {s : Stream} → Reach s → s.state ≢ initial → (d : Stream) × (cleanup s ≡ some d) × IsCleaned s d
Reach-IsCleaned {s} r n = cleanup_in-IsCleaned s s.state refl n (Reach-Counts r)

-- No process is left on a stopped stream: nothing changes any more.
step_stuck : {s s' : Stream} → s.state ≡ stopped → s.processes ≡ 0 → Step s s' → s' ≡ s
step_stuck e h (play_fresh f q) = absurd cc
step_stuck e h (play_paused f q) = absurd cc
step_stuck e h (pause f q) = absurd cc
step_stuck e h (hand_over a b q) = absurd (omega arith)
step_stuck e h (read_fails a q f) = absurd (omega arith)
step_stuck e h (stop_playing f q) = absurd cc
step_stuck e h (stop_paused f q) = absurd cc

-- Once a stream is stopped and its processes have ended, no steps change it, and a call of Pause that
-- waits then waits for ever.
pub Steps-stuck : {s s' : Stream} → s.state ≡ stopped → s.processes ≡ 0 → Steps s s' → s' ≡ s
Steps-stuck e h stay = refl
Steps-stuck e h (go r t) =
    let q = Steps-stuck e h r in
    step_stuck (ap (λ x. x.state) q ∙ e) (ap (λ x. x.processes) q ∙ h) t ∙ q
