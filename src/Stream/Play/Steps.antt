-- ===== src/Stream/Play/Steps.antt =====
-- The methods, as functions, are the steps of the relation.
use gumble.Prelude.{
  ◌+◌, ◌≡◌, ◌∙◌, sym, refl, ap, Bool, true, false, Option, none, some, inl, inr, ◌⊎◌, ◌≢◌,
  if◌then◌else◌,
}
use gumble.Stream.{
  State, initial, playing, paused, stopped, Stream, cleanup_in, Step, play_fresh, play_paused,
  pause, stop_playing, stop_paused, Reach,
}
use gumble.Stream.Cleanup.{Reach-IsCleaned}
use gumble.Stream.Play.{
  Source, Starts, StreamError, command_error, source_error, pipe_error, Called, refused, done,
  panics, play, play_source, source_starts, pause_call, stop_call, cleaned_up,
}

-- The three methods of a user of the stream.
pub data Method : Type 0 where
  play_method : Option Source → Starts → Method
  pause_method stop_method : Method

abbrev pub run : Method → Stream → Called
run (play_method src x) = play src x
run pause_method = pause_call
run stop_method = stop_call

done-injective : {d s' : Stream} → done d ≡ done s' → d ≡ s'
done-injective e = cc

refused_done : {x : StreamError} {d : Stream} → refused x ≡ done d → ⊥
refused_done e = cc

done_panics : {d : Stream} → done d ≢ panics
done_panics e = cc

refused_panics : {x : StreamError} → refused x ≢ panics
refused_panics e = cc

state_cases : (st : State) → ((st ≡ initial) ⊎ (st ≡ playing)) ⊎ ((st ≡ paused) ⊎ (st ≡ stopped))
state_cases initial = inl (inl refl)
state_cases playing = inl (inr refl)
state_cases paused = inr (inl refl)
state_cases stopped = inr (inr refl)

-- All three starts have gone well.
started :
    (a b c : Bool) (d s' : Stream)
    → (if a
        then (if b then (if c then done d else refused command_error) else refused source_error)
        else refused pipe_error)
      ≡ done s'
    → d ≡ s'
started true true true d s' e = done-injective e
started true true false d s' e = absurd cc
started true false c d s' e = absurd cc
started false b c d s' e = absurd cc

play_source-done :
    (src : Option Source) (x : Starts) (s s' : Stream)
    → play_source src x s ≡ done s'
    → s' ≡ record s { state = playing; has_cmd = true; wg = s.wg + 1; processes = s.processes + 1 }
unfolding play_source
play_source-done none x s s' e = absurd cc
play_source-done (some src) x s s' e = sym (started x.pipe (source_starts src x) x.command _ s' e)

cleaned_up-done : (o : Option Stream) (s' : Stream) → cleaned_up o ≡ done s' → o ≡ some s'
cleaned_up-done none s' e = absurd cc
cleaned_up-done (some d) s' e = ap some (done-injective e)

-- What a method does that gives no error is a step of the relation.
run-Step : (m : Method) (s s' : Stream) → run m s ≡ done s' → Step s s'
unfolding play pause_call stop_call
run-Step (play_method src x) s s' e = elim (state_cases s.state) [
  | inl (inl q) ↦ play_fresh q (play_source-done src x s s' (rw (q, play) at e))
  | inl (inr q) ↦ absurd (refused_done (rw (q, play) at e))
  | inr (inl q) ↦ play_paused q (sym (done-injective (rw (q, play) at e)))
  | inr (inr q) ↦ absurd (refused_done (rw (q, play) at e))
]
run-Step pause_method s s' e = elim (state_cases s.state) [
  | inl (inl q) ↦ absurd (refused_done (rw (q, pause_call) at e))
  | inl (inr q) ↦ pause q (sym (done-injective (rw (q, pause_call) at e)))
  | inr (inl q) ↦ absurd (refused_done (rw (q, pause_call) at e))
  | inr (inr q) ↦ absurd (refused_done (rw (q, pause_call) at e))
]
run-Step stop_method s s' e = elim (state_cases s.state) [
  | inl (inl q) ↦ absurd (refused_done (rw (q, stop_call) at e))
  | inl (inr q) ↦ stop_playing q (
      ap (λ st. cleanup_in st s) q
      ∙ cleaned_up-done (cleanup_in playing s) s' (rw (q, stop_call) at e))
  | inr (inl q) ↦ stop_paused q (
      ap (λ st. cleanup_in st s) q
      ∙ cleaned_up-done (cleanup_in paused s) s' (rw (q, stop_call) at e))
  | inr (inr q) ↦ absurd (refused_done (rw (q, stop_call) at e))
]

stop_safe :
    (s : Stream) (st : State)
    → Reach s
    → s.state ≡ st
    → st ≢ initial
    → cleaned_up (cleanup_in st s) ≢ panics
stop_safe s st r q n e =
    let (d, cleaned, _) = Reach-IsCleaned r (λ i. n (sym q ∙ i)) in
    let same : cleanup_in st s ≡ some d = ap (λ t. cleanup_in t s) (sym q) ∙ cleaned in
    done_panics (rw same at e)

ifs_safe :
    (a b c : Bool) (d : Stream)
    → (if a
        then (if b then (if c then done d else refused command_error) else refused source_error)
        else refused pipe_error)
      ≢ panics
ifs_safe true true true d e = cc
ifs_safe true true false d e = cc
ifs_safe true false c d e = cc
ifs_safe false b c d e = cc

play_source_safe : (src : Option Source) (x : Starts) (s : Stream) → play_source src x s ≢ panics
unfolding play_source
play_source_safe none x s e = cc
play_source_safe (some src) x s e = ifs_safe x.pipe (source_starts src x) x.command _ e

-- No method panics, whatever has been done before.
run_safe : (m : Method) (s : Stream) → Reach s → run m s ≢ panics
unfolding play pause_call stop_call
run_safe (play_method src x) s r e = elim (state_cases s.state) [
  | inl (inl q) ↦ play_source_safe src x s (rw (q, play) at e)
  | inl (inr q) ↦ refused_panics (rw (q, play) at e)
  | inr (inl q) ↦ done_panics (rw (q, play) at e)
  | inr (inr q) ↦ refused_panics (rw (q, play) at e)
]
run_safe pause_method s r e = elim (state_cases s.state) [
  | inl (inl q) ↦ refused_panics (rw (q, pause_call) at e)
  | inl (inr q) ↦ done_panics (rw (q, pause_call) at e)
  | inr (inl q) ↦ refused_panics (rw (q, pause_call) at e)
  | inr (inr q) ↦ refused_panics (rw (q, pause_call) at e)
]
run_safe stop_method s r e = elim (state_cases s.state) [
  | inl (inl q) ↦ refused_panics (rw (q, stop_call) at e)
  | inl (inr q) ↦ stop_safe s playing r q (λ i. cc) (rw (q, stop_call) at e)
  | inr (inl q) ↦ stop_safe s paused r q (λ i. cc) (rw (q, stop_call) at e)
  | inr (inr q) ↦ refused_panics (rw (q, stop_call) at e)
]
