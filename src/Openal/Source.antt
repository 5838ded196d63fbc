-- ===== src/Openal/Source.antt =====
-- StartSource, StopSource, Destroy and sourceRoutine: the methods and the goroutines that capture, as
-- interleavings of their steps. A channel is a number; the device itself is left out.
pub mod Stop
use gumble.Prelude.{
  ℕ, zero, suc, ◌+◌, ◌≡◌, Bool, true, false, Option, none, some, List, [], ◌∷◌, ◌++◌,
}
use mathlib.Core.List.{Mem}

-- A goroutine before and after it has read `stop := s.sourceStop`, which may be nil.
pub data Routine : Type 0 where
  launched : Routine
  running : Option ℕ → Routine

pub record Capture : Type 0 where
  pub source_stop : Option ℕ
  pub next_channel : ℕ
  pub closed : List ℕ
  pub routines : List Routine
  pub capturing : Bool
  -- `deviceSource != nil`
  pub has_source : Bool

-- New.
abbrev pub fresh : Capture
fresh = record {
  source_stop = none;
  next_channel = 0;
  closed = [];
  routines = [];
  capturing = false;
  has_source = true;
}

-- `none` is ErrState.
unfoldable pub start_source : Capture → Option Capture
start_source s = elim s.source_stop [
  | some c ↦ none
  | none ↦ some (record s {
    capturing = true;
    source_stop = some s.next_channel;
    next_channel = s.next_channel + 1;
    routines = launched ∷ s.routines;
  })
]

unfoldable pub stop_source : Capture → Option Capture
stop_source s = elim s.source_stop [
  | none ↦ none
  | some c ↦ some (record s { closed = c ∷ s.closed; source_stop = none; capturing = false })
]

abbrev pub or_unchanged : Capture → Option Capture → Capture
or_unchanged s none = s
or_unchanged s (some d) = d

-- The part of Destroy that is about the source; an error of StopSource is not looked at.
unfoldable pub destroy_source : Capture → Capture
unfolding stop_source
destroy_source s = elim s.has_source [
  | false ↦ s
  | true ↦ record (or_unchanged s (stop_source s)) { has_source = false }
]

pub data Step (s s' : Capture) : Type 0 where
  start : s.has_source ≡ true → start_source s ≡ some s' → Step s s'
  stop : stop_source s ≡ some s' → Step s s'
  destroy : s' ≡ destroy_source s → Step s s'
  -- A goroutine reads the field.
  read_stop :
      (before after : List Routine)
      → s.routines ≡ before ++ (launched ∷ after)
      → s' ≡ record s { routines = before ++ (running s.source_stop ∷ after) }
      → Step s s'
  -- It receives from its channel once that is closed, and returns; from a nil channel it never does.
  finish :
      (before after : List Routine) (c : ℕ)
      → s.routines ≡ before ++ (running (some c) ∷ after)
      → Mem c s.closed
      → s' ≡ record s { routines = before ++ after }
      → Step s s'

pub data Reach : Capture → Type 0 where
  at_start : Reach fresh
  next : {s s' : Capture} → Reach s → Step s s' → Reach s'

pub data Steps (s : Capture) : Capture → Type 0 where
  stay : Steps s s
  go : {s' s'' : Capture} → Steps s s' → Step s' s'' → Steps s s''
