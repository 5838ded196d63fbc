-- ===== src/Listeners/Tests.antt =====
-- Lists of two and three listeners.
use gumble.Prelude.{ℕ, ◌≡◌, refl, false, some, List, [], ◌∷◌, inr, arith}
use gumble.Listeners.{Listeners, Session, no_listeners, attach, detach, on_event, audio_attach}
use gumble.Listeners.Forward.{Runs, Built, empty, attached, detached, Built-Runs}
use gumble.Listeners.Refinement.{
  IsListOf, Represents, listeners_at, attach-IsListOf, attach-Represents, detach-Represents,
}
use gumble.Listeners.Dispatch.{DetachesItself, on_event-IsListOf}
use gumble.Listeners.Audio.{heard, audio_attach_all, audio_attach_lem}

no_listeners-IsListOf : IsListOf no_listeners []
no_listeners-IsListOf = record {
  head = refl;
  tail = refl;
  linked = tt;
  distinct = tt;
  allocated = tt;
}

no_listeners-Represents : Represents no_listeners []
unfolding listeners_at
no_listeners-Represents = record { items = []; list = no_listeners-IsListOf; listeners = refl }

-- Listener 7 at item 0, and listener 8 at item 1.
abbrev two_listeners : Listeners
two_listeners = attach 8 (attach 7 no_listeners)

two_listeners-IsListOf : IsListOf two_listeners (0 ∷ 1 ∷ [])
unfolding attach
two_listeners-IsListOf = attach-IsListOf 8 (0 ∷ []) (attach-IsListOf 7 [] no_listeners-IsListOf)

attach-Represents_example : Represents two_listeners (7 ∷ 8 ∷ [])
attach-Represents_example = attach-Represents 8 (attach-Represents 7 no_listeners-Represents)

detach-Represents_example :
    Represents (detach 0 two_listeners) (listeners_at two_listeners.item_at (1 ∷ []))
unfolding listeners_at
detach-Represents_example = detach-Represents [] (1 ∷ []) 0 two_listeners-IsListOf

-- Every listener detaches itself.
detach-DetachesItself : DetachesItself detach
detach-DetachesItself i l = inr refl

on_event-IsListOf_example :
    (d : Session) × (on_event 4 detach
        (record { list = two_listeners; locked = false; called = [] })
      ≡ some d)
    × (d.locked ≡ false)
    × (d.called ≡ listeners_at two_listeners.item_at (0 ∷ 1 ∷ []))
    × (kept : List ℕ) × IsListOf d.list kept
on_event-IsListOf_example =
    on_event-IsListOf detach two_listeners [] (0 ∷ 1 ∷ []) detach-DetachesItself
      two_listeners-IsListOf

audio_attach_lem_example :
    heard 3
      (audio_attach 9 (audio_attach_all (7 ∷ 8 ∷ []) no_listeners)).item_at
      (audio_attach 9 (audio_attach_all (7 ∷ 8 ∷ []) no_listeners)).head
    ≡ 7 ∷ 9 ∷ []
audio_attach_lem_example = audio_attach_lem 0 7 9 (8 ∷ []) no_listeners refl refl

-- Three audio listeners, of which the second is detached.
abbrev three_built : Listeners
three_built = detach 1 (audio_attach 9 (audio_attach 8 (audio_attach 7 no_listeners)))

three-Built : Built three_built
unfolding audio_attach
three-Built = detached (attached (attached (attached empty 7) 8) 9) 1 (omega arith)

Built-Runs_example :
    (is : List ℕ) × Runs three_built.item_at 0 three_built.next_item three_built.head is
Built-Runs_example = Built-Runs three-Built
