-- ===== src/Dial/Limit.antt =====
-- How long DialWithDialer waits, against what its comment says.
use gumble.Prelude.{
  ℕ, zero, suc, ◌+◌, ◌-◌, ◌≤◌, ◌≡◌, ◌≢◌, ◌∙◌, refl, Bool, Option, none, some, List, [], ◌∷◌, ltb,
  arith, if◌then◌else◌,
}
use Prim.Native.Nat.{min}
use gumble.Client.{RejectError}
use gumble.Dial.{
  earlier, deadline_of, fires_at, synchronization_timeout, received, wait, dial_with_dialer,
}

-- `min(time.Now() + dialer.Timeout, dialer.Deadline)`, of those of the two that are set.
abbrev limits : ℕ → Option ℕ → ℕ → List ℕ
limits start none zero = []
limits start none (suc n) = (start + suc n) ∷ []
limits start (some d) zero = d ∷ []
limits start (some d) (suc n) = (start + suc n) ∷ d ∷ []

abbrev least : List ℕ → Option ℕ
least [] = none
least (x ∷ []) = some x
least (x ∷ y ∷ ys) = elim (least (y ∷ ys)) [ none ↦ some x | some m ↦ some (min x m) ]

abbrev pub documented_limit : ℕ → Option ℕ → ℕ → Option ℕ
documented_limit start deadline timeout = least (limits start deadline timeout)

earlier_least : (x d : ℕ) → earlier x (some d) ≡ some (min x d)
earlier_least x d = ground arith

-- The deadline is the documented one.
deadline_of-limit :
    (start : ℕ) (deadline : Option ℕ) (timeout : ℕ)
    → deadline_of start deadline timeout ≡ documented_limit start deadline timeout
unfolding deadline_of
deadline_of-limit start none zero = refl
deadline_of-limit start none (suc n) = refl
deadline_of-limit start (some d) zero = refl
deadline_of-limit start (some d) (suc n) = earlier_least (start + suc n) d

wait_lem :
    (timer_first : Bool) (f t : ℕ) (err : Option RejectError)
    → t ≢ f
    → wait timer_first (some f) (some (t, err))
      ≡ (if ltb t f then received err else synchronization_timeout)
unfolding wait
wait_lem timer_first f t err n = ground arith

-- Where the documented limit is `l`, not before the start, and the TLS dial is over at `now`,
-- DialWithDialer does not give up at `l` but later, by the time that the TLS dial has taken: it returns
-- what it receives from `connect` before that time, and a timeout if it receives something later or
-- nothing at all.
pub dial_with_dialer-late :
    (timer_first : Bool) (start now : ℕ) (deadline : Option ℕ) (timeout l t : ℕ)
    (err : Option RejectError)
    → documented_limit start deadline timeout ≡ some l
    → start ≤ l
    → start ≤ now
    → t ≢ l + (now - start)
    → (dial_with_dialer timer_first start (some now) deadline timeout (some (t, err))
        ≡ (if ltb t (l + (now - start)) then received err else synchronization_timeout))
      × (dial_with_dialer timer_first start (some now) deadline timeout none
          ≡ synchronization_timeout)
unfolding dial_with_dialer fires_at
dial_with_dialer-late timer_first start now deadline timeout l t err e h k n =
    let set = deadline_of-limit start deadline timeout ∙ e in
    let later : now + (l - start) ≡ l + (now - start) = omega arith in
    (rw (set, later) (wait_lem timer_first (l + (now - start)) t err n), unfold wait in rw set)
