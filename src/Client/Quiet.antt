-- ===== src/Client/Quiet.antt =====
-- What a handler leaves alone that belongs to the life of the connection: the state, the dialer, the
-- channels `connect` and `end`, and the events that the listeners have had.
pub mod Handlers
pub mod Others
use gumble.Prelude.{
  ◌≡◌, ◌∙◌, refl, ap, sym, Bool, true, false, Option, none, some, List, [], ◌∷◌, ◌++◌, append_assoc,
  append-nil, if◌then◌else◌, All, All-append,
}
use gumble.Client.{
  Client, World, Bytes, Event, State, synced, connected, disconnected, connect, disconnect,
}
use gumble.Client.Monad.{
  M, Outcome, returned, failed, panicked, blocked, Error, unmarshal_error, ◌>>=◌, ◌>>◌, pure, throw,
  panic, lock, unlock, world, set_world, client, modify, emit, emit_if_synced, unmarshalled,
  required, some_or_throw, some_or_unlock,
}

-- An event that is not about the connection.
abbrev pub IsNotice : Event → Type 0
IsNotice (connect e) = ⊥
IsNotice (disconnect t) = ⊥
IsNotice _ = Unit {0}

-- `d` is a later client of the same connection, with `news` reported in between.
pub record Follows (c d : Client) : Type 0 where
  pub state : d.state ≡ c.state
  pub dial : d.dial ≡ c.dial
  pub connect_closed : d.connect_closed ≡ c.connect_closed
  pub end_closed : d.end_closed ≡ c.end_closed
  pub news : List Event
  pub told : d.events ≡ c.events ++ news
  pub notices : All IsNotice news

pub Follows-refl : (c : Client) → Follows c c
Follows-refl c = record {
  state = refl;
  dial = refl;
  connect_closed = refl;
  end_closed = refl;
  news = [];
  told = sym (append-nil c.events);
  notices = tt;
}

pub Follows-trans : {a b c : Client} → Follows a b → Follows b c → Follows a c
Follows-trans f g = record {
  state = g.state ∙ f.state;
  dial = g.dial ∙ f.dial;
  connect_closed = g.connect_closed ∙ f.connect_closed;
  end_closed = g.end_closed ∙ f.end_closed;
  news = f.news ++ g.news;
  told = g.told ∙ ap (◌++ g.news) f.told ∙ append_assoc _ f.news g.news;
  notices = All-append IsNotice f.news g.news f.notices g.notices;
}

-- Whatever the outcome, the client that is left follows.
abbrev pub Leaves {ℓ} : {A : Type ℓ} → Client → Outcome A → Type 0
Leaves c (returned a d) = Follows c d
Leaves c (failed e d) = Follows c d
Leaves c panicked = Unit {0}
Leaves c blocked = Unit {0}

pub record IsQuiet {ℓ} {A : Type ℓ} (m : M A) : Type ℓ where
  pub at : (c : Client) → Leaves c (m c)

later {ℓ} : {A : Type ℓ} {c d : Client} → Follows c d → (o : Outcome A) → Leaves d o → Leaves c o
later f (returned a e) g = Follows-trans f g
later f (failed x e) g = Follows-trans f g
later f panicked g = tt
later f blocked g = tt

module _ {ℓ} {A : Type ℓ} where
  pub pure-IsQuiet : (a : A) → IsQuiet (pure a)
  unfolding pure
  pure-IsQuiet a = record { at = Follows-refl }

  pub throw-IsQuiet : (e : Error) → IsQuiet (throw {A = A} e)
  unfolding throw
  throw-IsQuiet e = record { at = Follows-refl }

  pub panic-IsQuiet : IsQuiet (panic {A = A})
  unfolding panic
  panic-IsQuiet = record { at = λ c. tt }

  pub if-IsQuiet : (b : Bool) (m n : M A) → IsQuiet m → IsQuiet n → IsQuiet (if b then m else n)
  if-IsQuiet true m n qm qn = qm
  if-IsQuiet false m n qm qn = qn

  pub unmarshalled-IsQuiet :
      (unmarshal : Bytes → Option A) (buffer : Bytes) → IsQuiet (unmarshalled unmarshal buffer)
  unfolding unmarshalled
  unmarshalled-IsQuiet unmarshal buffer = cases (unmarshal buffer)
    where
      cases :
          (o : Option A)
          → IsQuiet {A = A} (elim o [ some a ↦ pure a | none ↦ throw unmarshal_error ])
      cases none = throw-IsQuiet _
      cases (some a) = pure-IsQuiet a

  pub required-IsQuiet : (o : Option A) → IsQuiet (required o)
  unfolding required
  required-IsQuiet none = throw-IsQuiet _
  required-IsQuiet (some a) = pure-IsQuiet a

  pub some_or_throw-IsQuiet : (e : Error) (o : Option A) → IsQuiet (some_or_throw e o)
  unfolding some_or_throw
  some_or_throw-IsQuiet e none = throw-IsQuiet e
  some_or_throw-IsQuiet e (some a) = pure-IsQuiet a

module _ {ℓ κ} {A : Type ℓ} {B : Type κ} where
  pub bind-IsQuiet :
      (m : M A) (f : A → M B) → IsQuiet m → ((a : A) → IsQuiet (f a)) → IsQuiet (m >>= f)
  unfolding ◌>>=◌
  bind-IsQuiet m f qm qf = record { at = λ c. step c (m c) (qm.at c) }
    where
      step :
          (c : Client) (o : Outcome A)
          → Leaves c o
          → Leaves c (elim o [
            | returned a d ↦ f a d
            | failed e d ↦ failed e d
            | panicked ↦ panicked
            | blocked ↦ blocked
          ])
      step c (returned a d) g = later g (f a d) ((qf a).at d)
      step c (failed e d) g = g
      step c panicked g = tt
      step c blocked g = tt

pub then-IsQuiet {κ} :
    {B : Type κ} (m : M (Unit {0})) (k : M B) → IsQuiet m → IsQuiet k → IsQuiet (m >> k)
unfolding ◌>>◌
then-IsQuiet m k qm qk = bind-IsQuiet m (λ _. k) qm (λ _. qk)

pub aside :
    {c d : Client}
    → d.state ≡ c.state
    → d.dial ≡ c.dial
    → d.connect_closed ≡ c.connect_closed
    → d.end_closed ≡ c.end_closed
    → d.events ≡ c.events
    → Follows c d
aside s d k e v = record {
  state = s;
  dial = d;
  connect_closed = k;
  end_closed = e;
  news = [];
  told = v ∙ sym (append-nil _);
  notices = tt;
}

-- A change of nothing that `Follows` speaks of.
pub modify-IsQuiet :
    (f : Client → Client)
    → ((c : Client) → (f c).state ≡ c.state)
    → ((c : Client) → (f c).dial ≡ c.dial)
    → ((c : Client) → (f c).connect_closed ≡ c.connect_closed)
    → ((c : Client) → (f c).end_closed ≡ c.end_closed)
    → ((c : Client) → (f c).events ≡ c.events)
    → IsQuiet (modify f)
unfolding modify
modify-IsQuiet f s d k e v = record { at = λ c. aside (s c) (d c) (k c) (e c) (v c) }

pub world-IsQuiet : IsQuiet world
unfolding world
world-IsQuiet = record { at = Follows-refl }

pub client-IsQuiet : IsQuiet client
unfolding client
client-IsQuiet = record { at = Follows-refl }

pub set_world-IsQuiet : (w : World) → IsQuiet (set_world w)
unfolding set_world
set_world-IsQuiet w = record { at = λ c. aside refl refl refl refl refl }

pub lock-IsQuiet : IsQuiet lock
unfolding lock
lock-IsQuiet = record { at = λ c. cases c c.locked }
  where
    cases :
        (c : Client) (b : Bool)
        → Leaves {0} c (if b then blocked else returned tt (record c { locked = true }))
    cases c true = tt
    cases c false = aside refl refl refl refl refl

pub unlock-IsQuiet : IsQuiet unlock
unfolding unlock
unlock-IsQuiet = record { at = λ c. cases c c.locked }
  where
    cases :
        (c : Client) (b : Bool)
        → Leaves {0} c (if b then returned tt (record c { locked = false }) else panicked)
    cases c true = aside refl refl refl refl refl
    cases c false = tt

pub some_or_unlock-IsQuiet {ℓ} : {A : Type ℓ} (o : Option A) → IsQuiet (some_or_unlock o)
unfolding some_or_unlock
some_or_unlock-IsQuiet none = then-IsQuiet _ _ unlock-IsQuiet (throw-IsQuiet _)
some_or_unlock-IsQuiet (some a) = pure-IsQuiet a

reported :
    (e : Event) (c : Client) → IsNotice e → Follows c (record c { events = c.events ++ (e ∷ []) })
reported e c n = record {
  state = refl;
  dial = refl;
  connect_closed = refl;
  end_closed = refl;
  news = e ∷ [];
  told = refl;
  notices = (n, tt);
}

pub emit-IsQuiet : (e : Event) → IsNotice e → IsQuiet (emit e)
unfolding emit
emit-IsQuiet e n = record { at = λ c. reported e c n }

pub emit_if_synced-IsQuiet : (e : Event) → IsNotice e → IsQuiet (emit_if_synced e)
unfolding emit_if_synced
emit_if_synced-IsQuiet e n = record { at = λ c. cases c c.state }
  where
    cases :
        (c : Client) (s : State)
        → Leaves {0} c (elim s [
          | synced ↦ returned tt (record c { events = c.events ++ (e ∷ []) })
          | _ ↦ returned tt c
        ])
    cases c synced = reported e c n
    cases c connected = Follows-refl c
    cases c disconnected = Follows-refl c

pub ruleset quiet_rules = (
  pure-IsQuiet, throw-IsQuiet, panic-IsQuiet, if-IsQuiet, unmarshalled-IsQuiet, required-IsQuiet,
  some_or_throw-IsQuiet, some_or_unlock-IsQuiet, bind-IsQuiet, then-IsQuiet, world-IsQuiet,
  client-IsQuiet, set_world-IsQuiet, lock-IsQuiet, unlock-IsQuiet, emit-IsQuiet,
  emit_if_synced-IsQuiet, modify-IsQuiet,
)
