-- ===== src/Client/Sound.antt =====
-- What it means that a handler does no harm, and the rules that prove it step by step.
use gumble.Prelude.{
  [], ◌∷◌, ◌++◌, ◌≡◌, refl, true, false, Option, none, some, ◌⊎◌, Option-cases, inl, inr,
}
use gumble.Client.{Client, World, Bytes, Event, State, synced, connected, disconnected}
use gumble.Client.Monad.{
  client, modify, emit, some_or_throw, throw, pure, M, Outcome, returned, failed, ◌>>=◌, ◌>>◌, lock,
  unlock, world, set_world, emit_if_synced, unmarshalled, required, some_or_unlock, Error,
}
use gumble.Client.Consistent.{Consistent}

-- Between two packets the mutex is free and the graph is consistent.
pub record IsIdle (c : Client) : Type 0 where
  pub free : c.locked ≡ false
  pub consistent : Consistent c.world

-- Inside the critical section.
pub record IsBusy (c : Client) : Type 0 where
  pub held : c.locked ≡ true
  pub consistent : Consistent c.world

-- The call comes back, and leaves the client idle if it gives an error. There is no case for a panic
-- or a deadlock.
pub data Ends {ℓ κ} {A : Type ℓ} (P : A → Client → Type κ) : Outcome A → Type (ℓ ⊔ κ) where
  well : {a : A} {d : Client} → P a d → Ends P (returned a d)
  with_error : {e : Error} {d : Client} → IsIdle d → Ends P (failed e d)

-- The rules for the steps of a handler: what has to be shown of the rest.
module _ {ℓ κ μ} {A : Type ℓ} {B : Type κ} {Q : B → Client → Type μ} where
  pub unmarshalled-Ends :
      (unmarshal : Bytes → Option A) (buffer : Bytes) (f : A → M B) (c : Client)
      → IsIdle c
      → ((p : A) → unmarshal buffer ≡ some p → Ends Q (f p c))
      → Ends Q ((unmarshalled unmarshal buffer >>= f) c)
  unfolding ◌>>=◌ unmarshalled
  unmarshalled-Ends unmarshal buffer f c i k = elim (Option-cases (unmarshal buffer)) [
    | inl e ↦ rw (e, ◌>>=◌, unmarshalled) (with_error i)
    | inr (p, e) ↦ rw (e, ◌>>=◌, unmarshalled) (k p e)
  ]

  pub required-Ends :
      (o : Option A) (f : A → M B) (c : Client)
      → IsIdle c
      → ((a : A) → o ≡ some a → Ends Q (f a c))
      → Ends Q ((required o >>= f) c)
  unfolding ◌>>=◌ required
  required-Ends none f c i k = with_error i
  required-Ends (some a) f c i k = k a refl

  pub some_or_unlock-Ends :
      (o : Option A) (f : A → M B) (c : Client)
      → IsBusy c
      → ((a : A) → o ≡ some a → Ends Q (f a c))
      → Ends Q ((some_or_unlock o >>= f) c)
  unfolding ◌>>=◌ some_or_unlock
  some_or_unlock-Ends none f c b k =
      rw (b.held, ◌>>=◌, ◌>>◌, unlock)
        (with_error (record { free = refl; consistent = b.consistent }))
  some_or_unlock-Ends (some a) f c b k = k a refl

  pub some_or_throw-Ends :
      (e : Error) (o : Option A) (f : A → M B) (c : Client)
      → IsIdle c
      → ((a : A) → o ≡ some a → Ends Q (f a c))
      → Ends Q ((some_or_throw e o >>= f) c)
  unfolding ◌>>=◌ some_or_throw
  some_or_throw-Ends e none f c i k = with_error i
  some_or_throw-Ends e (some a) f c i k = k a refl

module _ {κ μ} {B : Type κ} {Q : B → Client → Type μ} where
  pub lock-Ends :
      (m : M B) (c : Client)
      → c.locked ≡ false
      → Ends Q (m (record c { locked = true }))
      → Ends Q ((lock >> m) c)
  unfolding ◌>>◌ lock
  lock-Ends m c e k = rw (e, ◌>>◌, lock) k

  pub unlock-Ends :
      (m : M B) (c : Client)
      → c.locked ≡ true
      → Ends Q (m (record c { locked = false }))
      → Ends Q ((unlock >> m) c)
  unfolding ◌>>◌ unlock
  unlock-Ends m c e k = rw (e, ◌>>◌, unlock) k

  pub world-Ends : (f : World → M B) (c : Client) → Ends Q (f c.world c) → Ends Q ((world >>= f) c)
  unfolding ◌>>=◌ world
  world-Ends f c k = k

  pub set_world-Ends :
      (w : World) (m : M B) (c : Client)
      → Ends Q (m (record c { world = w }))
      → Ends Q ((set_world w >> m) c)
  unfolding ◌>>◌ set_world
  set_world-Ends w m c k = k

  pub client-Ends : (f : Client → M B) (c : Client) → Ends Q (f c c) → Ends Q ((client >>= f) c)
  unfolding ◌>>=◌ client
  client-Ends f c k = k

  pub modify-Ends :
      (g : Client → Client) (m : M B) (c : Client) → Ends Q (m (g c)) → Ends Q ((modify g >> m) c)
  unfolding ◌>>◌ ◌>>=◌ modify
  modify-Ends g m c k = k

  pub emit-Ends :
      (e : Event) (m : M B) (c : Client)
      → Ends Q (m (record c { events = c.events ++ (e ∷ []) }))
      → Ends Q ((emit e >> m) c)
  unfolding ◌>>◌ ◌>>=◌ emit
  emit-Ends e m c k = k

pub State-cases : (s : State) → (s ≡ synced) ⊎ ((s ≡ connected) ⊎ (s ≡ disconnected))
State-cases synced = inl refl
State-cases connected = inr (inl refl)
State-cases disconnected = inr (inr refl)

-- The events go to the listeners only from the synced state on.
pub emit_if_synced-Ends :
    (e : Event) (c : Client) → IsIdle c → Ends (λ _ d. IsIdle d) (emit_if_synced e c)
unfolding emit_if_synced
emit_if_synced-Ends e c i = elim (State-cases c.state) [
  | inl s ↦ rw (s, emit_if_synced) (well (record { free = i.free; consistent = i.consistent }))
  | inr (inl s) ↦ rw (s, emit_if_synced) (well i)
  | inr (inr s) ↦ rw (s, emit_if_synced) (well i)
]

-- A handler that ends by reporting an event, or by a change of what is neither lock nor graph.
pub emit_last-Ends : (e : Event) (c : Client) → IsIdle c → Ends (λ _ d. IsIdle d) (emit e c)
unfolding emit
emit_last-Ends e c i = well (record { free = i.free; consistent = i.consistent })

pub throw-Ends {ℓ κ} :
    {A : Type ℓ} {Q : A → Client → Type κ} (e : Error) (c : Client)
    → IsIdle c
    → Ends Q (throw {A = A} e c)
unfolding throw
throw-Ends e c i = with_error i

pub pure-Ends {ℓ} : {A : Type ℓ} (a : A) (c : Client) → IsIdle c → Ends (λ _ d. IsIdle d) (pure a c)
unfolding pure
pure-Ends a c i = well i
