-- ===== src/Client/Monad.antt =====
-- What a handler does: it returns, it returns an error, it panics, or it blocks for ever on a mutex
-- that its own goroutine holds.
use gumble.Prelude.{◌≡◌, refl, true, false, Option, none, some, [], ◌∷◌, ◌++◌, if◌then◌else◌}
use gumble.Client.{Client, World, Event, Bytes, synced}

pub data Error : Type 0 where
  unimplemented_handler incomplete_protobuf invalid_protobuf unsupported_audio no_codec : Error
  -- `proto.Unmarshal` refuses the buffer.
  unmarshal_error : Error
  -- An audio decoder refuses its data.
  decoder_error : Error

pub data Outcome {ℓ} (A : Type ℓ) : Type ℓ where
  returned : A → Client → Outcome A
  failed : Error → Client → Outcome A
  panicked : Outcome A
  blocked : Outcome A

abbrev pub M {ℓ} : Type ℓ → Type ℓ
M A = Client → Outcome A

infixl 5 ◌>>=◌ ◌>>◌
unfoldable pub ◌>>=◌ {ℓ κ} : {A : Type ℓ} {B : Type κ} → M A → (A → M B) → M B
◌>>=◌ m f c = elim (m c) [
  | returned a d ↦ f a d
  | failed e d ↦ failed e d
  | panicked ↦ panicked
  | blocked ↦ blocked
]

unfoldable pub ◌>>◌ {ℓ} : {B : Type ℓ} → M (Unit {0}) → M B → M B
unfolding ◌>>=◌
m >> k = m >>= λ _. k

unfoldable pub pure {ℓ} : {A : Type ℓ} → A → M A
pure a c = returned a c

unfoldable pub throw {ℓ} : {A : Type ℓ} → Error → M A
throw e c = failed e c

-- A nil pointer is read.
unfoldable pub panic {ℓ} : {A : Type ℓ} → M A
panic c = panicked

-- `c.volatile.Lock()` and `c.volatile.Unlock()`.
unfoldable pub lock : M (Unit {0})
lock c = if c.locked then blocked else returned tt (record c { locked = true })

unfoldable pub unlock : M (Unit {0})
unlock c = if c.locked then returned tt (record c { locked = false }) else panicked

-- The value, or unlock and return an error.
unfoldable pub some_or_unlock {ℓ} : {A : Type ℓ} → Option A → M A
unfolding pure throw unlock ◌>>◌
some_or_unlock (some a) = pure a
some_or_unlock none = unlock >> throw invalid_protobuf

unfoldable pub world : M World
world c = returned c.world c

unfoldable pub set_world : World → M (Unit {0})
set_world w c = returned tt (record c { world = w })

unfoldable pub client : M Client
client c = returned c c

unfoldable pub modify : (Client → Client) → M (Unit {0})
modify f c = returned tt (f c)

-- The value, or an error; the mutex is not held.
unfoldable pub some_or_throw {ℓ} : {A : Type ℓ} → Error → Option A → M A
unfolding pure throw
some_or_throw e (some a) = pure a
some_or_throw e none = throw e

-- `c.Config.Listeners.on…(&event)`
unfoldable pub emit : Event → M (Unit {0})
emit e c = returned tt (record c { events = c.events ++ (e ∷ []) })

-- `if c.State() == StateSynced { c.Config.Listeners.on…(&event) }`
unfoldable pub emit_if_synced : Event → M (Unit {0})
emit_if_synced e c = elim c.state [
  | synced ↦ returned tt (record c { events = c.events ++ (e ∷ []) })
  | _ ↦ returned tt c
]

-- `proto.Unmarshal(buffer, &packet)`, which is code of another project: `none` is an error.
unfoldable pub unmarshalled {ℓ} : {P : Type ℓ} → (Bytes → Option P) → Bytes → M P
unfolding pure throw
unmarshalled unmarshal buffer = elim (unmarshal buffer) [
  | some packet ↦ pure packet
  | none ↦ throw unmarshal_error
]

-- A required field of a packet.
unfoldable pub required {ℓ} : {A : Type ℓ} → Option A → M A
unfolding pure throw
required (some a) = pure a
required none = throw incomplete_protobuf

-- A step that goes well, as an equation.
module _ {ℓ κ} {A : Type ℓ} {B : Type κ} where
  pub unmarshalled-some :
      (unmarshal : Bytes → Option A) (buffer : Bytes) (f : A → M B) (c : Client) {p : A}
      → unmarshal buffer ≡ some p
      → (unmarshalled unmarshal buffer >>= f) c ≡ f p c
  unfolding ◌>>=◌ unmarshalled
  unmarshalled-some unmarshal buffer f c e = rw (e, unmarshalled, ◌>>=◌)

  pub required-some :
      (o : Option A) (f : A → M B) (c : Client) {a : A} → o ≡ some a → (required o >>= f) c ≡ f a c
  unfolding ◌>>=◌ required
  required-some o f c e = rw (e, required, ◌>>=◌)

  pub some_or_unlock-some :
      (o : Option A) (f : A → M B) (c : Client) {a : A}
      → o ≡ some a
      → (some_or_unlock o >>= f) c ≡ f a c
  unfolding ◌>>=◌ some_or_unlock
  some_or_unlock-some o f c e = rw (e, some_or_unlock, ◌>>=◌)

  pub some_or_throw-some :
      (e : Error) (o : Option A) (f : A → M B) (c : Client) {a : A}
      → o ≡ some a
      → (some_or_throw e o >>= f) c ≡ f a c
  unfolding ◌>>=◌ some_or_throw
  some_or_throw-some e o f c eq = rw (eq, some_or_throw, ◌>>=◌)

  pub bind_returned :
      (m : M A) (f : A → M B) (c : Client) {a : A} {d : Client}
      → m c ≡ returned a d
      → (m >>= f) c ≡ f a d
  unfolding ◌>>=◌
  bind_returned m f c e = rw (e, ◌>>=◌)

module _ {κ} {B : Type κ} where
  pub then_returned :
      (m : M (Unit {0})) (k : M B) (c : Client) {d : Client}
      → m c ≡ returned tt d
      → (m >> k) c ≡ k d
  unfolding ◌>>◌
  then_returned m k c e = bind_returned m (λ _. k) c e

  pub lock_free :
      (m : M B) (c : Client) → c.locked ≡ false → (lock >> m) c ≡ m (record c { locked = true })
  unfolding ◌>>◌ lock
  lock_free m c e = rw (e, lock, ◌>>◌)

  pub unlock_held :
      (m : M B) (c : Client) → c.locked ≡ true → (unlock >> m) c ≡ m (record c { locked = false })
  unfolding ◌>>◌ unlock
  unlock_held m c e = rw (e, unlock, ◌>>◌)

  pub world_read : (f : World → M B) (c : Client) → (world >>= f) c ≡ f c.world c
  unfolding ◌>>=◌ world
  world_read f c = refl

  pub set_world_then :
      (w : World) (m : M B) (c : Client) → (set_world w >> m) c ≡ m (record c { world = w })
  unfolding ◌>>◌ set_world
  set_world_then w m c = refl
