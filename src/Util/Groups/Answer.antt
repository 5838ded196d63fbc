-- ===== src/Util/Groups/Answer.antt =====
-- What is sent to the caller of UserGroups, and when.
use gumble.Prelude.{
  ℕ, ◌≡◌, ◌≢◌, ◌⊎◌, ◌∙◌, refl, ap, Bool, true, false, ◌&&◌, ◌||◌, Option, none, some, List, [], ◌∷◌,
  ◌==◌, bit_and, if◌then◌else◌, Bool-cases, Option-cases, inl, inr, arith,
}
use gumble.Map
use gumble.Map.{Map}
use gumble.Client.{
  Text, Event, AclGroup, AclUser, channel_change, permission_denied, disconnect, acl,
}
use gumble.Client.ChannelState.{ref_eq}
use gumble.Client.UserState.{has}
use gumble.Client.ChannelChange
use gumble.Util.{notify}
use gumble.Util.Groups.{
  Groups, close_groups, has_user, belongs, names_of, on_removal, on_denial, on_groups,
  groups_listener, request_groups, deliver,
}

-- The answer that an event is: the names, no names, or none.
pub data Answer : Type 0 where
  names : List Text → Answer
  nothing : Answer
  no_answer : Answer

-- A member of a group is added to it or inherited into it, and not removed from it.
abbrev pub IsMember : ℕ → AclGroup → Type 0
IsMember id g =
    (Map.get g.users_remove id ≡ none)
    × ((Map.get g.users_add id ≢ none) ⊎ (Map.get g.users_inherited id ≢ none))

-- The names of the groups that the user is a member of, in their order.
pub data AreNames (id : ℕ) : List AclGroup → List Text → Type 0 where
  no_groups : AreNames id [] []
  member :
      {g : AclGroup} {gs : List AclGroup} {l : List Text}
      → IsMember id g
      → AreNames id gs l
      → AreNames id (g ∷ gs) (g.name ∷ l)
  not_member :
      {g : AclGroup} {gs : List AclGroup} {l : List Text}
      → ¬ IsMember id g
      → AreNames id gs l
      → AreNames id (g ∷ gs) l

-- What answers a request about a channel: the end of the connection or of the channel, the denial of
-- permission 1, to write, there, or the ACL of the channel.
abbrev pub Answers : ℕ → ℕ → Event → Answer → Type 0
Answers channel id (disconnect t) a = a ≡ nothing
Answers channel id (channel_change e) a =
    (e.channel ≡ some channel)
    × (bit_and e.type ChannelChange.removed ≡ ChannelChange.removed)
    × (a ≡ nothing)
Answers channel id (permission_denied e) a =
    (e.channel ≡ some channel) × (e.type ≡ 1) × (bit_and e.permission 1 ≢ 0) × (a ≡ nothing)
Answers channel id (acl x) a =
    (x.channel ≡ channel) × ((l : List Text) × AreNames id x.groups l × (a ≡ names l))
Answers channel id _ a = ⊥

-- The first event that is an answer decides.
pub data FirstAnswer (channel : ℕ) : List (ℕ × Event) → Answer → Type 0 where
  no_event : FirstAnswer channel [] no_answer
  now :
      {id : ℕ} {e : Event} {es : List (ℕ × Event)} {a : Answer}
      → Answers channel id e a
      → FirstAnswer channel ((id, e) ∷ es) a
  later :
      {id : ℕ} {e : Event} {es : List (ℕ × Event)} {a : Answer}
      → ((b : Answer) → ¬ Answers channel id e b)
      → FirstAnswer channel es a
      → FirstAnswer channel ((id, e) ∷ es) a

abbrev pub outcome : Answer → Groups
outcome (names l) = record { attached = false; closed = true; sent = l ∷ []; failed = false }
outcome nothing = record { attached = false; closed = true; sent = []; failed = false }
outcome no_answer = record { attached = true; closed = false; sent = []; failed = false }

skip : (b : Bool) (x s : Groups) → b ≡ false → (if b then x else s) ≡ s
skip true x s h = absurd cc
skip false x s h = refl

ignored :
    (channel : ℕ) (es : List (ℕ × Event)) (s : Groups)
    → s.attached ≡ false
    → deliver channel es s ≡ s
unfolding deliver
ignored channel [] s h = refl
ignored channel ((id, e) ∷ es) s h =
    ap (deliver channel es) (skip s.attached _ s h) ∙ ignored channel es s h

has_user-none : (m : Map AclUser) (id : ℕ) → has_user m id ≡ false → Map.get m id ≡ none
has_user-none m id e = elim (Option-cases (Map.get m id)) [
  | inl n ↦ n
  | inr (u, q) ↦ absurd (let no = rw (q, has_user) at e in cc)
]

has_user-some : (m : Map AclUser) (id : ℕ) → has_user m id ≡ true → Map.get m id ≢ none
has_user-some m id e n = absurd (let no = rw (n, has_user) at e in cc)

no_and : (b : Bool) → b && false ≡ false
no_and true = refl
no_and false = refl

IsMember-cases :
    (id : ℕ) (g : AclGroup)
    → ((belongs id g ≡ true) × IsMember id g) ⊎ ((belongs id g ≡ false) × ¬ IsMember id g)
IsMember-cases id g = elim (Bool-cases (has_user g.users_remove id)) [
  | inl r ↦ inr (
    rw r (no_and (has_user g.users_add id || has_user g.users_inherited id)),
    λ m. has_user-some g.users_remove id r m.0,
  )
  | inr r ↦ elim (Bool-cases (has_user g.users_add id)) [
    | inl a ↦ inl (rw (a, r) refl, (has_user-none _ id r, inl (has_user-some _ id a)))
    | inr a ↦ elim (Bool-cases (has_user g.users_inherited id)) [
      | inl h ↦ inl (rw (a, h, r) refl, (has_user-none _ id r, inr (has_user-some _ id h)))
      | inr h ↦ inr (
        rw (a, h) refl,
        λ m. elim m.1 [ inl x ↦ x (has_user-none _ id a) | inr x ↦ x (has_user-none _ id h) ],
      )
    ]
  ]
]

names_of-AreNames : (id : ℕ) (gs : List AclGroup) → AreNames id gs (names_of id gs)
unfolding names_of
names_of-AreNames id [] = no_groups
names_of-AreNames id (g ∷ gs) = elim (IsMember-cases id g) [
  | inl (b, m) ↦ rw b (member m (names_of-AreNames id gs))
  | inr (b, m) ↦ rw b (not_member m (names_of-AreNames id gs))
]

-- An event is an answer, and the listener does what is due, or it is none, and the listener waits.
abbrev Handled : ℕ → ℕ → Event → Type 0
Handled channel id e =
    ((a : Answer) × Answers channel id e a
      × ((outcome a).attached ≡ false)
      × (notify (groups_listener id channel) e (outcome no_answer) ≡ outcome a))
    ⊎ (((a : Answer) → ¬ Answers channel id e a)
        × (notify (groups_listener id channel) e (outcome no_answer) ≡ outcome no_answer))

ref_cases :
    (o : Option ℕ) (c : ℕ)
    → ((ref_eq o (some c) ≡ true) × (o ≡ some c)) ⊎ ((ref_eq o (some c) ≡ false) × (o ≢ some c))
ref_cases none c = inr (refl, λ e. cc)
ref_cases (some b) c = elim (Bool-cases (b == c)) [
  | inl e ↦ inl (e, ap some (ground (arith, e)))
  | inr e ↦ inr (e, λ q. let same : b ≡ c = cc in ground (arith, e, same))
]

answered : (channel id : ℕ) (e : Event) → Handled channel id e
unfolding notify groups_listener close_groups on_removal on_denial on_groups
answered channel id (disconnect t) = inl (nothing, refl, refl, refl)
answered channel id (channel_change e) = elim (ref_cases e.channel channel) [
  | inr (q, n) ↦ inr ((λ a h. n h.0), rw q refl)
  | inl (q, c) ↦ elim (Bool-cases (has e.type ChannelChange.removed)) [
    | inl r ↦ inl (nothing, (c, ground (arith, r), refl), refl, rw (q, r) refl)
    | inr r ↦ inr ((λ a h. ground (arith, r, h.1)), rw (q, r) refl)
  ]
]
answered channel id (permission_denied e) = elim (ref_cases e.channel channel) [
  | inr (q, n) ↦ inr ((λ a h. n h.0), rw q refl)
  | inl (q, c) ↦ elim (Bool-cases (e.type == 1)) [
    | inr t ↦ inr ((λ a h. ground (arith, t, h.1)), rw (q, t) refl)
    | inl t ↦ elim (Bool-cases (bit_and e.permission 1 == 0)) [
      | inl b ↦ inr ((λ a h. h.2 (ground (arith, b))), rw (q, t, b) refl)
      | inr b ↦ inl (
        nothing,
        (c, ground (arith, t), (λ z. ground (arith, b, z)), refl),
        refl,
        rw (q, t, b) refl,
      )
    ]
  ]
]
answered channel id (acl x) = elim (Bool-cases (x.channel == channel)) [
  | inl q ↦ inl (
    names (names_of id x.groups),
    (ground (arith, q), (names_of id x.groups, names_of-AreNames id x.groups, refl)),
    refl,
    rw q refl,
  )
  | inr q ↦ inr ((λ a h. ground (arith, q, h.0)), rw q refl)
]
answered channel id _ = inr ((λ a h. h), refl)

-- For a registered user, whatever the events are: until the first answer the listener waits and the
-- channel is open. The first answer decides: the listener is detached and the channel closed, once,
-- and before that the names are sent, if the answer is an ACL: those of the groups to which the user
-- is added or inherited, without those from which he is removed.
pub deliver-FirstAnswer :
    (channel : ℕ) (es : List (ℕ × Event))
    → (a : Answer) × FirstAnswer channel es a
      × (deliver channel es (request_groups true) ≡ outcome a)
unfolding request_groups deliver
deliver-FirstAnswer channel [] = (no_answer, no_event, refl)
deliver-FirstAnswer channel ((id, e) ∷ es) = elim (answered channel id e) [
  | inl (a, h, d, q) ↦ (a, now h, rw q (ignored channel es _ d))
  | inr (none_fits, q) ↦
      let (a, f, r) = deliver-FirstAnswer channel es in (a, later none_fits f, rw q r)
]
