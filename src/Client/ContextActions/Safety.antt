-- ===== src/Client/ContextActions/Safety.antt =====
-- How handleContextActionModify ends, with a map and without one.
use gumble.Prelude.{
  ℕ, ◌≡◌, ◌∙◌, refl, false, Option, none, some, List, ◌∷◌, ◌==◌, if_cases, none-some,
}
use gumble.Client.{Client, Text, Bytes, ContextAction, action_added}
use gumble.Client.Monad.{
  M, ◌>>=◌, ◌>>◌, pure, panic, panicked, returned, client, modify, unmarshalled-some, lock_free,
  some_or_throw-some,
}
use gumble.Client.Sound.{
  IsIdle, IsBusy, Ends, unmarshalled-Ends, some_or_throw-Ends, some_or_unlock-Ends, lock-Ends,
  unlock-Ends, emit_last-Ends, pure-Ends,
}
use gumble.Client.UserRemove.{text_or_empty}
use gumble.Client.Notices.{or_zero}
use gumble.Client.ContextActions.{
  ContextActionModify, find_action, create_action, Change, add_action, remove_action, modify_action,
  report, handle_context_action_modify,
}

create_action-some :
    (a : ContextAction) (c : Client) {as' : List ContextAction}
    → c.context_actions ≡ some as'
    → create_action a c ≡ returned tt (record c { context_actions = some (a ∷ as') })
unfolding create_action client modify ◌>>=◌
create_action-some a c e = rw e

-- Between the steps: nothing but the map of actions may have changed.
module _ {κ μ} {B : Type κ} {Q : B → Client → Type μ} (f : Change → M B) (c : Client)
    (busy : IsBusy c) where
  add_action-Ends :
      (name : Text) (p : ContextActionModify) (o : Option ContextAction) (as' : List ContextAction)
      → c.context_actions ≡ some as'
      → ((h : Change) (bs : Option (List ContextAction))
          → Ends Q (f h (record c { context_actions = bs })))
      → Ends Q ((add_action name p o >>= f) c)
  unfolding ◌>>=◌ ◌>>◌ add_action pure
  add_action-Ends name p (some a) as' e k = k none c.context_actions
  add_action-Ends name p none as' e k =
      let a : ContextAction = record {
        type = or_zero p.context;
        name = name;
        label = text_or_empty p.text;
      } in
      rw (create_action-some a c e, ◌>>=◌, ◌>>◌) (k (some (action_added, a)) (some (a ∷ as')))

  remove_action-Ends :
      (name : Text) (o : Option ContextAction)
      → ((h : Change) (bs : Option (List ContextAction))
          → Ends Q (f h (record c { context_actions = bs })))
      → Ends Q ((remove_action name o >>= f) c)
  unfolding ◌>>=◌ ◌>>◌ remove_action modify pure
  remove_action-Ends name none k = k none c.context_actions
  remove_action-Ends name (some a) k = k _ _

  modify_action-Ends :
      (name : Text) (p : ContextActionModify) (op : ℕ) (as' : List ContextAction)
      → c.context_actions ≡ some as'
      → ((h : Change) (bs : Option (List ContextAction))
          → Ends Q (f h (record c { context_actions = bs })))
      → Ends Q ((modify_action name p op >>= f) c)
  unfolding ◌>>=◌ modify_action client
  modify_action-Ends name p op as' e k =
      if_cases (λ m. Ends Q ((m >>= f) c)) (op == 0) _ _ (λ _. add_action-Ends name p _ as' e k)
        λ _.
          if_cases (λ m. Ends Q ((m >>= f) c)) (op == 1) _ _ (λ _. remove_action-Ends name _ k)
            λ _. some_or_unlock-Ends none f c busy (λ a q. absurd (none-some a q))

report-Ends : (h : Change) (c : Client) → IsIdle c → Ends (λ _ d. IsIdle d) (report h c)
unfolding report
report-Ends none c i = pure-Ends tt c i
report-Ends (some (t, a)) c i = emit_last-Ends _ c i

-- On an idle client with a map of context actions handleContextActionModify returns or gives an error,
-- it neither panics nor blocks, and the client is idle again.
pub handle_context_action_modify-Ends :
    (unmarshal : Bytes → Option ContextActionModify) (buffer : Bytes) (c : Client)
    (as' : List ContextAction)
    → IsIdle c
    → c.context_actions ≡ some as'
    → Ends (λ _ d. IsIdle d) (handle_context_action_modify unmarshal buffer c)
unfolding handle_context_action_modify
handle_context_action_modify-Ends unmarshal buffer c as' i e =
    unmarshalled-Ends unmarshal buffer _ c i λ p _. some_or_throw-Ends _ p.action _ c i λ name _.
      some_or_throw-Ends _ p.operation _ c i λ op _. lock-Ends _ c i.free (
        modify_action-Ends _ _ (record { held = refl; consistent = i.consistent }) name p op as' e
          λ h bs.
            unlock-Ends _ _ refl
              (report-Ends h _ (record { free = refl; consistent = i.consistent })))

-- On a client without a map, as DialWithDialer makes it, every packet that adds an action panics.
handle_context_action_modify_panics :
    (unmarshal : Bytes → Option ContextActionModify) (buffer : Bytes) (c : Client)
    (p : ContextActionModify) (name : Text)
    → unmarshal buffer ≡ some p
    → p.action ≡ some name
    → p.operation ≡ some 0
    → c.locked ≡ false
    → c.context_actions ≡ none
    → handle_context_action_modify unmarshal buffer c ≡ panicked
unfolding handle_context_action_modify
handle_context_action_modify_panics unmarshal buffer c p name e en eo free nil =
    unmarshalled-some unmarshal buffer _ c e
    ∙ some_or_throw-some _ p.action _ c en
    ∙ some_or_throw-some _ p.operation _ c eo
    ∙ lock_free _ c free
    ∙ unfold ◌>>=◌ ◌>>◌ modify_action client add_action find_action create_action panic in rw nil
