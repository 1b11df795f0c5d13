-- ===== src/Wa/Presence/Forgotten.antt =====
-- apps/daemon/wa/presence.go: what a refused request leaves in the tracker.
use zchat.Prelude.{
  String, ◌≡◌, refl, ap, ◌∙◌, Bool, true, false, List, [], ◌∷◌, Option, none, some, ◌==◌, same_bool,
  Bool-cases, inl, inr,
}
use zchat.Wa.Presence.{
  available, subscribes, typing_state, Line, request, request_on, after_typing, after_subscription,
  with_typing, with_subscribed, with_available, after_available, presence_of, Outcome,
  presence_failed, subscribe_presence, set_typing, set_available, set_chat_presence, set_presence,
}
use zchat.Wa.Presence.Told.{was_available, if_true, if_false}

typing_kept :
    (bs : List Bool) (chat : String) (b : Bool) (l : Line)
    → was_available (after_typing (request_on bs (typing_state chat b) l)).1.told
      ≡ was_available l.told
typing_kept [] chat b l = refl
typing_kept (true ∷ bs) chat b l = refl
typing_kept (false ∷ bs) chat b l = refl

subscription_kept :
    (bs : List Bool) (key : String) (l : Line)
    → was_available (after_subscription key (request_on bs (subscribes key) l)).told
      ≡ was_available l.told
subscription_kept [] key l = refl
subscription_kept (true ∷ bs) key l = refl
subscription_kept (false ∷ bs) key l = refl

set_typing_kept :
    (chat : String) (b : Bool) (l : Line)
    → was_available (set_typing chat b l).1.told ≡ was_available l.told
unfolding set_typing request
set_typing_kept chat b l = elim (Bool-cases (same_bool (l.typing chat) b)) [
  | inl e ↦ ap (λ (o : Outcome × Line). was_available o.1.told) (if_true _ _ _ e)
  | inr e ↦
      ap (λ (o : Outcome × Line). was_available o.1.told) (if_false _ _ _ e)
      ∙ typing_kept l.refusals chat b (with_typing chat b l)
]

subscribe_kept :
    (key : String) (l : Line) → was_available (subscribe_presence key l).told ≡ was_available l.told
unfolding subscribe_presence request
subscribe_kept key l = elim (Bool-cases (l.subscribed key)) [
  | inl e ↦ ap (λ (m : Line). was_available m.told) (if_true _ _ _ e)
  | inr e ↦
      ap (λ (m : Line). was_available m.told) (if_false _ _ _ e)
      ∙ subscription_kept l.refusals key (with_subscribed key true l)
]

presence_of_kept :
    (o : Option (Option String)) (chat : String) (b a : Bool) (l : Line)
    → was_available (presence_of o chat b a l).1.told ≡ was_available l.told
unfolding presence_of
presence_of_kept none chat b a l = refl
presence_of_kept (some none) chat b a l = set_typing_kept chat b l
presence_of_kept (some (some key)) chat b true l =
    set_typing_kept chat b (subscribe_presence key l) ∙ subscribe_kept key l
presence_of_kept (some (some key)) chat b false l = set_typing_kept chat b l

module _ (contact : String → Option (Option String)) where
  set_chat_presence_kept :
      (chat : String) (b a : Bool) (l : Line)
      → was_available (set_chat_presence contact chat b a l).1.told ≡ was_available l.told
  unfolding set_chat_presence
  set_chat_presence_kept chat b a l = elim (Bool-cases (chat == "")) [
    | inl e ↦ ap (λ (o : Outcome × Line). was_available o.1.told) (if_true _ _ _ e)
    | inr e ↦
        ap (λ (o : Outcome × Line). was_available o.1.told) (if_false _ _ _ e)
        ∙ presence_of_kept (contact chat) chat b a l
  ]

  available_kept :
      (chat : String) (b : Bool) (l : Line)
      → l.is_available ≡ true
      → was_available (set_presence contact true chat b true l).1.told ≡ was_available l.told
  unfolding set_presence set_available
  available_kept chat b l e =
      ap (λ (o : Bool × Line). was_available (after_available contact chat b true o).1.told)
        (if_true _ _ _ e)
      ∙ set_chat_presence_kept chat b true (with_available l)

  refused_once :
      (chat : String) (b : Bool) (l : Line) (bs : List Bool)
      → l.is_available ≡ false
      → l.refusals ≡ true ∷ bs
      → set_presence contact true chat b true l
        ≡ (presence_failed, record (with_available l) { refusals = bs })
  unfolding set_presence set_available request
  refused_once chat b l bs e f =
      ap (after_available contact chat b true)
        (if_false _ _ _ e ∙ ap (λ (rs : List Bool). request_on rs available (with_available l)) f)

  -- If the client refuses the request that reports the user online, SetPresence fails, but the
  -- tracker remembers the user as online: the next call does not report it either.
  pub set_presence-forgotten :
      (chat : String) (b : Bool) (l : Line) (bs : List Bool)
      → l.is_available ≡ false
      → l.refusals ≡ true ∷ bs
      → (set_presence contact true chat b true l
          ≡ (presence_failed, record (with_available l) { refusals = bs }))
        × (was_available
              (set_presence contact true chat b true
                (set_presence contact true chat b true l).1).1.told
            ≡ was_available l.told)
  set_presence-forgotten chat b l bs e f = (
    refused_once chat b l bs e f,
    ap (λ (o : Outcome × Line). was_available (set_presence contact true chat b true o.1).1.told)
          (refused_once chat b l bs e f)
        ∙ available_kept chat b (record (with_available l) { refusals = bs }) refl,
  )
