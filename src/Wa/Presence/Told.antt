-- ===== src/Wa/Presence/Told.antt =====
-- apps/daemon/wa/presence.go: the tracker and what the server has been told.
use zchat.Prelude.{
  String, ◌≡◌, refl, sym, ap, ◌∙◌, subst, Bool, true, false, List, [], ◌∷◌, Option, none, some,
  ◌==◌, eq_iff, same_bool, arith, if◌then◌else◌, Bool-cases, inl, inr,
}
use zchat.Wa.Presence.{
  Request, available, subscribes, typing_state, Line, reconnect, put, request, request_on,
  after_typing, after_subscription, with_typing, with_subscribed, with_available, after_available,
  presence_of, Outcome, subscribe_presence, set_typing, set_available, set_chat_presence,
  set_presence,
}

-- What the server holds the chat's typing state for, and whom and what it has been told of.
abbrev pub last_typing : String → List Request → Bool
last_typing c [] = false
last_typing c (typing_state d b ∷ rs) = if c == d then b else last_typing c rs
last_typing c (_ ∷ rs) = last_typing c rs

abbrev pub knows : String → List Request → Bool
knows k [] = false
knows k (subscribes d ∷ rs) = if k == d then true else knows k rs
knows k (_ ∷ rs) = knows k rs

abbrev pub was_available : List Request → Bool
was_available [] = false
was_available (available ∷ rs) = true
was_available (_ ∷ rs) = was_available rs

-- The tracker says what the server has been told, and no request is going to be refused.
pub record IsFaithful (l : Line) : Type 0 where
  pub typings : (c : String) → l.typing c ≡ last_typing c l.told
  pub subscriptions : (k : String) → l.subscribed k ≡ knows k l.told
  pub presence : l.is_available ≡ was_available l.told
  pub quiet : l.refusals ≡ []

pub reconnect-IsFaithful : (l : Line) → l.refusals ≡ [] → IsFaithful (reconnect l)
unfolding reconnect
reconnect-IsFaithful l h = record {
  typings = λ c. refl;
  subscriptions = λ k. refl;
  presence = refl;
  quiet = h;
}

request_quiet :
    (r : Request) (l : Line)
    → l.refusals ≡ []
    → request r l ≡ (true, record l { told = r ∷ l.told })
unfolding request
request_quiet r l h = ap (λ (bs : List Bool). request_on bs r l) h

put-same : (k : String) (v : Bool) (f : String → Bool) (x : String) → f k ≡ v → put k v f x ≡ f x
put-same k v f x h = elim (Bool-cases (x == k)) [
  | inl e ↦ rw (e, (eq_iff x k).0 e, h) refl
  | inr e ↦ rw e refl
]

pub if_true : {A : Type 0} (b : Bool) (x y : A) → b ≡ true → (if b then x else y) ≡ x
if_true b x y h = ap (λ (c : Bool). if c then x else y) h

pub if_false : {A : Type 0} (b : Bool) (x y : A) → b ≡ false → (if b then x else y) ≡ y
if_false b x y h = ap (λ (c : Bool). if c then x else y) h

-- A value that the map has already.
same-IsFaithful :
    (l : Line) (chat : String) (b : Bool)
    → IsFaithful l
    → same_bool (l.typing chat) b ≡ true
    → IsFaithful (with_typing chat b l)
same-IsFaithful l chat b h e = record {
  typings = λ c. put-same chat b l.typing c (ground arith) ∙ h.typings c;
  subscriptions = h.subscriptions;
  presence = h.presence;
  quiet = h.quiet;
}

set_typing-IsFaithful :
    (chat : String) (b : Bool) (l : Line) → IsFaithful l → IsFaithful (set_typing chat b l).1
unfolding set_typing
set_typing-IsFaithful chat b l h = elim (Bool-cases (same_bool (l.typing chat) b)) [
  | inl e ↦
      subst (λ (o : Outcome × Line). IsFaithful o.1) (sym (if_true _ _ _ e))
        (same-IsFaithful l chat b h e)
  | inr e ↦
      subst (λ (o : Outcome × Line). IsFaithful o.1)
        (sym (
          if_false _ _ _ e
          ∙ ap after_typing (request_quiet (typing_state chat b) (with_typing chat b l) h.quiet)))
        (record {
          typings = λ c. ap (λ (v : Bool). if c == chat then b else v) (h.typings c);
          subscriptions = h.subscriptions;
          presence = h.presence;
          quiet = h.quiet;
        })
]

subscribe_presence-IsFaithful :
    (key : String) (l : Line) → IsFaithful l → IsFaithful (subscribe_presence key l)
unfolding subscribe_presence
subscribe_presence-IsFaithful key l h = elim (Bool-cases (l.subscribed key)) [
  | inl e ↦ subst IsFaithful (sym (if_true _ _ _ e)) (record {
    typings = h.typings;
    subscriptions = λ k. put-same key true l.subscribed k e ∙ h.subscriptions k;
    presence = h.presence;
    quiet = h.quiet;
  })
  | inr e ↦
      subst IsFaithful
        (sym (
          if_false _ _ _ e
          ∙ ap (after_subscription key)
              (request_quiet (subscribes key) (with_subscribed key true l) h.quiet)))
        (record {
          typings = h.typings;
          subscriptions = λ k. ap (λ (v : Bool). if k == key then true else v) (h.subscriptions k);
          presence = h.presence;
          quiet = h.quiet;
        })
]

-- A part that lets SetPresence go on, with the tracker faithful.
abbrev IsFine : Bool × Line → Type 0
IsFine o = (o.0 ≡ true) × IsFaithful o.1

set_available-IsFine : (l : Line) → IsFaithful l → IsFine (set_available l)
unfolding set_available
set_available-IsFine l h = elim (Bool-cases l.is_available) [
  | inl e ↦ subst IsFine (sym (if_true _ _ _ e)) (
    refl,
    record {
      typings = h.typings;
      subscriptions = h.subscriptions;
      presence = sym e ∙ h.presence;
      quiet = h.quiet;
    },
  )
  | inr e ↦
      subst IsFine (sym (if_false _ _ _ e ∙ request_quiet available (with_available l) h.quiet)) (
        refl,
        record {
          typings = h.typings;
          subscriptions = h.subscriptions;
          presence = refl;
          quiet = h.quiet;
        },
      )
]

presence_of-IsFaithful :
    (o : Option (Option String)) (chat : String) (b a : Bool) (l : Line)
    → IsFaithful l
    → IsFaithful (presence_of o chat b a l).1
unfolding presence_of
presence_of-IsFaithful none chat b a l h = h
presence_of-IsFaithful (some none) chat b a l h = set_typing-IsFaithful chat b l h
presence_of-IsFaithful (some (some key)) chat b true l h =
    set_typing-IsFaithful chat b (subscribe_presence key l) (subscribe_presence-IsFaithful key l h)
presence_of-IsFaithful (some (some key)) chat b false l h = set_typing-IsFaithful chat b l h

module _ (contact : String → Option (Option String)) where
  set_chat_presence-IsFaithful :
      (chat : String) (b a : Bool) (l : Line)
      → IsFaithful l
      → IsFaithful (set_chat_presence contact chat b a l).1
  unfolding set_chat_presence
  set_chat_presence-IsFaithful chat b a l h = elim (Bool-cases (chat == "")) [
    | inl e ↦ subst (λ (o : Outcome × Line). IsFaithful o.1) (sym (if_true _ _ _ e)) h
    | inr e ↦
        subst (λ (o : Outcome × Line). IsFaithful o.1) (sym (if_false _ _ _ e))
          (presence_of-IsFaithful (contact chat) chat b a l h)
  ]

  after_available-IsFaithful :
      (chat : String) (b a : Bool) (o : Bool × Line)
      → IsFine o
      → IsFaithful (after_available contact chat b a o).1
  after_available-IsFaithful chat b a (true, l) h = set_chat_presence-IsFaithful chat b a l h.1
  after_available-IsFaithful chat b a (false, l) h = h.1

  -- While the client refuses no request, the tracker agrees with what the server has been told of
  -- this connection: SetPresence keeps each typing state, each subscription and the availability.
  pub set_presence-IsFaithful :
      (logged_in : Bool) (chat : String) (b a : Bool) (l : Line)
      → IsFaithful l
      → IsFaithful (set_presence contact logged_in chat b a l).1
  unfolding set_presence
  set_presence-IsFaithful false chat b a l h = h
  set_presence-IsFaithful true chat b true l h =
      after_available-IsFaithful chat b true (set_available l) (set_available-IsFine l h)
  set_presence-IsFaithful true chat b false l h =
      after_available-IsFaithful chat b false (true, l) (refl, h)
