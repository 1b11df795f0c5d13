-- ===== src/Service/Broker/Stream.antt =====
-- apps/daemon/service/broker.go: any sequence of its steps, and the stream of one client.
use zchat.Prelude.{
  append-nil, ℕ, ◌<◌, ◌≡◌, refl, sym, ap, ◌∙◌, ◌&&◌, List, [], ◌∷◌, ◌++◌, Option, none, some,
  length, ltb, eqb, arith, if◌then◌else◌, Bool-cases, inl, inr,
}
use mathlib.Core.List.{append_assoc}
use zchat.Service.Broker.{
  subscriber_buffer, Channel, Broker, subscribe, unsubscribe, publish, remaining, receive,
  Subscription,
}
use zchat.Service.Broker.Subscriptions.{uses, eqb_self}
use zchat.Service.Broker.Sound.{
  IsSound, after_publish, publish_lem, unsubscribe_lem, subscribe-IsSound, receive-IsSound,
}

pub data Action (E : Type 0) : Type 0 where
  subscribes : Action E
  unsubscribes : ℕ → Action E
  publishes : E → Action E
  receives : ℕ → Action E

module _ {E : Type 0} where
  unfoldable pub step : Action E → Broker E → Option (Broker E)
  step subscribes b = some (subscribe b).1
  step (unsubscribes i) b = unsubscribe i b
  step (publishes e) b = publish e b
  step (receives a) b = some (receive a b).1

  unfoldable pub run : List (Action E) → Broker E → Option (Broker E)
  run [] b = some b
  run (k ∷ ks) b = elim (step k b) [ none ↦ none | some b' ↦ run ks b' ]

  abbrev pub taken : List E → List E
  taken [] = []
  taken (e ∷ es) = e ∷ []

  -- What a step adds to the channel at an address, and what the client takes from it.
  unfoldable pub added : ℕ → Action E → Broker E → List E
  added a (publishes e) b =
      if uses a b.subs && ltb (length (b.channels a).buffer) subscriber_buffer then e ∷ [] else []
  added a _ b = []

  unfoldable pub removed : ℕ → Action E → Broker E → List E
  removed a (receives x) b = if eqb a x then taken (b.channels a).buffer else []
  removed a _ b = []

  -- The events that a channel takes in during a run, and those that its client receives, in order.
  unfoldable pub observed : ℕ → List (Action E) → Broker E → List E × List E
  observed a [] b = ([], [])
  observed a (k ∷ ks) b = elim (step k b) [
    | none ↦ ([], [])
    | some b' ↦ let (ins, outs) = observed a ks b' in (added a k b ++ ins, removed a k b ++ outs)
  ]

  -- The channel at an address has kept its order over a step or a run.
  abbrev InOrder : ℕ → Broker E → Broker E → List E → List E → Type 0
  InOrder a b b' ins outs = outs ++ (b'.channels a).buffer ≡ (b.channels a).buffer ++ ins

  subscribed :
      (b : Broker E) (a : ℕ)
      → a < b.made
      → (a < (subscribe b).1.made)
        × (((subscribe b).1.channels a).buffer ≡ (b.channels a).buffer ++ [])
  unfolding subscribe
  subscribed b a l = (omega arith, ground (arith, append-nil (b.channels a).buffer))

  published_order :
      (e : E) (ss : List Subscription) (chs : ℕ → Channel E) (a : ℕ)
      → (after_publish e ss chs a).buffer
        ≡ (chs a).buffer
          ++ (if uses a ss && ltb (length (chs a).buffer) subscriber_buffer then e ∷ [] else [])
  published_order e ss chs a = ground (arith, append-nil (chs a).buffer)

  received_order :
      (x a : ℕ) (b : Broker E)
      → (if eqb a x then taken (b.channels a).buffer else []) ++ ((receive x b).1.channels a).buffer
        ≡ (b.channels a).buffer ++ []
  unfolding receive
  received_order x a b = elim (Bool-cases (eqb a x)) [
    | inl q ↦
        let same : a ≡ x = ground arith in
        rw (same, eqb_self x, append-nil (b.channels x).buffer) (halves (b.channels x).buffer)
    | inr q ↦ rw (q, append-nil (b.channels a).buffer) refl
  ]
    where
      halves : (es : List E) → taken es ++ remaining es ≡ es
      halves [] = refl
      halves (e ∷ es) = refl

  step_lem :
      (k : Action E) (b : Broker E) (a : ℕ)
      → IsSound b
      → a < b.made
      → (b' : Broker E) × (step k b ≡ some b')
        × IsSound b'
        × (a < b'.made)
        × InOrder a b b' (added a k b) (removed a k b)
  unfolding step added removed
  step_lem subscribes b a h l =
      ((subscribe b).1, refl, subscribe-IsSound b h, (subscribed b a l).0, (subscribed b a l).1)
  step_lem (unsubscribes i) b a h l =
      let (b', p, s, g, t, m, q) = unsubscribe_lem i b h in
      (b', p, s, rw m l, rw q (sym (append-nil (b.channels a).buffer)))
  step_lem (publishes e) b a h l =
      let (b', p, q, m, s, f) = publish_lem e b h in
      (
        b',
        p,
        s,
        rw m l,
        ap (λ (ch : Channel E). ch.buffer) (f a) ∙ published_order e b.subs b.channels a,
      )
  step_lem (receives x) b a h l =
      ((receive x b).1, refl, receive-IsSound x b h, unfold receive in l, received_order x a b)

  stream_join :
      (outs mid before ins outs' after ins' : List E)
      → outs ++ mid ≡ before ++ ins
      → outs' ++ after ≡ mid ++ ins'
      → (outs ++ outs') ++ after ≡ before ++ (ins ++ ins')
  stream_join outs mid before ins outs' after ins' p q =
      append_assoc outs outs' after
      ∙ ap (λ (x : List E). outs ++ x) q
      ∙ sym (append_assoc outs mid ins')
      ∙ ap (λ (x : List E). x ++ ins') p
      ∙ append_assoc before ins ins'

  step-IsSound :
      (k : Action E) (b : Broker E)
      → IsSound b
      → (b' : Broker E) × (step k b ≡ some b') × IsSound b'
  unfolding step
  step-IsSound subscribes b h = ((subscribe b).1, refl, subscribe-IsSound b h)
  step-IsSound (unsubscribes i) b h =
      let (b', p, s, g, t, m, q) = unsubscribe_lem i b h in (b', p, s)
  step-IsSound (publishes e) b h = let (b', p, q, m, s, f) = publish_lem e b h in (b', p, s)
  step-IsSound (receives a) b h = ((receive a b).1, refl, receive-IsSound a b h)

  -- The broker never panics, whatever its clients do and in whichever order.
  pub run-IsSound :
      (ks : List (Action E)) (b : Broker E)
      → IsSound b
      → (b' : Broker E) × (run ks b ≡ some b') × IsSound b'
  unfolding run
  run-IsSound [] b h = (b, refl, h)
  run-IsSound (k ∷ ks) b h =
      let (b1, p, s) = step-IsSound k b h in
      let (b2, r, t) = run-IsSound ks b1 s in (b2, rw (run, p) r, t)

  -- A client receives what its channel takes in, in the order of publication: what it has received
  -- and what is still buffered make up what was buffered and what was taken in. The channel takes
  -- in each event that is published while it is registered and its buffer is not full.
  pub stream-InOrder :
      (ks : List (Action E)) (b : Broker E) (a : ℕ)
      → IsSound b
      → a < b.made
      → (b' : Broker E) × (run ks b ≡ some b')
        × ((observed a ks b).1 ++ (b'.channels a).buffer
            ≡ (b.channels a).buffer ++ (observed a ks b).0)
  unfolding run observed
  stream-InOrder [] b a h l = (b, refl, sym (append-nil (b.channels a).buffer))
  stream-InOrder (k ∷ ks) b a h l =
      let (b1, p, s, l1, q) = step_lem k b a h l in
      let (b2, r, o) = stream-InOrder ks b1 a s l1 in
      (
        b2,
        rw (run, p) r,
        rw (observed, p)
            (stream_join (removed a k b) (b1.channels a).buffer (b.channels a).buffer (added a k b)
              _ _ _ q o),
      )
