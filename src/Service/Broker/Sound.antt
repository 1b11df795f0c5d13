-- ===== src/Service/Broker/Sound.antt =====
-- apps/daemon/service/broker.go: no step panics, and what a channel holds after each.
use zchat.Prelude.{
  ℕ, ◌≤◌, ◌<◌, ◌≡◌, refl, sym, ap, ◌∙◌, subst, Bool, true, false, List, [], ◌∷◌, Option, none, some,
  length, length-append, eqb, All, arith, if◌then◌else◌, Bool-cases, Option-cases, inl, inr,
}
use zchat.Service.Broker.{
  subscriber_buffer, Channel, Subscription, Broker, put, subscribe, lookup, without, close,
  unsubscribe, offered, offer, publish_to, publish, remaining, receive,
}
use zchat.Service.Broker.Subscriptions.{
  uses, IsDistinct, eqb_self, eqb_other, lookup_new, uses_new, All-map, All-without, lookup-gone,
  IsDistinct-without, head_entry, uses-removed,
}

module _ {E : Type 0} where
  abbrev pub IsOpen : (ℕ → Channel E) → Subscription → Type 0
  IsOpen chs s = (chs s.address).closed ≡ false

  -- Ids and channels are not shared, what is registered has been made and is open, and no buffer
  -- is over its capacity.
  pub record IsSound (b : Broker E) : Type 0 where
    pub distinct : IsDistinct b.subs
    pub opened : All (IsOpen b.channels) b.subs
    pub issued : All (λ s. s.id < b.next) b.subs
    pub allocated : All (λ s. s.address < b.made) b.subs
    pub bounded : (a : ℕ) → length (b.channels a).buffer ≤ subscriber_buffer

  IsOpen-elsewhere :
      (a : ℕ) (ch : Channel E) (chs : ℕ → Channel E) (ss : List Subscription)
      → uses a ss ≡ false
      → All (IsOpen chs) ss
      → All (IsOpen (put a ch chs)) ss
  IsOpen-elsewhere a ch chs [] u h = tt
  IsOpen-elsewhere a ch chs (s ∷ ss) u h =
      (ground (arith, h.0), IsOpen-elsewhere a ch chs ss (ground arith) h.1)

  -- What Publish does to each channel.
  abbrev pub after_publish : E → List Subscription → (ℕ → Channel E) → ℕ → Channel E
  after_publish e ss chs a = if uses a ss then offered e (chs a) else chs a

  after_put :
      (e : E) (s : Subscription) (ss : List Subscription) (chs : ℕ → Channel E) (a : ℕ)
      → uses s.address ss ≡ false
      → after_publish e ss (put s.address (offered e (chs s.address)) chs) a
        ≡ after_publish e (s ∷ ss) chs a
  after_put e s ss chs a u = elim (Bool-cases (eqb s.address a)) [
    | inl q ↦
        let same : s.address ≡ a = ground arith in
        subst
          (λ (b : ℕ).
            after_publish e ss (put s.address (offered e (chs s.address)) chs) b
            ≡ after_publish e (s ∷ ss) chs b)
          same (rw (u, eqb_self s.address) refl)
    | inr q ↦ rw (q, eqb_other s.address a q) refl
  ]

  offer_open : (e : E) (ch : Channel E) → ch.closed ≡ false → offer e ch ≡ some (offered e ch)
  offer_open e ch h = ap (λ (c : Bool). if c then none else some (offered e ch)) h

  publish_cons :
      (e : E) (s : Subscription) (ss : List Subscription) (chs : ℕ → Channel E)
      → IsOpen chs s
      → publish_to e (s ∷ ss) chs ≡ publish_to e ss (put s.address (offered e (chs s.address)) chs)
  publish_cons e s ss chs h =
      ap
        (λ (o : Option (Channel E)). elim o as (λ x. Option (ℕ → Channel E)) [
          | none ↦ none
          | some ch ↦ publish_to e ss (put s.address ch chs)
        ])
        (offer_open e (chs s.address) h)

  publish_to_lem :
      (e : E) (ss : List Subscription) (chs : ℕ → Channel E)
      → IsDistinct ss
      → All (IsOpen chs) ss
      → (chs' : ℕ → Channel E) × (publish_to e ss chs ≡ some chs')
        × ((a : ℕ) → chs' a ≡ after_publish e ss chs a)
  publish_to_lem e [] chs d h = (chs, refl, λ a. refl)
  publish_to_lem e (s ∷ ss) chs d h =
      let chs1 = put s.address (offered e (chs s.address)) chs in
      let (chs', p, f) =
        publish_to_lem e ss chs1 d.1.1
          (IsOpen-elsewhere s.address (offered e (chs s.address)) chs ss d.0 h.1) in
      (chs', publish_cons e s ss chs h.0 ∙ p, λ a. f a ∙ after_put e s ss chs a d.0)

  offered-closed : (e : E) (ch : Channel E) → (offered e ch).closed ≡ ch.closed
  offered-closed e ch = ground arith

  offered-length :
      (e : E) (ch : Channel E)
      → length ch.buffer ≤ subscriber_buffer
      → length (offered e ch).buffer ≤ subscriber_buffer
  offered-length e ch h = ground (arith, length-append ch.buffer (e ∷ []))

  after_publish-closed :
      (e : E) (ss : List Subscription) (chs : ℕ → Channel E) (a : ℕ)
      → (after_publish e ss chs a).closed ≡ (chs a).closed
  after_publish-closed e ss chs a = ground (arith, offered-closed e (chs a))

  after_publish-length :
      (e : E) (ss : List Subscription) (chs : ℕ → Channel E) (a : ℕ)
      → length (chs a).buffer ≤ subscriber_buffer
      → length (after_publish e ss chs a).buffer ≤ subscriber_buffer
  after_publish-length e ss chs a h = ground (arith, offered-length e (chs a))

  -- Publish does not panic, and it offers the event to each registered channel, and to no other.
  pub publish_lem :
      (e : E) (b : Broker E)
      → IsSound b
      → (b' : Broker E) × (publish e b ≡ some b')
        × (b'.subs ≡ b.subs)
        × (b'.made ≡ b.made)
        × IsSound b'
        × ((a : ℕ) → b'.channels a ≡ after_publish e b.subs b.channels a)
  unfolding publish
  publish_lem e b h =
      let (chs', p, f) = publish_to_lem e b.subs b.channels h.distinct h.opened in
      (
        record b { channels = chs' },
        ap
            (λ (o : Option (ℕ → Channel E)). elim o as (λ x. Option (Broker E)) [
              | none ↦ none
              | some chs ↦ some (record b { channels = chs })
            ])
            p,
        refl,
        refl,
        record {
          distinct = h.distinct;
          opened =
              All-map (IsOpen b.channels) (IsOpen chs') b.subs
                (λ s o.
                  ap (λ (ch : Channel E). ch.closed) (f s.address)
                  ∙ after_publish-closed e b.subs b.channels s.address
                  ∙ o)
                h.opened;
          issued = h.issued;
          allocated = h.allocated;
          bounded = λ a.
              subst (λ (ch : Channel E). length ch.buffer ≤ subscriber_buffer) (sym (f a))
                (after_publish-length e b.subs b.channels a (h.bounded a));
        },
        f,
      )

  pub subscribe-IsSound : (b : Broker E) → IsSound b → IsSound (subscribe b).1
  unfolding subscribe
  subscribe-IsSound b h = record {
    distinct =
        (uses_new b.made b.subs h.allocated, (lookup_new b.next b.subs h.issued, h.distinct));
    opened = (
      ground (arith, eqb_self b.made),
      IsOpen-elsewhere b.made _ b.channels b.subs (uses_new b.made b.subs h.allocated) h.opened,
    );
    issued = (omega arith, All-map _ _ b.subs (λ s o. omega arith) h.issued);
    allocated = (omega arith, All-map _ _ b.subs (λ s o. omega arith) h.allocated);
    bounded = λ a. ground (arith, h.bounded a);
  }

  close_open : (ch : Channel E) → ch.closed ≡ false → close ch ≡ some (record ch { closed = true })
  close_open ch h = ap (λ (c : Bool). if c then none else some (record ch { closed = true })) h

  lookup-IsOpen :
      (i : ℕ) (chs : ℕ → Channel E) (ss : List Subscription) (s : Subscription)
      → lookup i ss ≡ some s
      → All (IsOpen chs) ss
      → IsOpen chs s
  lookup-IsOpen i chs [] s e h = cc
  lookup-IsOpen i chs (t ∷ ss) s e h = elim (Bool-cases (eqb t.id i)) [
    | inl q ↦ subst (IsOpen chs) (head_entry i t s ss q e) h.0
    | inr q ↦ lookup-IsOpen i chs ss s (ground arith) h.1
  ]

  removed-IsSound :
      (i : ℕ) (s : Subscription) (b : Broker E)
      → IsSound b
      → lookup i b.subs ≡ some s
      → IsSound (record b {
        subs = without i b.subs;
        channels = put s.address (record (b.channels s.address) { closed = true }) b.channels;
      })
  removed-IsSound i s b h e = record {
    distinct = IsDistinct-without i b.subs h.distinct;
    opened =
        IsOpen-elsewhere s.address _ b.channels (without i b.subs)
          (uses-removed i b.subs s h.distinct e) (All-without _ i b.subs h.opened);
    issued = All-without _ i b.subs h.issued;
    allocated = All-without _ i b.subs h.allocated;
    bounded = λ a. ground (arith, h.bounded a, h.bounded s.address);
  }

  gone_already : (i : ℕ) (b : Broker E) → lookup i b.subs ≡ none → unsubscribe i b ≡ some b
  unfolding unsubscribe
  gone_already i b e = rw (unsubscribe, e) refl

  closed_buffer :
      (x : ℕ) (chs : ℕ → Channel E) (a : ℕ)
      → (put x (record (chs x) { closed = true }) chs a).buffer ≡ (chs a).buffer
  closed_buffer x chs a = elim (Bool-cases (eqb a x)) [
    | inl q ↦
        let same : x ≡ a = ground arith in
        subst (λ (y : ℕ). (put x (record (chs x) { closed = true }) chs y).buffer ≡ (chs y).buffer)
          same (rw (eqb_self x) refl)
    | inr q ↦ rw q refl
  ]

  -- The function that Subscribe returns does not panic, called for the first time or again: after
  -- it the entry is gone, a second call changes nothing, and no buffered event is lost.
  pub unsubscribe_lem :
      (i : ℕ) (b : Broker E)
      → IsSound b
      → (b' : Broker E) × (unsubscribe i b ≡ some b')
        × IsSound b'
        × (lookup i b'.subs ≡ none)
        × (unsubscribe i b' ≡ some b')
        × (b'.made ≡ b.made)
        × ((a : ℕ) → (b'.channels a).buffer ≡ (b.channels a).buffer)
  unfolding unsubscribe
  unsubscribe_lem i b h = elim (Option-cases (lookup i b.subs)) [
    | inl e ↦ (b, gone_already i b e, h, e, gone_already i b e, refl, λ a. refl)
    | inr (s, e) ↦ (
      record b {
        subs = without i b.subs;
        channels = put s.address (record (b.channels s.address) { closed = true }) b.channels;
      },
      rw (unsubscribe, e)
          (ap
            (λ (o : Option (Channel E)). elim o as (λ x. Option (Broker E)) [
              | none ↦ none
              | some ch ↦
                  some
                    (record b { subs = without i b.subs; channels = put s.address ch b.channels })
            ])
            (close_open (b.channels s.address) (lookup-IsOpen i b.channels b.subs s e h.opened))),
      removed-IsSound i s b h e,
      lookup-gone i b.subs,
      gone_already i _ (lookup-gone i b.subs),
      refl,
      λ a. closed_buffer s.address b.channels a,
    )
  ]

  remaining-length : (es : List E) → length (remaining es) ≤ length es
  remaining-length [] = omega arith
  remaining-length (e ∷ es) = omega arith

  pub receive-IsSound : (a : ℕ) (b : Broker E) → IsSound b → IsSound (receive a b).1
  unfolding receive
  receive-IsSound a b h = record {
    distinct = h.distinct;
    opened = All-map _ _ b.subs (λ s o. ground arith) h.opened;
    issued = h.issued;
    allocated = h.allocated;
    bounded = λ x. ground (arith, h.bounded x, h.bounded a, remaining-length (b.channels a).buffer);
  }
