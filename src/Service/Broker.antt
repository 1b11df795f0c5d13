-- ===== src/Service/Broker.antt =====
-- apps/daemon/service/broker.go: the fan-out of events. Each function is one critical section of the
-- broker's mutex, or one receive of a client. `none` is a panic of the Go runtime.
pub mod Subscriptions
pub mod Sound
pub mod Stream
use zchat.Prelude.{
  ℕ, suc, Bool, true, false, List, [], ◌∷◌, ◌++◌, Option, none, some, length, ltb, eqb,
  if◌then◌else◌,
}

-- subscriberBuffer
abbrev pub subscriber_buffer : ℕ
subscriber_buffer = 256

-- A Go channel of events with its buffer, oldest event first.
pub record Channel (E : Type 0) : Type 0 where
  pub buffer : List E
  pub closed : Bool

-- An entry of the map `subs`; `address` says which of the channels it holds.
pub record Subscription : Type 0 where
  pub id : ℕ
  pub address : ℕ

-- Broker, with the channels that it has made. The order of `subs` is that in which `range` visits
-- the map.
pub record Broker (E : Type 0) : Type 0 where
  pub subs : List Subscription
  pub next : ℕ
  pub channels : ℕ → Channel E
  pub made : ℕ

abbrev pub lookup : ℕ → List Subscription → Option Subscription
lookup i [] = none
lookup i (s ∷ ss) = if eqb s.id i then some s else lookup i ss

abbrev pub without : ℕ → List Subscription → List Subscription
without i [] = []
without i (s ∷ ss) = if eqb s.id i then without i ss else s ∷ without i ss

module _ {E : Type 0} where
  -- NewBroker
  abbrev pub new_broker : Broker E
  new_broker = record {
    subs = [];
    next = 0;
    channels = λ a. record { buffer = []; closed = false };
    made = 0;
  }

  abbrev pub put : ℕ → Channel E → (ℕ → Channel E) → ℕ → Channel E
  put a ch chs b = if eqb b a then ch else chs b

  -- `make(chan *zchatv1.Event, subscriberBuffer)`
  abbrev empty_channel : Channel E
  empty_channel = record { buffer = []; closed = false }

  -- Subscribe, with the id that its unsubscribe function keeps.
  unfoldable pub subscribe : Broker E → ℕ × Broker E
  subscribe b = (
    b.next,
    record {
      subs = record { id = b.next; address = b.made } ∷ b.subs;
      next = suc b.next;
      channels = put b.made empty_channel b.channels;
      made = suc b.made;
    },
  )

  -- `close`, which panics on a closed channel.
  abbrev pub close : Channel E → Option (Channel E)
  close ch = if ch.closed then none else some (record ch { closed = true })

  -- The function that Subscribe returns.
  unfoldable pub unsubscribe : ℕ → Broker E → Option (Broker E)
  unsubscribe i b = elim (lookup i b.subs) [
    | none ↦ some b
    | some s ↦ elim (close (b.channels s.address)) [
      | none ↦ none
      | some ch ↦
          some (record b { subs = without i b.subs; channels = put s.address ch b.channels })
    ]
  ]

  -- A channel behind a send that may drop the event.
  abbrev pub offered : E → Channel E → Channel E
  offered e ch =
      if ltb (length ch.buffer) subscriber_buffer
      then record ch { buffer = ch.buffer ++ e ∷ [] }
      else ch

  -- `select { case ch <- evt: default: }`, which panics on a closed channel.
  abbrev pub offer : E → Channel E → Option (Channel E)
  offer e ch = if ch.closed then none else some (offered e ch)

  abbrev pub publish_to : E → List Subscription → (ℕ → Channel E) → Option (ℕ → Channel E)
  publish_to e [] chs = some chs
  publish_to e (s ∷ ss) chs = elim (offer e (chs s.address)) [
    | none ↦ none
    | some ch ↦ publish_to e ss (put s.address ch chs)
  ]

  -- Publish
  unfoldable pub publish : E → Broker E → Option (Broker E)
  publish e b = elim (publish_to e b.subs b.channels) [
    | none ↦ none
    | some chs ↦ some (record b { channels = chs })
  ]

  abbrev pub received : List E → Option E
  received [] = none
  received (e ∷ es) = some e

  abbrev pub remaining : List E → List E
  remaining [] = []
  remaining (e ∷ es) = es

  -- A client takes the oldest event of its channel, if there is one.
  unfoldable pub receive : ℕ → Broker E → Option E × Broker E
  receive a b =
      let ch = b.channels a in
      (
        received ch.buffer,
        record b { channels = put a (record ch { buffer = remaining ch.buffer }) b.channels },
      )
