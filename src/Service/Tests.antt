-- ===== src/Service/Tests.antt =====
-- The theorems on apps/daemon/service/broker.go at concrete brokers.
use zchat.Prelude.{ℕ, ◌≡◌, List, [], ◌∷◌, ◌++◌, none, some, arith}
use zchat.Service.Broker.{Broker, new_broker, subscribe, lookup, unsubscribe}
use zchat.Service.Broker.Sound.{IsSound, unsubscribe_lem, subscribe-IsSound}
use zchat.Service.Broker.Stream.{
  Action, subscribes, unsubscribes, publishes, receives, run, observed, run-IsSound, stream-InOrder,
}

new_broker-IsSound : IsSound (new_broker {E = ℕ})
new_broker-IsSound = record {
  distinct = tt;
  opened = tt;
  issued = tt;
  allocated = tt;
  bounded = λ a. omega arith;
}

-- Two clients are connected.
abbrev connected : Broker ℕ
unfolding subscribe
connected = (subscribe (subscribe new_broker).1).1

connected-IsSound : IsSound connected
unfolding connected
connected-IsSound =
    subscribe-IsSound (subscribe new_broker).1 (subscribe-IsSound new_broker new_broker-IsSound)

abbrev session : List (Action ℕ)
session =
    publishes 7
    ∷ receives 0
    ∷ publishes 8
    ∷ unsubscribes 1
    ∷ unsubscribes 1
    ∷ publishes 9
    ∷ subscribes
    ∷ receives 0
    ∷ []

unsubscribe_lem_example :
    (b : Broker ℕ) × (unsubscribe 0 connected ≡ some b)
    × IsSound b
    × (lookup 0 b.subs ≡ none)
    × (unsubscribe 0 b ≡ some b)
    × (b.made ≡ connected.made)
    × ((a : ℕ) → (b.channels a).buffer ≡ (connected.channels a).buffer)
unsubscribe_lem_example = unsubscribe_lem 0 connected connected-IsSound

run-IsSound_example : (b : Broker ℕ) × (run session connected ≡ some b) × IsSound b
run-IsSound_example = run-IsSound session connected connected-IsSound

stream-InOrder_example :
    (b : Broker ℕ) × (run session connected ≡ some b)
    × ((observed 0 session connected).1 ++ (b.channels 0).buffer
        ≡ (connected.channels 0).buffer ++ (observed 0 session connected).0)
unfolding connected
stream-InOrder_example = stream-InOrder session connected 0 connected-IsSound (omega arith)
