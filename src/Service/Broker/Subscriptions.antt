-- ===== src/Service/Broker/Subscriptions.antt =====
-- apps/daemon/service/broker.go: the map of the subscriptions and its keys.
use zchat.Prelude.{
  ℕ, ◌<◌, ◌≡◌, refl, ap, subst, Bool, true, false, ◌||◌, List, [], ◌∷◌, none, some, eqb, All, arith,
  Bool-cases, inl, inr,
}
use zchat.Service.Broker.{Subscription, lookup, without}

-- A channel is registered.
abbrev pub uses : ℕ → List Subscription → Bool
uses a [] = false
uses a (s ∷ ss) = eqb s.address a || uses a ss

abbrev pub IsDistinct : List Subscription → Type 0
IsDistinct [] = Unit {0}
IsDistinct (s ∷ ss) = (uses s.address ss ≡ false) × ((lookup s.id ss ≡ none) × IsDistinct ss)

pub eqb_self : (n : ℕ) → eqb n n ≡ true
eqb_self n = ground arith

pub eqb_other : (m n : ℕ) → eqb m n ≡ false → eqb n m ≡ false
eqb_other m n h = ground arith

pub lookup_new : (n : ℕ) (ss : List Subscription) → All (λ s. s.id < n) ss → lookup n ss ≡ none
lookup_new n [] h = refl
lookup_new n (s ∷ ss) h = ground (arith, lookup_new n ss h.1, h.0)

pub uses_new : (n : ℕ) (ss : List Subscription) → All (λ s. s.address < n) ss → uses n ss ≡ false
uses_new n [] h = refl
uses_new n (s ∷ ss) h = ground (arith, uses_new n ss h.1, h.0)

pub All-map :
    (P Q : Subscription → Type 0) (ss : List Subscription)
    → ((s : Subscription) → P s → Q s)
    → All P ss
    → All Q ss
All-map P Q [] f h = tt
All-map P Q (s ∷ ss) f h = (f s h.0, All-map P Q ss f h.1)

pub All-without :
    (P : Subscription → Type 0) (i : ℕ) (ss : List Subscription) → All P ss → All P (without i ss)
All-without P i [] h = tt
All-without P i (s ∷ ss) h = elim (Bool-cases (eqb s.id i)) [
  | inl e ↦ rw e (All-without P i ss h.1)
  | inr e ↦ rw e (h.0, All-without P i ss h.1)
]

pub uses-without :
    (i a : ℕ) (ss : List Subscription) → uses a ss ≡ false → uses a (without i ss) ≡ false
uses-without i a [] h = refl
uses-without i a (s ∷ ss) h = ground (arith, uses-without i a ss)

pub lookup-without :
    (i j : ℕ) (ss : List Subscription) → lookup j ss ≡ none → lookup j (without i ss) ≡ none
lookup-without i j [] h = refl
lookup-without i j (s ∷ ss) h = ground (arith, lookup-without i j ss)

pub lookup-gone : (i : ℕ) (ss : List Subscription) → lookup i (without i ss) ≡ none
lookup-gone i [] = refl
lookup-gone i (s ∷ ss) = ground (arith, lookup-gone i ss)

pub IsDistinct-without :
    (i : ℕ) (ss : List Subscription) → IsDistinct ss → IsDistinct (without i ss)
IsDistinct-without i [] h = tt
IsDistinct-without i (s ∷ ss) h = elim (Bool-cases (eqb s.id i)) [
  | inl e ↦ rw e (IsDistinct-without i ss h.1.1)
  | inr e ↦ rw e (
    uses-without i s.address ss h.0,
    (lookup-without i s.id ss h.1.0, IsDistinct-without i ss h.1.1),
  )
]

pub head_entry :
    (i : ℕ) (t s : Subscription) (ss : List Subscription)
    → eqb t.id i ≡ true
    → lookup i (t ∷ ss) ≡ some s
    → t ≡ s
head_entry i t s ss e h = ground arith

pub lookup-uses :
    (i : ℕ) (ss : List Subscription) (s : Subscription)
    → lookup i ss ≡ some s
    → uses s.address ss ≡ true
lookup-uses i [] s h = cc
lookup-uses i (t ∷ ss) s h = elim (Bool-cases (eqb t.id i)) [
  | inl e ↦
      subst (λ (x : Subscription). uses x.address (t ∷ ss) ≡ true) (head_entry i t s ss e h)
        (rw (eqb_self t.address) refl)
  | inr e ↦ ground (arith, lookup-uses i ss s)
]

-- Nobody else holds the channel of the entry that is deleted.
pub uses-removed :
    (i : ℕ) (ss : List Subscription) (s : Subscription)
    → IsDistinct ss
    → lookup i ss ≡ some s
    → uses s.address (without i ss) ≡ false
uses-removed i [] s d h = cc
uses-removed i (t ∷ ss) s d h = elim (Bool-cases (eqb t.id i)) [
  | inl e ↦
      subst (λ (x : Subscription). uses x.address (without i (t ∷ ss)) ≡ false)
        (head_entry i t s ss e h) (rw e (uses-without i t.address ss d.0))
  | inr e ↦ ground (
    arith,
    uses-removed i ss s d.1.1,
    lookup-uses i ss s,
    eqb_other t.address s.address,
    ap (λ (a : ℕ). uses a ss),
  )
]
