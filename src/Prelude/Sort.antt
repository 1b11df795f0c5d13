-- ===== src/Prelude/Sort.antt =====
-- `ORDER BY`: a stable sort. SQL leaves the order of ties open; no theorem of this development
-- rests on the choice made here.
use zchat.Prelude.Tests.{if◌then◌else◌, Bool-cases}
use zchat.Prelude.Lists.{All, All-take, All-append, All-drop, All-reverse, take, drop}
use mathlib.Core.Path.{◌≡◌}
use mathlib.Core.Logic.{inl, inr}
use mathlib.Core.Bool.{Bool, true, false}
use mathlib.Core.List.{List, [], ◌∷◌, Perm, ◌++◌, reverse, reverse-cons}
use mathlib.Core.List.Perm
use Prim.Native.Nat.{ℕ, zero, suc}

module _ {A : Type 0} (lt : A → A → Bool) where
  unfoldable pub insert : A → List A → List A
  insert x [] = x ∷ []
  insert x (y ∷ ys) = if lt y x then y ∷ insert x ys else x ∷ y ∷ ys

  unfoldable pub sort : List A → List A
  sort [] = []
  sort (x ∷ xs) = insert x (sort xs)

  -- No later element comes strictly before an earlier one.
  abbrev pub IsSorted : List A → Type 0
  IsSorted [] = Unit {0}
  IsSorted (x ∷ xs) = All (λ y. lt y x ≡ false) xs × IsSorted xs

  pub insert-perm : (x : A) (xs : List A) → Perm (insert x xs) (x ∷ xs)
  unfolding insert
  insert-perm x [] = Perm.refl (x ∷ [])
  insert-perm x (y ∷ ys) = elim (Bool-cases (lt y x)) [
    | inl h ↦ rw h (Perm.trans (Perm.cons y (insert-perm x ys)) (Perm.swap x y ys))
    | inr h ↦ rw h (Perm.refl (x ∷ y ∷ ys))
  ]

  pub sort-perm : (xs : List A) → Perm (sort xs) xs
  unfolding sort
  sort-perm [] = Perm.refl []
  sort-perm (x ∷ xs) = Perm.trans (insert-perm x (sort xs)) (Perm.cons x (sort-perm xs))

  pub All-insert {κ} : (P : A → Type κ) (x : A) (xs : List A) → P x → All P xs → All P (insert x xs)
  unfolding insert
  All-insert P x [] hx h = (hx, tt)
  All-insert P x (y ∷ ys) hx h = elim (Bool-cases (lt y x)) [
    | inl e ↦ rw e (h.0, All-insert P x ys hx h.1)
    | inr e ↦ rw e (hx, h)
  ]

  pub All-sort {κ} : (P : A → Type κ) (xs : List A) → All P xs → All P (sort xs)
  unfolding sort
  All-sort P [] h = tt
  All-sort P (x ∷ xs) h = All-insert P x (sort xs) h.0 (All-sort P xs h.1)

  pub IsSorted-take : (n : ℕ) (xs : List A) → IsSorted xs → IsSorted (take n xs)
  IsSorted-take zero xs h = tt
  IsSorted-take (suc n) [] h = tt
  IsSorted-take (suc n) (x ∷ xs) h = (All-take _ n xs h.0, IsSorted-take n xs h.1)

  pub IsSorted-drop : (n : ℕ) (xs : List A) → IsSorted xs → IsSorted (drop n xs)
  IsSorted-drop zero xs h = h
  IsSorted-drop (suc n) [] h = tt
  IsSorted-drop (suc n) (x ∷ xs) h = IsSorted-drop n xs h.1

-- A strict weak order, as `ORDER BY` compares rows.
pub record IsOrder {A : Type 0} (lt : A → A → Bool) : Type 0 where
  pub asym : (x y : A) → lt x y ≡ true → lt y x ≡ false
  pub trans : (x y z : A) → lt y x ≡ false → lt z y ≡ false → lt z x ≡ false

module _ {A : Type 0} (lt : A → A → Bool) (order : IsOrder lt) where
  All-trans :
      (x y : A) (ys : List A)
      → lt y x ≡ false
      → All (λ z. lt z y ≡ false) ys
      → All (λ z. lt z x ≡ false) ys
  All-trans x y [] h hs = tt
  All-trans x y (z ∷ zs) h hs = (order.trans x y z h hs.0, All-trans x y zs h hs.1)

  pub insert-IsSorted : (x : A) (xs : List A) → IsSorted lt xs → IsSorted lt (insert lt x xs)
  unfolding insert
  insert-IsSorted x [] h = (tt, tt)
  insert-IsSorted x (y ∷ ys) h = elim (Bool-cases (lt y x)) [
    | inl e ↦
        rw e (
          All-insert lt (λ z. lt z y ≡ false) x ys (order.asym y x e) h.0,
          insert-IsSorted x ys h.1,
        )
    | inr e ↦ rw e ((e, All-trans x y ys e h.0), h)
  ]

  pub sort-IsSorted : (xs : List A) → IsSorted lt (sort lt xs)
  unfolding sort
  sort-IsSorted [] = tt
  sort-IsSorted (x ∷ xs) = insert-IsSorted x (sort lt xs) (sort-IsSorted xs)

module _ {A : Type 0} (lt : A → A → Bool) where
  IsSorted-snoc :
      (xs : List A) (x : A)
      → IsSorted lt xs
      → All (λ y. lt x y ≡ false) xs
      → IsSorted lt (xs ++ x ∷ [])
  IsSorted-snoc [] x h a = (tt, tt)
  IsSorted-snoc (y ∷ ys) x h a =
      (All-append (λ z. lt z y ≡ false) ys (x ∷ []) h.0 (a.0, tt), IsSorted-snoc ys x h.1 a.1)

module _ {A : Type 0} (lt : A → A → Bool) where
  -- A list in order, read backwards, is in the opposite order.
  pub IsSorted-reverse : (xs : List A) → IsSorted lt xs → IsSorted (λ x y. lt y x) (reverse xs)
  IsSorted-reverse [] h = tt
  IsSorted-reverse (x ∷ xs) h = rw (reverse-cons x xs) (
      IsSorted-snoc (λ a b. lt b a) (reverse xs) x (IsSorted-reverse xs h.1)
        (All-reverse (λ y. lt y x ≡ false) xs h.0))

  -- What a prefix of a list in order leaves out does not come before what it holds.
  pub sorted_rest :
      (n : ℕ) (xs : List A)
      → IsSorted lt xs
      → All (λ x. All (λ y. lt y x ≡ false) (drop n xs)) (take n xs)
  sorted_rest zero xs h = tt
  sorted_rest (suc n) [] h = tt
  sorted_rest (suc n) (x ∷ xs) h = (All-drop _ n xs h.0, sorted_rest n xs h.1)
