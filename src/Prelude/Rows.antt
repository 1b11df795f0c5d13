-- ===== src/Prelude/Rows.antt =====
-- Tables with a text primary key, as the statements of the source use them: a table is its rows in
-- the order of their insertion.
use zchat.Prelude.Tests.{if◌then◌else◌}
use Prim.Native.Nat.{ℕ, suc}
use Prim.Native.String.{String}
use mathlib.Core.Path.{◌≡◌, refl, ap}
use mathlib.Core.Bool.{Bool, false}
use mathlib.Core.Option
use mathlib.Core.Option.{Option, none, some}
use mathlib.Core.List.{List, [], ◌∷◌}
use native.Mathlib.Omega.{arith}
use text.Mathlib.Text.{◌==◌}
use text.Mathlib.TextEquality.{eq_iff}

-- `UPDATE … SET f WHERE p`.
abbrev pub update {ℓ} : {A : Type ℓ} → (A → Bool) → (A → A) → List A → List A
update p f [] = []
update p f (x ∷ xs) = (if p x then f x else x) ∷ update p f xs

-- `DELETE … WHERE p`.
abbrev pub delete {ℓ} : {A : Type ℓ} → (A → Bool) → List A → List A
delete p [] = []
delete p (x ∷ xs) = if p x then delete p xs else x ∷ delete p xs

-- The rows that `WHERE p` matches.
abbrev pub count {ℓ} : {A : Type ℓ} → (A → Bool) → List A → ℕ
count p [] = 0
count p (x ∷ xs) = if p x then suc (count p xs) else count p xs

module _ {A : Type 0} (key : A → String) where
  -- `SELECT … WHERE key = k`: the row, or none.
  unfoldable pub find : String → List A → Option A
  find k [] = none
  find k (x ∷ xs) = if key x == k then some x else find k xs

  -- `INSERT r ON CONFLICT(key) DO UPDATE SET f`.
  unfoldable pub upsert : A → (A → A) → List A → List A
  upsert r f [] = r ∷ []
  upsert r f (x ∷ xs) = if key x == key r then f x ∷ xs else x ∷ upsert r f xs

  -- No two rows share a key.
  abbrev pub IsUnique : List A → Type 0
  IsUnique [] = Unit {0}
  IsUnique (x ∷ xs) = (find (key x) xs ≡ none) × IsUnique xs

module _ {A : Type 0} (key : A → String) (f : A → A) (keeps : (x : A) → key (f x) ≡ key x) where
  pub find-upsert :
      (k : String) (r : A) (xs : List A)
      → find key k (upsert key r f xs) ≡ (
          if key r == k
          then some (elim (find key (key r) xs) [ none ↦ r | some x ↦ f x ])
          else find key k xs)
  unfolding find upsert
  find-upsert k r [] = ground arith
  find-upsert k r (x ∷ xs) = ground (
    arith,
    find-upsert k r xs,
    keeps x,
    eq_iff (key r) k,
    eq_iff (key x) k,
    eq_iff (key x) (key r),
    eq_iff (key (f x)) k,
  )

  pub find-update :
      (p : A → Bool) (k : String) (xs : List A)
      → find key k (update p f xs) ≡ Option.map (λ x. if p x then f x else x) (find key k xs)
  unfolding find
  find-update p k [] = refl
  find-update p k (x ∷ xs) = ground (arith, find-update p k xs, keeps x)

  pub upsert-IsUnique : (r : A) (xs : List A) → IsUnique key xs → IsUnique key (upsert key r f xs)
  unfolding upsert find
  upsert-IsUnique r [] h = (refl, tt)
  upsert-IsUnique r (x ∷ xs) h = ground (
    arith,
    upsert-IsUnique r xs h.1,
    keeps x,
    find-upsert (key x) r xs,
    eq_iff (key r) (key x),
    eq_iff (key x) (key r),
  )

  pub update-IsUnique :
      (p : A → Bool) (xs : List A) → IsUnique key xs → IsUnique key (update p f xs)
  unfolding find
  update-IsUnique p [] h = tt
  update-IsUnique p (x ∷ xs) h = ground (
    arith,
    update-IsUnique p xs h.1,
    keeps x,
    find-update p (key x) xs,
    ap (Option.map (λ (y : A). if p y then f y else y)) h.0,
  )

module _ {A : Type 0} (key : A → String) (k : String) where
  pub find-delete :
      (j : String) (xs : List A)
      → find key j (delete (λ x. key x == k) xs) ≡ (if k == j then none else find key j xs)
  unfolding find
  find-delete j [] = ground arith
  find-delete j (x ∷ xs) =
      ground (arith, find-delete j xs, eq_iff (key x) k, eq_iff (key x) j, eq_iff k j)

  pub delete-IsUnique : (xs : List A) → IsUnique key xs → IsUnique key (delete (λ x. key x == k) xs)
  unfolding find
  delete-IsUnique [] h = tt
  delete-IsUnique (x ∷ xs) h = ground (arith, delete-IsUnique xs h.1, find-delete (key x) xs)

  -- The number of rows matched by key tells whether the row is there.
  pub count-find : (xs : List A) → (count (λ x. key x == k) xs ≡ 0) → find key k xs ≡ none
  unfolding find
  count-find [] h = refl
  count-find (x ∷ xs) h = ground (arith, count-find xs)

  pub find-count : (xs : List A) → find key k xs ≡ none → count (λ x. key x == k) xs ≡ 0
  unfolding find
  find-count [] h = refl
  find-count (x ∷ xs) h = ground (arith, find-count xs)

-- A row that is found has the key that was asked for.
pub key-find :
    {A : Type 0} (key : A → String) (k : String) (xs : List A) (x : A)
    → find key k xs ≡ some x
    → key x ≡ k
unfolding find
key-find key k [] x h = cc
key-find key k (y ∷ ys) x h = ground (arith, key-find key k ys x, eq_iff (key y) k)

module _ {A : Type 0} (key : A → String) (k : String) where
  pub update_missing :
      (f : A → A) (xs : List A) → find key k xs ≡ none → update (λ y. key y == k) f xs ≡ xs
  unfolding find
  update_missing f [] h = refl
  update_missing f (y ∷ ys) h = ground (arith, update_missing f ys)

  -- An update by key changes one row at most, so it is known by what it does to that row.
  pub update-agrees :
      (f g : A → A) (xs : List A) (x : A)
      → IsUnique key xs
      → find key k xs ≡ some x
      → f x ≡ g x
      → update (λ y. key y == k) f xs ≡ update (λ y. key y == k) g xs
  unfolding find
  update-agrees f g [] x u h e = refl
  update-agrees f g (y ∷ ys) x u h e = ground (
    arith,
    eq_iff (key y) k,
    update_missing f ys,
    update_missing g ys,
    update-agrees f g ys x u.1,
  )

  pub update-update :
      (f g : A → A) (xs : List A)
      → ((x : A) → key (f x) ≡ key x)
      → update (λ y. key y == k) g (update (λ y. key y == k) f xs)
        ≡ update (λ y. key y == k) (λ x. g (f x)) xs
  update-update f g [] keep = refl
  update-update f g (y ∷ ys) keep = ground (arith, update-update f g ys keep, keep y)

module _ {A : Type 0} (key : A → String) (j k : String) (f g : A → A) where
  -- Updates of two rows commute.
  pub update_comm_ne :
      (xs : List A)
      → (j == k) ≡ false
      → ((x : A) → key (f x) ≡ key x)
      → ((x : A) → key (g x) ≡ key x)
      → update (λ y. key y == j) f (update (λ y. key y == k) g xs)
        ≡ update (λ y. key y == k) g (update (λ y. key y == j) f xs)
  update_comm_ne [] ne kf kg = refl
  update_comm_ne (y ∷ ys) ne kf kg = ground (
    arith,
    update_comm_ne ys ne kf kg,
    kf y,
    kg y,
    eq_iff (key y) j,
    eq_iff (key y) k,
    eq_iff j k,
    eq_iff (key (f y)) k,
    eq_iff (key (g y)) j,
  )

pub update-id {ℓ} : {A : Type ℓ} (p : A → Bool) (xs : List A) → update p (λ x. x) xs ≡ xs
update-id p [] = refl
update-id p (x ∷ xs) = ground (arith, update-id p xs)
