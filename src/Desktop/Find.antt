-- ===== src/Desktop/Find.antt =====
-- apps/desktop/find.go: the matches of a search in a conversation and the step from one to the next.
use native.Mathlib.Nat.{add-mod_right, mod-eq_of_lt, mod_self}
use zchat.Prelude.{
  ℕ, zero, suc, ◌+◌, ◌-◌, ◌%◌, ◌<◌, String, ◌≡◌, refl, sym, ap, ◌∙◌, subst, Bool, true, false, List,
  [], ◌∷◌, reverse, Option, none, some, length, length-reverse, get_elem?, ltb, arith,
  if◌then◌else◌, Bool-cases, inl, inr,
}
use zchat.Prelude.Int.{ℤ, pos, negsuc, ◌+ℤ◌}

-- findMatches and findIndex of the window.
pub record Found : Type 0 where
  pub matches : List String
  pub index : ℤ

-- What runFind keeps of a reply, given the ids of its messages, newest first.
unfoldable pub found : List String → Found
found ids = record { matches = reverse ids; index = pos (length ids) +ℤ negsuc 0 }

-- Go's `%`, which takes the sign of the dividend.
abbrev pub negated : ℕ → ℤ
negated zero = pos zero
negated (suc m) = negsuc m

abbrev pub go_rem : ℤ → ℕ → ℤ
go_rem (pos a) n = pos (a % n)
go_rem (negsuc k) n = negated (suc k % n)

-- stepMatch
unfoldable pub step_match : ℤ → Found → Found
step_match delta f = elim f.matches [
  | [] ↦ f
  | x ∷ xs ↦ record f {
    index = go_rem (f.index +ℤ delta +ℤ pos (length f.matches)) (length f.matches);
  }
]

abbrev pub get_at : List String → ℤ → Option String
get_at xs (pos i) = get_elem? xs i
get_at xs (negsuc k) = none

-- The read `w.findMatches[w.findIndex]` of revealMatch; none is a panic.
unfoldable pub reveal_match : Found → Option String
reveal_match f = get_at f.matches f.index

abbrev pub forward : ℤ
forward = pos 1

abbrev pub backward : ℤ
backward = negsuc 0

-- The index after a step from one match of n, and after a step to it.
abbrev pub next_index : ℕ → ℕ → ℕ
next_index n i = if ltb (suc i) n then suc i else 0

abbrev pub previous_index : ℕ → ℕ → ℕ
previous_index n zero = n - 1
previous_index n (suc i) = i

wraps : (n a : ℕ) → a < n → go_rem (pos (a + n)) n ≡ pos a
wraps n a l = ap pos (add-mod_right a n ∙ mod-eq_of_lt l)

forward_sum : (n i : ℕ) → pos i +ℤ forward +ℤ pos n ≡ pos (suc i + n)
forward_sum n i = ground arith

backward_sum : (n i : ℕ) → pos (suc i) +ℤ backward +ℤ pos n ≡ pos (i + n)
backward_sum n i = ground arith

backward_first : (n : ℕ) → 0 < n → pos 0 +ℤ backward +ℤ pos n ≡ pos (n - 1)
backward_first n l = ground arith

last_wraps : (n i : ℕ) → i < n → ltb (suc i) n ≡ false → (suc i + n) % n ≡ 0
last_wraps n i l e =
    let same : suc i ≡ n = ground arith in
    add-mod_right (suc i) n ∙ ap (λ (a : ℕ). a % n) same ∙ mod_self n

forward_index : (n i : ℕ) → i < n → go_rem (pos i +ℤ forward +ℤ pos n) n ≡ pos (next_index n i)
forward_index n i l = elim (Bool-cases (ltb (suc i) n)) [
  | inl e ↦
      ap (λ (a : ℤ). go_rem a n) (forward_sum n i)
      ∙ wraps n (suc i) (ground arith)
      ∙ ap pos (ground arith)
  | inr e ↦
      ap (λ (a : ℤ). go_rem a n) (forward_sum n i)
      ∙ ap pos (last_wraps n i l e)
      ∙ ap pos (ground arith)
]

backward_index :
    (n i : ℕ) → i < n → go_rem (pos i +ℤ backward +ℤ pos n) n ≡ pos (previous_index n i)
backward_index n zero l =
    ap (λ (a : ℤ). go_rem a n) (backward_first n l) ∙ ap pos (mod-eq_of_lt (omega arith))
backward_index n (suc i) l = ap (λ (a : ℤ). go_rem a n) (backward_sum n i) ∙ wraps n i (omega arith)

next-lt : (n i : ℕ) → i < n → next_index n i < n
next-lt n i l = ground arith

previous-lt : (n i : ℕ) → i < n → previous_index n i < n
previous-lt n zero l = omega arith
previous-lt n (suc i) l = omega arith

previous-next : (n i : ℕ) → i < n → previous_index n (next_index n i) ≡ i
previous-next n i l = elim (Bool-cases (ltb (suc i) n)) [
  | inl e ↦ rw e refl
  | inr e ↦ rw e (ground arith)
]

next-previous : (n i : ℕ) → i < n → next_index n (previous_index n i) ≡ i
next-previous n zero l = ground arith
next-previous n (suc i) l = ground arith

-- A step from match i of n, by the index that it leads to.
step_to :
    (delta : ℤ) (g : ℕ → ℕ → ℕ) (xs : List String) (i : ℕ)
    → go_rem (pos i +ℤ delta +ℤ pos (length xs)) (length xs) ≡ pos (g (length xs) i)
    → i < length xs
    → step_match delta (record { matches = xs; index = pos i })
      ≡ record { matches = xs; index = pos (g (length xs) i) }
unfolding step_match
step_to delta g [] i h l = ground arith
step_to delta g (x ∷ xs) i h l = ap (λ (a : ℤ). record { matches = x ∷ xs; index = a }) h

forward_step :
    (xs : List String) (i : ℕ)
    → i < length xs
    → step_match forward (record { matches = xs; index = pos i })
      ≡ record { matches = xs; index = pos (next_index (length xs) i) }
forward_step xs i l = step_to forward next_index xs i (forward_index (length xs) i l) l

backward_step :
    (xs : List String) (i : ℕ)
    → i < length xs
    → step_match backward (record { matches = xs; index = pos i })
      ≡ record { matches = xs; index = pos (previous_index (length xs) i) }
backward_step xs i l = step_to backward previous_index xs i (backward_index (length xs) i l) l

at_index : List String → ℕ → Found
at_index xs i = record { matches = xs; index = pos i }

-- A step forward and a step backward undo each other, also at both ends.
pub step_match-inverse :
    (xs : List String) (i : ℕ)
    → i < length xs
    → let f : Found = record { matches = xs; index = pos i } in
      (step_match backward (step_match forward f) ≡ f)
      × (step_match forward (step_match backward f) ≡ f)
unfolding at_index
step_match-inverse xs i l =
    let n = length xs in
    (
      ap (step_match backward) (forward_step xs i l)
          ∙ backward_step xs (next_index n i) (next-lt n i l)
          ∙ ap (at_index xs) (previous-next n i l),
      ap (step_match forward) (backward_step xs i l)
          ∙ forward_step xs (previous_index n i) (previous-lt n i l)
          ∙ ap (at_index xs) (next-previous n i l),
    )

get-some : (xs : List String) (i : ℕ) → i < length xs → (x : String) × (get_elem? xs i ≡ some x)
get-some [] i l = ground arith
get-some (x ∷ xs) zero l = (x, refl)
get-some (x ∷ xs) (suc i) l = get-some xs i (omega arith)

-- The steps of a user, true for a step forward.
abbrev pub walk : List Bool → Found → Found
walk [] f = f
walk (true ∷ ds) f = walk ds (step_match forward f)
walk (false ∷ ds) f = walk ds (step_match backward f)

-- The walk from a window's state leads to a match.
abbrev Reveals : List Bool → Found → Type 0
Reveals ds f = (y : String) × (reveal_match (walk ds f) ≡ some y)

walk-Reveals_at :
    (ds : List Bool) (xs : List String) (i : ℕ) → i < length xs → Reveals ds (at_index xs i)
unfolding reveal_match at_index
walk-Reveals_at [] xs i l = get-some xs i l
walk-Reveals_at (true ∷ ds) xs i l =
    subst (Reveals ds) (sym (forward_step xs i l))
      (walk-Reveals_at ds xs (next_index (length xs) i) (next-lt (length xs) i l))
walk-Reveals_at (false ∷ ds) xs i l =
    subst (Reveals ds) (sym (backward_step xs i l))
      (walk-Reveals_at ds xs (previous_index (length xs) i) (previous-lt (length xs) i l))

found-at_index :
    (id : String) (ids : List String)
    → found (id ∷ ids) ≡ at_index (reverse (id ∷ ids)) (length ids)
unfolding found at_index
found-at_index id ids = λ i. record { matches = reverse (id ∷ ids); index = newest (length ids) i }
  where
    newest : (n : ℕ) → pos (suc n) +ℤ negsuc 0 ≡ pos n
    newest n = ground arith

-- Once a search has a match, each sequence of steps leads to one: revealMatch never reads outside
-- the list.
pub walk-reveals :
    (id : String) (ids : List String) (ds : List Bool)
    → (y : String) × (reveal_match (walk ds (found (id ∷ ids))) ≡ some y)
walk-reveals id ids ds = subst (Reveals ds) (sym (found-at_index id ids)) (
    walk-Reveals_at ds (reverse (id ∷ ids)) (length ids) (omega (arith, length-reverse (id ∷ ids))))
