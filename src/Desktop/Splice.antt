-- ===== src/Desktop/Splice.antt =====
-- apps/desktop/window.go, applyChatModel and spliceRange: the list model moves to a new list by one
-- splice.
use zchat.Prelude.{
  ℕ, suc, ◌+◌, ◌-◌, ◌≤◌, ◌≡◌, refl, sym, ap, ◌∙◌, Bool, true, false, ◌&&◌, List, [], ◌∷◌, ◌++◌,
  reverse, length, take, drop, drop-append, take-all, take-append, length-append, length-reverse,
  length-take, length-drop, take-append-drop, eqb, arith, if◌then◌else◌, Bool-cases, inl, inr,
}
use mathlib.Core.List.{append_assoc, reverse-reverse, reverse-append}

pub eqb-eq : (m n : ℕ) → eqb m n ≡ true → m ≡ n
eqb-eq m n h = ground arith

-- `same` is the comparison of the elements.
module _ {T : Type 0} (same : T → T → Bool) where
  -- How many elements two lists share at their start: the first loop of spliceRange.
  unfoldable pub common : List T → List T → ℕ
  common [] want = 0
  common (x ∷ current) [] = 0
  common (x ∷ current) (y ∷ want) = elim (same x y) [ true ↦ suc (common current want) | false ↦ 0 ]

  -- The second loop: it compares `current[len(current)-1-tail]`, the elements from the end, and
  -- does not go back over the head.
  unfoldable pub tail_of : ℕ → List T → List T → ℕ
  tail_of head current want = common (reverse (drop head current)) (reverse (drop head want))

  -- spliceRange, with its results position, removals and changed.
  unfoldable pub splice_range : List T → List T → ℕ × (ℕ × Bool)
  splice_range current want =
      let head = common current want in
      if eqb head (length current) && eqb head (length want)
      then (0, (0, false))
      else (head, (length current - head - tail_of head current want, true))

  -- `Splice` of the list model: it drops a run and puts another in its place.
  abbrev pub splice : ℕ → ℕ → List T → List T → List T
  splice position removals added xs = take position xs ++ (added ++ drop (position + removals) xs)

  -- applyChatModel, of the model's list and the list that is to be shown.
  unfoldable pub apply_model : List T → List T → List T
  apply_model current visible =
      let (head, (removals, changed)) = splice_range current visible in
      if changed
      then splice head removals
          (take (length visible - (length current - head - removals) - head) (drop head visible))
          current
      else current

  common_same :
      (x y : T) (xs ys : List T) → same x y ≡ true → common (x ∷ xs) (y ∷ ys) ≡ suc (common xs ys)
  unfolding common
  common_same x y xs ys e = rw (common, e) refl

  common_other : (x y : T) (xs ys : List T) → same x y ≡ false → common (x ∷ xs) (y ∷ ys) ≡ 0
  unfolding common
  common_other x y xs ys e = rw (common, e) refl

  splice_lem :
      (n r k : ℕ) (before old new after current want : List T)
      → current ≡ before ++ (old ++ after)
      → want ≡ before ++ (new ++ after)
      → n ≡ length before
      → r ≡ length old
      → k ≡ length new
      → splice n r (take k (drop n want)) current ≡ want
  splice_lem n r k before old new after current want p q a b c =
      rw
        (
          p,
          q,
          a,
          b,
          c,
          drop-append before (new ++ after),
          take-append new after,
          take-append before (old ++ after),
          sym (length-append before old),
          sym (append_assoc before old after),
          drop-append (before ++ old) after,
        )
        refl

  -- The last t elements and what stands before them.
  front_and_back :
      (t : ℕ) (xs : List T)
      → t ≤ length xs
      → (front : List T) × (xs ≡ front ++ reverse (take t (reverse xs)))
        × (length front ≡ length xs - t)
  front_and_back t xs l = (
    reverse (drop t (reverse xs)),
    sym (reverse-reverse xs)
        ∙ ap reverse (sym (take-append-drop t (reverse xs)))
        ∙ reverse-append (take t (reverse xs)) (drop t (reverse xs)),
    omega (
      arith,
      length-reverse (drop t (reverse xs)),
      length-drop t (reverse xs),
      length-reverse xs,
    ),
  )

  module _ (law : (x y : T) → same x y ≡ true → x ≡ y) where
    common_cons :
        (x y : T) (xs ys : List T)
        → same x y ≡ true
        → take (common xs ys) xs ≡ take (common xs ys) ys
        → take (common (x ∷ xs) (y ∷ ys)) (x ∷ xs) ≡ take (common (x ∷ xs) (y ∷ ys)) (y ∷ ys)
    common_cons x y xs ys e h = rw (common_same x y xs ys e) (λ i. law x y e i ∷ h i)

    common_end :
        (x y : T) (xs ys : List T)
        → same x y ≡ false
        → take (common (x ∷ xs) (y ∷ ys)) (x ∷ xs) ≡ take (common (x ∷ xs) (y ∷ ys)) (y ∷ ys)
    common_end x y xs ys e = rw (common_other x y xs ys e) refl

    take-common : (xs ys : List T) → take (common xs ys) xs ≡ take (common xs ys) ys
    unfolding common
    take-common [] ys = refl
    take-common (x ∷ xs) [] = refl
    take-common (x ∷ xs) (y ∷ ys) = elim (Bool-cases (same x y)) [
      | inl e ↦ common_cons x y xs ys e (take-common xs ys)
      | inr e ↦ common_end x y xs ys e
    ]

    common-le : (xs ys : List T) → (common xs ys ≤ length xs) × (common xs ys ≤ length ys)
    unfolding common
    common-le [] ys = (omega arith, omega arith)
    common-le (x ∷ xs) [] = (omega arith, omega arith)
    common-le (x ∷ xs) (y ∷ ys) = ground (arith, common-le xs ys)

    same_lem :
        (current visible : List T)
        → common current visible ≡ length current
        → common current visible ≡ length visible
        → current ≡ visible
    same_lem current visible p q =
        sym (take-all current)
        ∙ ap (λ (n : ℕ). take n current) (sym p)
        ∙ take-common current visible
        ∙ ap (λ (n : ℕ). take n visible) q
        ∙ take-all visible

    tail_of-le :
        (n : ℕ) (current visible : List T)
        → (tail_of n current visible ≤ length current - n)
          × (tail_of n current visible ≤ length visible - n)
    unfolding tail_of
    tail_of-le n current visible =
        let h = common-le (reverse (drop n current)) (reverse (drop n visible)) in
        let c = length-reverse (drop n current) in
        let d = length-reverse (drop n visible) in
        (omega (arith, h.0, c, length-drop n current), omega (arith, h.1, d, length-drop n visible))

    same_tail :
        (n : ℕ) (current visible : List T)
        → take (tail_of n current visible) (reverse (drop n current))
          ≡ take (tail_of n current visible) (reverse (drop n visible))
    unfolding tail_of
    same_tail n current visible = take-common (reverse (drop n current)) (reverse (drop n visible))

    changed_lem :
        (current visible : List T)
        → let n = common current visible in
          let t = tail_of n current visible in
          let r = length current - n - t in
          splice n r (take (length visible - (length current - n - r) - n) (drop n visible)) current
          ≡ visible
    changed_lem current visible =
        let n = common current visible in
        let t = tail_of n current visible in
        let l = common-le current visible in
        let m = tail_of-le n current visible in
        let (old, p, lo) =
          front_and_back t (drop n current) (omega (arith, m.0, length-drop n current)) in
        let (new, q, ln) =
          front_and_back t (drop n visible) (omega (arith, m.1, length-drop n visible)) in
        splice_lem n _ _ (take n current) old new (reverse (take t (reverse (drop n current))))
          current visible
          (sym (take-append-drop n current) ∙ ap (λ (x : List T). take n current ++ x) p)
          (sym (take-append-drop n visible)
            ∙ ap (λ (x : List T). x ++ drop n visible) (sym (take-common current visible))
            ∙ ap (λ (x : List T). take n current ++ x)
                (q ∙ ap (λ (x : List T). new ++ reverse x) (sym (same_tail n current visible))))
          (omega (arith, length-take n current, l.0))
          (omega (arith, lo, length-drop n current, m.0))
          (omega (arith, ln, length-drop n visible, l.0, l.1, m.0, m.1))

    -- The splice of applyChatModel, however short it is, turns the model's list into the list that
    -- is to be shown.
    pub apply_model_lem : (current visible : List T) → apply_model current visible ≡ visible
    unfolding apply_model splice_range tail_of
    apply_model_lem current visible =
        elim (Bool-cases (
          eqb (common current visible) (length current)
          && eqb (common current visible) (length visible))) [
            | inl e ↦ rw e (
                same_lem current visible
                  (ground (arith, eqb-eq (common current visible) (length current)))
                  (ground (arith, eqb-eq (common current visible) (length visible))))
            | inr e ↦ rw e (changed_lem current visible)
          ]
