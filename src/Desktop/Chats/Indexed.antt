-- ===== src/Desktop/Chats/Indexed.antt =====
-- apps/desktop/window.go: what each change of the sidebar does to the index and the order.
use zchat.Prelude.{
  ℕ, ◌<◌, String, ◌≡◌, refl, sym, ap, ◌∙◌, subst, Bool, true, false, not, ◌&&◌, ◌||◌, List, [], ◌∷◌,
  ◌++◌, Option, none, some, ◌==◌, eq_iff, eq_refl, eqb, arith, Bool-cases, inl, inr,
}
use zchat.Store.Types.{Chat}
use zchat.Desktop.Chats.{Sidebar, write, upsert_at, remove_first, remove_at}

-- The order and the index hold the same chats: each chat of the order is found by its JID, it is
-- allocated, and each entry of the index is in the order, under its own JID.
abbrev pub holds : ℕ → List ℕ → Bool
holds p [] = false
holds p (q ∷ qs) = eqb q p || holds p qs

abbrev pub IsDistinct : List ℕ → Type 0
IsDistinct [] = Unit {0}
IsDistinct (x ∷ xs) = (holds x xs ≡ false) × IsDistinct xs

pub record IsIndexed (s : Sidebar) : Type 0 where
  pub indexed : (p : ℕ) → holds p s.order ≡ true → s.index (s.chats p).jid ≡ some p
  pub ordered :
      (j : String) (p : ℕ) → s.index j ≡ some p → (holds p s.order ≡ true) × ((s.chats p).jid ≡ j)
  pub distinct : IsDistinct s.order
  pub allocated : (p : ℕ) → holds p s.order ≡ true → p < s.made

holds-append : (p q : ℕ) (xs : List ℕ) → holds p (xs ++ q ∷ []) ≡ holds p xs || eqb q p
holds-append p q [] = ground arith
holds-append p q (x ∷ xs) = ground (arith, holds-append p q xs)

pub copied-IsIndexed :
    (s : Sidebar) (p : ℕ) (c : Chat)
    → c.jid ≡ (s.chats p).jid
    → IsIndexed s
    → IsIndexed (record s { chats = write p c s.chats })
copied-IsIndexed s p c e h = record {
  indexed = λ q g. ap s.index (written q) ∙ h.indexed q g;
  ordered = λ j q g. ((h.ordered j q g).0, written q ∙ (h.ordered j q g).1);
  distinct = h.distinct;
  allocated = h.allocated;
}
  where
    written : (q : ℕ) → (write p c s.chats q).jid ≡ (s.chats q).jid
    written q = elim (Bool-cases (eqb q p)) [
      | inl a ↦ let same : q ≡ p = ground arith in rw (a, same) e
      | inr a ↦ rw a refl
    ]

IsDistinct-append :
    (q : ℕ) (xs : List ℕ) → IsDistinct xs → holds q xs ≡ false → IsDistinct (xs ++ q ∷ [])
IsDistinct-append q [] h e = (refl, tt)
IsDistinct-append q (x ∷ xs) h e =
    (ground (arith, holds-append x q xs, h.0), IsDistinct-append q xs h.1 (ground arith))

holds-remove_first :
    (p q : ℕ) (xs : List ℕ)
    → IsDistinct xs
    → holds q (remove_first p xs) ≡ holds q xs && not (eqb q p)
holds-remove_first p q [] h = refl
holds-remove_first p q (x ∷ xs) h = elim (Bool-cases (eqb x p)) [
  | inl e ↦ rw e (elim (Bool-cases (eqb q p)) [
    | inl f ↦
        let same : x ≡ q = ground arith in
        let none_left : holds q xs ≡ false = subst (λ (y : ℕ). holds y xs ≡ false) same h.0 in
        ground arith
    | inr f ↦ ground arith
  ])
  | inr e ↦ rw e (ground (arith, holds-remove_first p q xs h.1))
]

eqb_same : (n : ℕ) → eqb n n ≡ true
eqb_same n = ground arith

IsDistinct-remove_first : (p : ℕ) (xs : List ℕ) → IsDistinct xs → IsDistinct (remove_first p xs)
IsDistinct-remove_first p [] h = tt
IsDistinct-remove_first p (x ∷ xs) h = elim (Bool-cases (eqb x p)) [
  | inl e ↦ rw e h.1
  | inr e ↦
      rw e (ground (arith, holds-remove_first p x xs h.1, h.0), IsDistinct-remove_first p xs h.1)
]

apart :
    (index : String → Option ℕ) (j k : String) (p : ℕ)
    → index j ≡ none
    → index k ≡ some p
    → (k == j) ≡ false
apart index j k p e f = elim (Bool-cases (k == j)) [
  | inl b ↦ let same : k ≡ j = (eq_iff k j).0 b in cc
  | inr b ↦ b
]

clash :
    (index : String → Option ℕ) (j k : String) (p q : ℕ)
    → index j ≡ some p
    → index k ≡ some q
    → eqb q p ≡ false
    → (k == j) ≡ false
clash index j k p q e f d = elim (Bool-cases (k == j)) [
  | inl b ↦ let same : index k ≡ index j = ap index ((eq_iff k j).0 b) in ground arith
  | inr b ↦ b
]

-- A chat that is new is put at the end.
pub added-IsIndexed :
    (s : Sidebar) (c : Chat) → s.index c.jid ≡ none → IsIndexed s → IsIndexed (upsert_at none c s)
unfolding upsert_at
added-IsIndexed s c e h = record {
  indexed = λ p g. elim (Bool-cases (eqb p s.made)) [
    | inl a ↦ rw (a, eq_refl c.jid) (ap some (ground arith))
    | inr a ↦
        let old : holds p s.order ≡ true = ground (arith, holds-append p s.made s.order) in
        rw (a, apart s.index c.jid (s.chats p).jid p e (h.indexed p old)) (h.indexed p old)
  ];
  ordered = λ j p g. elim (Bool-cases (j == c.jid)) [
    | inl b ↦
        let same : p ≡ s.made = ground arith in
        rw (same, eqb_same s.made)
          (ground (arith, holds-append s.made s.made s.order), sym ((eq_iff j c.jid).0 b))
    | inr b ↦
        let (o, q) = h.ordered j p (ground arith) in
        let other : eqb p s.made ≡ false = ground (arith, h.allocated p o) in
        rw other (ground (arith, holds-append p s.made s.order), q)
  ];
  distinct = IsDistinct-append s.made s.order h.distinct new;
  allocated = λ p g. ground (arith, holds-append p s.made s.order, h.allocated p);
}
  where
    new : holds s.made s.order ≡ false
    new = ground (arith, h.allocated s.made)

pub removed-IsIndexed :
    (s : Sidebar) (jid : String) (p : ℕ)
    → s.index jid ≡ some p
    → IsIndexed s
    → IsIndexed (remove_at (some p) jid s)
removed-IsIndexed s jid p e h = record {
  indexed = λ q g.
      let (o, k) = kept q g in
      let i = h.indexed q o in rw (clash s.index jid (s.chats q).jid p q e i k) i;
  ordered = λ j q g. elim (Bool-cases (j == jid)) [
    | inl b ↦ ground arith
    | inr b ↦
        let (o, r) = h.ordered j q (ground arith) in
        let other = not_same j q r b in
        (ground (arith, holds-remove_first p q s.order h.distinct), r)
  ];
  distinct = IsDistinct-remove_first p s.order h.distinct;
  allocated = λ q g. h.allocated q (kept q g).0;
}
  where
    not_same : (j : String) (q : ℕ) → (s.chats q).jid ≡ j → (j == jid) ≡ false → eqb q p ≡ false
    not_same j q r b = elim (Bool-cases (eqb q p)) [
      | inl a ↦
          let same : q ≡ p = ground arith in
          let named : j ≡ jid =
            sym r ∙ ap (λ (x : ℕ). (s.chats x).jid) same ∙ (h.ordered jid p e).1 in
          ground (arith, eq_iff j jid)
      | inr a ↦ a
    ]

    kept :
        (q : ℕ)
        → holds q (remove_first p s.order) ≡ true
        → (holds q s.order ≡ true) × (eqb q p ≡ false)
    kept q g = ground (arith, holds-remove_first p q s.order h.distinct)
