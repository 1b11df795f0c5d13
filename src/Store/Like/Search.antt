-- ===== src/Store/Like/Search.antt =====
-- What the escaped search pattern of store.go matches.
use zchat.Prelude.{
  ℕ, String, ◌≡◌, refl, sym, ap, true, false, ◌↔◌, List, [], ◌∷◌, ◌++◌, map, Option, some, arith,
  Bool-cases, inl, inr,
}
use zchat.Store.Like.{
  codes, fold_case, any_run, lit, tokens, like, escape_like, search_pattern, is_like_escaped,
}

abbrev backslash : Option ℕ
backslash = some b'\\'

-- A text with the case of its ASCII letters forgotten.
abbrev pub folded : List ℕ → List ℕ
folded = map fold_case

tokens-escape_like :
    (q rest : List ℕ)
    → tokens backslash false (escape_like q ++ rest) ≡ map lit q ++ tokens backslash false rest
unfolding tokens escape_like
tokens-escape_like [] rest = refl
tokens-escape_like (c ∷ q) rest = ground (arith, tokens-escape_like q rest)

like-any_run : (t : List ℕ) → like (any_run ∷ []) t ≡ true
unfolding like
like-any_run [] = refl
like-any_run (c ∷ t) = ground (arith, like-any_run t)

like-prefix :
    (q t : List ℕ)
    → like (map lit q ++ any_run ∷ []) t ≡ true
    → (after : List ℕ) × (folded t ≡ folded q ++ after)
unfolding like
like-prefix [] t h = (folded t, refl)
like-prefix (d ∷ q) [] h = cc
like-prefix (d ∷ q) (c ∷ t) h =
    let (after, e) = like-prefix q t (ground arith) in (after, ground arith)

prefix-like :
    (q t after : List ℕ) → folded t ≡ folded q ++ after → like (map lit q ++ any_run ∷ []) t ≡ true
unfolding like
prefix-like [] t after e = like-any_run t
prefix-like (d ∷ q) [] after e = cc
prefix-like (d ∷ q) (c ∷ t) after e = ground (arith, prefix-like q t after)

-- The query occurs in the text.
abbrev pub Occurs : List ℕ → List ℕ → Type 0
Occurs q t = (before : List ℕ) × (after : List ℕ) × (folded t ≡ before ++ (folded q ++ after))

later-Occurs : (q : List ℕ) (c : ℕ) (t : List ℕ) → Occurs q t → Occurs q (c ∷ t)
later-Occurs q c t (before, after, e) = (fold_case c ∷ before, after, ap (◌∷◌ (fold_case c)) e)

like-Occurs : (q t : List ℕ) → like (any_run ∷ (map lit q ++ any_run ∷ [])) t ≡ true → Occurs q t
unfolding like
like-Occurs q [] h = let (after, e) = like-prefix q [] h in ([], after, e)
like-Occurs q (c ∷ t) h = elim (Bool-cases (like (map lit q ++ any_run ∷ []) (c ∷ t))) [
  | inl here ↦ let (after, e) = like-prefix q (c ∷ t) here in ([], after, e)
  | inr miss ↦ later-Occurs q c t (like-Occurs q t (ground arith))
]

Occurs-like :
    (q t before after : List ℕ)
    → folded t ≡ before ++ (folded q ++ after)
    → like (any_run ∷ (map lit q ++ any_run ∷ [])) t ≡ true
unfolding like
Occurs-like q [] [] after e = prefix-like q [] after e
Occurs-like q [] (b ∷ before) after e = cc
Occurs-like q (c ∷ t) [] after e = ground (arith, prefix-like q (c ∷ t) after e)
Occurs-like q (c ∷ t) (b ∷ before) after e = ground (arith, Occurs-like q t before after)

tokens-search_pattern :
    (q : String)
    → tokens backslash false (search_pattern q) ≡ any_run ∷ (map lit (codes q) ++ any_run ∷ [])
unfolding tokens search_pattern
tokens-search_pattern q = ap (◌∷◌ any_run) (tokens-escape_like (codes q) (b'%' ∷ []))

-- A search finds exactly the texts that contain the query, up to the case of ASCII letters:
-- wildcards and backslashes in the query stand for themselves.
pub search-Occurs :
    (q text : String)
    → (is_like_escaped (search_pattern q) text ≡ true) ↔ Occurs (codes q) (codes text)
unfolding is_like_escaped
search-Occurs q text = (
  λ h. like-Occurs (codes q) (codes text) (rw (sym (tokens-search_pattern q)) h),
  λ o. rw tokens-search_pattern (Occurs-like (codes q) (codes text) o.0 o.1 o.2),
)
