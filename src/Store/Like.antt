-- ===== src/Store/Like.antt =====
-- Text tests of the queries in store.go: `LIKE`, `ESCAPE`, `SUBSTR`/`INSTR`, and escapeLike.
pub mod Search
use Prim.Native.Char.{code}
use zchat.Prelude.{
  ℕ, ◌+◌, ◌-◌, String, ◌≡◌, refl, Bool, true, false, ◌&&◌, ◌||◌, List, [], ◌∷◌, ◌++◌, Option, none,
  some, leb, eqb, if◌then◌else◌,
}

-- The code points of a text.
abbrev pub codes : String → List ℕ
codes String.[] = []
codes (String.◌∷◌ c s) = code c ∷ codes s

-- SQLite's LIKE ignores the case of ASCII letters.
unfoldable pub fold_case : ℕ → ℕ
fold_case c = if leb b'A' c && leb c b'Z' then c + 32 else c

-- A pattern, read: `%`, `_`, one character, or an escape character with nothing behind it.
pub data Token : Type 0 where
  any_run any_one never : Token
  lit : ℕ → Token

abbrev pub is_escape : Option ℕ → ℕ → Bool
is_escape none c = false
is_escape (some e) c = eqb c e

abbrev pub wildcard : ℕ → Token
wildcard c = if eqb c b'%' then any_run else if eqb c b'_' then any_one else lit c

-- The second argument tells that the last character was the escape character.
unfoldable pub tokens : Option ℕ → Bool → List ℕ → List Token
tokens esc true [] = never ∷ []
tokens esc true (c ∷ p) = lit c ∷ tokens esc false p
tokens esc false [] = []
tokens esc false (c ∷ p) = elim (is_escape esc c) [
  | true ↦ tokens esc true p
  | false ↦ wildcard c ∷ tokens esc false p
]

unfoldable pub like : List Token → List ℕ → Bool
unfolding fold_case
like [] [] = true
like [] (c ∷ t) = false
like (any_run ∷ p) [] = like p []
like (any_run ∷ p) (c ∷ t) = like p (c ∷ t) || like (any_run ∷ p) t
like (any_one ∷ p) [] = false
like (any_one ∷ p) (c ∷ t) = like p t
like (never ∷ p) t = false
like (lit d ∷ p) [] = false
like (lit d ∷ p) (c ∷ t) = eqb (fold_case c) (fold_case d) && like p t

-- `text LIKE pattern`
unfoldable pub is_like : List ℕ → String → Bool
unfolding like tokens
is_like pattern text = like (tokens none false pattern) (codes text)

-- `text LIKE pattern ESCAPE '\'`
unfoldable pub is_like_escaped : List ℕ → String → Bool
unfolding like tokens
is_like_escaped pattern text = like (tokens (some b'\\') false pattern) (codes text)

-- escapeLike: each of `\`, `%` and `_` gets a backslash.
unfoldable pub escape_like : List ℕ → List ℕ
escape_like [] = []
escape_like (c ∷ s) =
    if eqb c b'\\' || eqb c b'%' || eqb c b'_' then b'\\' ∷ c ∷ escape_like s else c ∷ escape_like s

-- The pattern of SearchChats and SearchMessages.
unfoldable pub search_pattern : String → List ℕ
unfolding escape_like
search_pattern query = b'%' ∷ escape_like (codes query) ++ b'%' ∷ []

-- The text before its first `@`; none if there is no `@`.
unfoldable pub before_at : List ℕ → Option (List ℕ)
before_at [] = none
before_at (c ∷ s) = elim (eqb c b'@') [
  | true ↦ some []
  | false ↦ elim (before_at s) [ none ↦ none | some u ↦ some (c ∷ u) ]
]

-- `SUBSTR(jid, 1, INSTR(jid, '@') - 1)`, which is empty where there is no `@`.
unfoldable pub jid_user : String → List ℕ
unfolding before_at
jid_user jid = elim (before_at (codes jid)) [ none ↦ [] | some u ↦ u ]

unfoldable pub same_codes : List ℕ → List ℕ → Bool
same_codes [] [] = true
same_codes [] (d ∷ t) = false
same_codes (c ∷ s) [] = false
same_codes (c ∷ s) (d ∷ t) = eqb c d && same_codes s t
