-- ===== src/Service/Reply.antt =====
-- apps/daemon/service/service.go: how the handlers answer, and the size of a page.
use zchat.Prelude.{Bool, true, false, ◌||◌, if◌then◌else◌, arith}
use zchat.Prelude.Int.{ℤ, pos, negsuc, ◌≤ℤ◌, ltb_ℤ, leb_ℤ}
use zchat.Prelude.Exec.{Exec, Error, not_found, failure, Result, ok, err}
use zchat.Wa.Session.{Session}

-- The codes of google.golang.org/grpc/codes that the handlers return.
pub data Code : Type 0 where
  internal unavailable invalid_argument missing : Code

-- A response, or a status with its code; its text is not modelled.
pub data Reply (A : Type 0) : Type 0 where
  replies : A → Reply A
  rejects : Code → Reply A

abbrev pub Handler : Type 0 → Type 0
Handler A = Session → Reply A × Session

-- `errors.Is(err, store.ErrNotFound)`, or else another code.
abbrev pub missing_or : Code → Error → Code
missing_or c not_found = missing
missing_or c (failure what) = c

abbrev pub reply_with : {A B : Type 0} → (Error → Code) → (A → B) → Result A → Reply B
reply_with code f (ok a) = replies (f a)
reply_with code f (err e) = rejects (code e)

-- A handler that calls the session and wraps its answer.
abbrev pub answer : {A B : Type 0} → (Error → Code) → (A → B) → Exec Session A → Handler B
answer code f m s = let (r, s') = m s in (reply_with code f r, s')

-- A handler behind the check of its arguments.
abbrev pub checked : {A : Type 0} → Bool → Handler A → Handler A
checked true h s = h s
checked false h s = (rejects invalid_argument, s)

-- maxPageSize
abbrev pub max_page_size : ℤ
max_page_size = pos 200

-- `if limit <= 0 || limit > maxPageSize { limit = maxPageSize }`
unfoldable pub page_limit : ℤ → ℤ
page_limit limit = if leb_ℤ limit (pos 0) || ltb_ℤ max_page_size limit then max_page_size else limit

-- `if offset < 0 { offset = 0 }`
unfoldable pub page_offset : ℤ → ℤ
page_offset offset = if ltb_ℤ offset (pos 0) then pos 0 else offset

-- Whatever limit a client asks for, a page has room for at least one entry and for at most 200.
pub page_limit_bounds : (limit : ℤ) → (pos 1 ≤ℤ page_limit limit) × (page_limit limit ≤ℤ pos 200)
unfolding page_limit
page_limit_bounds (pos n) = ground arith
page_limit_bounds (negsuc k) = ground arith
