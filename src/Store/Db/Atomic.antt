-- ===== src/Store/Db/Atomic.antt =====
-- What a statement and a transaction leave behind: all of their effect, or none.
use zchat.Prelude.{ℕ, String, ◌≡◌, Bool-cases, inl, inr, ◌∙◌, ap}
use zchat.Prelude.Exec.{Error, failure, Result, ok, err, ◌>>=◌, continue}
use zchat.Store.Db.{Db, Conn, Sql, exec, exec_rows, transaction, end_tx, refused}

-- Either `m` returns an error and the tables are as before, or it succeeds and they are `f` of them.
pub data AllOrNothing {A : Type 0} (f : Db → Db) (db : Db) (out : Result A × Conn) : Type 0 where
  nothing : (e : Error) → out.0 ≡ err e → out.1.db ≡ db → AllOrNothing f db out
  everything : (a : A) → out.0 ≡ ok a → out.1.db ≡ f db → AllOrNothing f db out

-- `m` runs to its end with the effect `f`, or stops at an error.
pub data Runs {A : Type 0} (f : Db → Db) (db : Db) (out : Result A × Conn) : Type 0 where
  stops : (e : Error) → out.0 ≡ err e → Runs f db out
  ends : (a : A) → out.0 ≡ ok a → out.1.db ≡ f db → Runs f db out

pub exec-AllOrNothing :
    (what : String) (f : Db → Db) (c : Conn) → AllOrNothing f c.db (exec what f c)
unfolding exec
exec-AllOrNothing what f c = elim (Bool-cases (refused c.faults)) [
  | inl h ↦ nothing (failure what) (rw h) (rw h)
  | inr h ↦ everything tt (rw h) (rw h)
]

pub exec_rows-Runs :
    (what : String) (rows : Db → ℕ) (f : Db → Db) (c : Conn) → Runs f c.db (exec_rows what rows f c)
unfolding exec_rows
exec_rows-Runs what rows f c = elim (Bool-cases (refused c.faults)) [
  | inl h ↦ stops (failure what) (rw h)
  | inr h ↦ ends (rows c.db) (rw h) (rw h)
]

pub AllOrNothing-Runs :
    {A : Type 0} {f : Db → Db} {db : Db} {out : Result A × Conn}
    → AllOrNothing f db out
    → Runs f db out
AllOrNothing-Runs (nothing e r d) = stops e r
AllOrNothing-Runs (everything a r d) = ends a r d

end_tx-AllOrNothing :
    {A : Type 0} (what : String) (f : Db → Db) (before : Db) (out : Result A × Conn)
    → Runs f before out
    → AllOrNothing f before (end_tx what before out.0 out.1)
unfolding end_tx
end_tx-AllOrNothing what f before (r, c) (stops e h) = nothing e (rw h) (rw h)
end_tx-AllOrNothing what f before (r, c) (ends a h d) = elim (Bool-cases (refused c.faults)) [
  | inl p ↦ nothing (failure what) (rw (h, p)) (rw (h, p))
  | inr p ↦ everything a (rw (h, p)) (rw (h, p) d)
]

pub transaction-AllOrNothing :
    {A : Type 0} (what : String) (f : Db → Db) (body : Sql A)
    → ((c : Conn) → Runs f c.db (body c))
    → (c : Conn) → AllOrNothing f c.db (transaction what body c)
unfolding transaction end_tx
transaction-AllOrNothing what f body run c = elim (Bool-cases (refused c.faults)) [
  | inl p ↦ nothing (failure what) (rw p) (rw p)
  | inr p ↦ rw p (end_tx-AllOrNothing what f c.db _ (run _))
]

Runs-from :
    {B : Type 0} (f g : Db → Db) (db : Db) {db' : Db} (out : Result B × Conn)
    → db' ≡ f db
    → Runs g db' out
    → Runs (λ d. g (f d)) db out
Runs-from f g db out p (stops e r) = stops e r
Runs-from f g db out p (ends b r d) = ends b r (d ∙ ap g p)

Runs-next :
    {A B : Type 0} (f g : Db → Db) (db : Db) (out : Result A × Conn) (k : A → Sql B)
    → Runs f db out
    → ((a : A) (c : Conn) → Runs g c.db (k a c))
    → Runs (λ d. g (f d)) db (continue out.0 k out.1)
Runs-next f g db (r, c) k (stops e h) run = stops e (rw h)
Runs-next f g db (r, c) k (ends a h d) run = rw h (Runs-from f g db (k a c) d (run a c))

-- One step after another.
pub Runs->>= :
    {A B : Type 0} (f g : Db → Db) (m : Sql A) (k : A → Sql B)
    → ((c : Conn) → Runs f c.db (m c))
    → ((a : A) (c : Conn) → Runs g c.db (k a c))
    → (c : Conn) → Runs (λ db. g (f db)) c.db ((m >>= k) c)
Runs->>= f g m k run_m run_k c = Runs-next f g c.db (m c) k (run_m c) run_k
