-- ===== src/Store/Db.antt =====
-- The database handle of store.go: the tables, and statements that the driver may refuse. A failed
-- statement changes nothing; a transaction that is not committed is rolled back as a whole.
pub mod Atomic
pub mod Keeps
use zchat.Prelude.{
  ℕ, String, Bool, true, false, List, [], ◌∷◌, if◌then◌else◌, eqb, ◌≡◌, refl, arith, Bool-cases,
  inl, inr, ◌⊎◌,
}
use zchat.Prelude.Exec.{Error, failure, not_found, pure, raise, Result, ok, err, Exec}
use zchat.Store.Types.{Chat, MessageRow, MediaRow}

-- A row of `meta`.
pub record MetaRow : Type 0 where
  pub key : String
  pub value : String

pub record Db : Type 0 where
  pub chats : List Chat
  pub messages : List MessageRow
  pub media : List MediaRow
  pub meta : List MetaRow

abbrev pub empty_db : Db
empty_db = record { chats = []; messages = []; media = []; meta = [] }

-- `faults` says of each coming statement whether the driver refuses it: a busy database, a full
-- disk, a cancelled context. No further entry is no further failure.
pub record Conn : Type 0 where
  pub db : Db
  pub faults : List Bool

abbrev pub Sql : Type 0 → Type 0
Sql A = Exec Conn A

abbrev pub refused : List Bool → Bool
refused [] = false
refused (b ∷ bs) = b

abbrev pub later : List Bool → List Bool
later [] = []
later (b ∷ bs) = bs

-- `ExecContext`, with the number of rows that `RowsAffected` reports.
unfoldable pub exec_rows : String → (Db → ℕ) → (Db → Db) → Sql ℕ
exec_rows what rows f c =
    if refused c.faults
    then (err (failure what), record c { faults = later c.faults })
    else (ok (rows c.db), record { db = f c.db; faults = later c.faults })

unfoldable pub exec : String → (Db → Db) → Sql (Unit {0})
exec what f c =
    if refused c.faults
    then (err (failure what), record c { faults = later c.faults })
    else (ok tt, record { db = f c.db; faults = later c.faults })

-- `QueryContext` and the scan of its rows.
unfoldable pub query : {A : Type 0} → String → (Db → Result A) → Sql A
query what f c =
    if refused c.faults
    then (err (failure what), record c { faults = later c.faults })
    else (f c.db, record c { faults = later c.faults })

-- The end of a transaction: `Commit`, or the deferred `Rollback`.
unfoldable pub end_tx : {A : Type 0} → String → Db → Result A → Sql A
end_tx what before (err e) c = (err e, record c { db = before })
end_tx what before (ok a) c =
    if refused c.faults
    then (err (failure what), record { db = before; faults = later c.faults })
    else (ok a, record c { faults = later c.faults })

-- `BeginTx`, the body, and the end.
unfoldable pub transaction : {A : Type 0} → String → Sql A → Sql A
unfolding end_tx
transaction what body c =
    if refused c.faults
    then (err (failure what), record c { faults = later c.faults })
    else let (r, c') = body (record c { faults = later c.faults }) in end_tx what c.db r c'

-- `if n, err := res.RowsAffected(); err == nil && n == 0 { return ErrNotFound }`
unfoldable pub found_rows : ℕ → Sql (Unit {0})
found_rows n = if eqb n 0 then raise not_found else pure tt
