-- ===== src/Store/Db/Keeps.antt =====
-- Invariants of the tables: one rule for each way in which store.go builds an operation.
use zchat.Prelude.{ℕ, String, Bool, true, false, List, [], ◌∷◌, Bool-cases, inl, inr, if◌then◌else◌}
use zchat.Prelude.Exec.{Error, Result, ok, err, pure, raise, continue, ◌>>=◌, for_each}
use zchat.Store.Db.{Db, Conn, Sql, refused, exec, exec_rows, query, transaction, end_tx}

-- Whatever the driver refuses, `m` leaves tables that satisfy `P` if it found such tables.
pub record Keeps {A : Type 0} (P : Db → Type 0) (m : Sql A) : Type 0 where
  pub at : (c : Conn) → P c.db → P (m c).1.db

Keeps-end_tx :
    {A : Type 0} (P : Db → Type 0) (what : String) (before : Db) (r : Result A) (c : Conn)
    → P before
    → P c.db
    → P (end_tx what before r c).1.db
unfolding end_tx
Keeps-end_tx P what before (err e) c hb h = hb
Keeps-end_tx P what before (ok a) c hb h = elim (Bool-cases (refused c.faults)) [
  | inl e ↦ rw e hb
  | inr e ↦ rw e h
]

module _ {P : Db → Type 0} where
  pub Keeps-exec :
      (what : String) (f : Db → Db) → ((db : Db) → P db → P (f db)) → Keeps P (exec what f)
  unfolding exec
  Keeps-exec what f keep = record {
    at =
        λ c h. elim (Bool-cases (refused c.faults)) [ inl e ↦ rw e h | inr e ↦ rw e (keep c.db h) ];
  }

  pub Keeps-exec_rows :
      (what : String) (rows : Db → ℕ) (f : Db → Db)
      → ((db : Db) → P db → P (f db))
      → Keeps P (exec_rows what rows f)
  unfolding exec_rows
  Keeps-exec_rows what rows f keep = record {
    at =
        λ c h. elim (Bool-cases (refused c.faults)) [ inl e ↦ rw e h | inr e ↦ rw e (keep c.db h) ];
  }

  pub Keeps-query : {A : Type 0} (what : String) (f : Db → Result A) → Keeps P (query what f)
  unfolding query
  Keeps-query what f = record {
    at = λ c h. elim (Bool-cases (refused c.faults)) [ inl e ↦ rw e h | inr e ↦ rw e h ];
  }

  pub Keeps-pure : {A : Type 0} (a : A) → Keeps P (pure a)
  Keeps-pure a = record { at = λ c h. h }

  pub Keeps-raise : {A : Type 0} (e : Error) → Keeps P (raise {A = A} e)
  Keeps-raise e = record { at = λ c h. h }

  pub Keeps-if :
      {A : Type 0} (b : Bool) (m n : Sql A) → Keeps P m → Keeps P n → Keeps P (if b then m else n)
  Keeps-if true m n km kn = km
  Keeps-if false m n km kn = kn

  Keeps-continue :
      {A B : Type 0} (r : Result A) (k : A → Sql B) (c : Conn)
      → ((a : A) → Keeps P (k a))
      → P c.db
      → P (continue r k c).1.db
  Keeps-continue (ok a) k c keep h = (keep a).at c h
  Keeps-continue (err e) k c keep h = h

  pub Keeps-bind :
      {A B : Type 0} (m : Sql A) (k : A → Sql B)
      → Keeps P m
      → ((a : A) → Keeps P (k a))
      → Keeps P (m >>= k)
  Keeps-bind m k km kk = record { at = λ c h. Keeps-continue (m c).0 k (m c).1 kk (km.at c h) }

  pub Keeps-for_each :
      {A : Type 0} (xs : List A) (f : A → Sql (Unit {0}))
      → ((x : A) → Keeps P (f x))
      → Keeps P (for_each xs f)
  Keeps-for_each [] f keep = record { at = λ c h. h }
  Keeps-for_each (x ∷ xs) f keep = record {
    at = λ c h.
        Keeps-continue (f x c).0 (λ _. for_each xs f) (f x c).1 (λ _. Keeps-for_each xs f keep)
          ((keep x).at c h);
  }

  pub Keeps-transaction :
      {A : Type 0} (what : String) (m : Sql A) → Keeps P m → Keeps P (transaction what m)
  unfolding transaction end_tx
  Keeps-transaction what m km = record {
    at = λ c h. elim (Bool-cases (refused c.faults)) [
      | inl e ↦ rw e h
      | inr e ↦ rw e (Keeps-end_tx P what c.db _ _ h (km.at _ h))
    ];
  }

pub ruleset keeps_rules =
    (Keeps-query, Keeps-pure, Keeps-raise, Keeps-if, Keeps-bind, Keeps-for_each, Keeps-transaction)
