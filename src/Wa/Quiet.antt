-- ===== src/Wa/Quiet.antt =====
-- Steps of the session's handlers that publish nothing and send nothing.
use zchat.Prelude.{◌≡◌, refl, sym, ◌∙◌, subst, Bool, true, false, if◌then◌else◌}
use zchat.Prelude.Exec.{Exec, Result, ok, err, continue, ◌>>=◌}
use zchat.Store.Db.{Sql}
use zchat.Wa.Session.{Session, on_store, attempt, quietly, to_option}

-- The events and the requests are as they were.
pub record Quiet {A : Type 0} (s : Session) (o : Result A × Session) : Type 0 where
  pub events : o.1.events ≡ s.events
  pub sent : o.1.sent ≡ s.sent

-- The same, and the step succeeds with a value.
pub record Returns {A : Type 0} (a : A) (s : Session) (o : Result A × Session) : Type 0 where
  pub value : o.0 ≡ ok a
  pub events : o.1.events ≡ s.events
  pub sent : o.1.sent ≡ s.sent

abbrev pub Settles : {A : Type 0} → Session → Result A × Session → Type 0
Settles {A} s o = (a : A) × Returns a s o

pub Quiet-pure : {A : Type 0} (r : Result A) (s : Session) → Quiet s (r, s)
Quiet-pure r s = record { events = refl; sent = refl }

pub Quiet-if :
    {A : Type 0} (b : Bool) (s : Session) (o p : Result A × Session)
    → Quiet s o
    → Quiet s p
    → Quiet s (if b then o else p)
Quiet-if true s o p h k = h
Quiet-if false s o p h k = k

-- A choice between two steps.
pub Quiet-choice :
    {A : Type 0} (b : Bool) (f g : Exec Session A) (s : Session)
    → Quiet s (f s)
    → Quiet s (g s)
    → Quiet s ((if b then f else g) s)
Quiet-choice true f g s h k = h
Quiet-choice false f g s h k = k

pub Quiet-on_store : {A : Type 0} (m : Sql A) (s : Session) → Quiet s (on_store m s)
unfolding on_store
Quiet-on_store m s = record { events = refl; sent = refl }

pub Quiet-continue :
    {A B : Type 0} (s s' : Session) (r : Result A) (f : A → Exec Session B)
    → s'.events ≡ s.events
    → s'.sent ≡ s.sent
    → ((a : A) (t : Session) → Quiet t (f a t))
    → Quiet s (continue r f s')
Quiet-continue s s' (ok a) f e d h = record {
  events = (h a s').events ∙ e;
  sent = (h a s').sent ∙ d;
}
Quiet-continue s s' (err x) f e d h = record { events = e; sent = d }

pub Quiet->>= :
    {A B : Type 0} (m : Exec Session A) (f : A → Exec Session B) (s : Session)
    → Quiet s (m s)
    → ((a : A) (t : Session) → Quiet t (f a t))
    → Quiet s ((m >>= f) s)
Quiet->>= m f s q h = Quiet-continue s (m s).1 (m s).0 f q.events q.sent h

pub Returns-pure : {A : Type 0} (a : A) (s : Session) → Returns a s (ok a, s)
Returns-pure a s = record { value = refl; events = refl; sent = refl }

pub Returns-quietly : {A : Type 0} (m : Sql A) (s : Session) → Returns tt s (quietly (on_store m) s)
unfolding on_store
Returns-quietly m s = record { value = refl; events = refl; sent = refl }

pub Quiet-attempt : {A : Type 0} (m : Sql A) (s : Session) → Quiet s (attempt (on_store m) s)
unfolding on_store
Quiet-attempt m s = record { events = refl; sent = refl }

pub Returns-attempt :
    {A : Type 0} (m : Sql A) (s : Session)
    → Returns (to_option (m s.conn).0) s (attempt (on_store m) s)
unfolding on_store
Returns-attempt m s = record { value = refl; events = refl; sent = refl }

pub Returns-Quiet :
    {A : Type 0} (a : A) (s : Session) (o : Result A × Session) → Returns a s o → Quiet s o
Returns-Quiet a s o h = record { events = h.events; sent = h.sent }

-- The bind, at the outcome of its first step.
pub Returns-continue :
    {A B : Type 0} {a : A} {b : B} {s : Session} {o : Result A × Session} (f : A → Exec Session B)
    → Returns a s o
    → Returns b o.1 (f a o.1)
    → Returns b s (continue o.0 f o.1)
Returns-continue {b} {s} {o} f h k =
    subst (λ (r : Result _). Returns b s (continue r f o.1)) (sym h.value)
      (record { value = k.value; events = k.events ∙ h.events; sent = k.sent ∙ h.sent })

pub Returns-from :
    {A : Type 0} {a : A} {s : Session} (s' : Session) {o : Result A × Session}
    → s'.events ≡ s.events
    → s'.sent ≡ s.sent
    → Returns a s' o
    → Returns a s o
Returns-from s' e d h = record { value = h.value; events = h.events ∙ e; sent = h.sent ∙ d }

pub Settles->>= :
    {A B : Type 0} (m : Exec Session A) (f : A → Exec Session B) (s : Session)
    → Settles s (m s)
    → ((a : A) (t : Session) → Settles t (f a t))
    → Settles s ((m >>= f) s)
Settles->>= m f s (a, h) k = let (b, j) = k a (m s).1 in (b, Returns-continue f h j)

pub Settles-if :
    {A : Type 0} (b : Bool) (s : Session) (o p : Result A × Session)
    → Settles s o
    → Settles s p
    → Settles s (if b then o else p)
Settles-if true s o p h k = h
Settles-if false s o p h k = k
