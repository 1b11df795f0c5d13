-- ===== src/Wa/Upholds.antt =====
-- The session's handlers keep the tables consistent: one rule for each way of building a handler.
pub mod Names
pub mod Sending
pub mod Files
pub mod Incoming
pub mod Changes
pub mod Repair
use zchat.Prelude.{String, Bool, true, false, List, Option, if◌then◌else◌}
use zchat.Prelude.Exec.{Error, Exec, Result, ok, err, continue, pure, raise, ◌>>=◌, ◌>>◌}
use zchat.Store.Db.{Db, Sql, query}
use zchat.Store.Db.Keeps.{Keeps, Keeps-query}
use zchat.Store.Calls.{Call, perform, perform-IsConsistent}
use zchat.Store.Consistent.{IsConsistent}
use zchat.Wa.Session.{
  Session, Event, Outgoing, on_store, attempt, quietly, emit, tell, tell_on, publish_chat,
  announce_chat,
}
use zchat.Store.ChatQueries.{get_chat}
use zchat.Store.Types.{Chat}

-- Whatever the driver and the client refuse, `m` leaves consistent tables if it found such tables.
pub record Upholds {A : Type 0} (m : Exec Session A) : Type 0 where
  pub at : (s : Session) → IsConsistent s.conn.db → IsConsistent (m s).1.conn.db

pub Upholds-pure : {A : Type 0} (a : A) → Upholds (pure a)
Upholds-pure a = record { at = λ s h. h }

pub Upholds-raise : {A : Type 0} (e : Error) → Upholds (raise {A = A} e)
Upholds-raise e = record { at = λ s h. h }

-- A step that leaves the connection alone.
pub Upholds-value :
    {A : Type 0} (b : Bool) (m n : Exec Session A)
    → Upholds m
    → Upholds n
    → Upholds (if b then m else n)
Upholds-value true m n hm hn = hm
Upholds-value false m n hm hn = hn

-- A test on the state.
pub Upholds-test :
    {A : Type 0} (b : Session → Bool) (m n : Exec Session A)
    → Upholds m
    → Upholds n
    → Upholds (λ s. if b s then m s else n s)
Upholds-test b m n hm hn = record { at = λ s h. chosen (b s) s h }
  where
    chosen :
        (c : Bool) (s : Session)
        → IsConsistent s.conn.db
        → IsConsistent (if c then m s else n s).1.conn.db
    chosen true s h = hm.at s h
    chosen false s h = hn.at s h

pub Upholds-store : {A : Type 0} (m : Sql A) → Keeps IsConsistent m → Upholds (on_store m)
unfolding on_store
Upholds-store m k = record { at = λ s h. k.at s.conn h }

pub Upholds-call : (k : Call) → Upholds (on_store (perform k))
Upholds-call k = Upholds-store (perform k) (perform-IsConsistent k)

pub Upholds-query :
    {A : Type 0} (what : String) (f : Db → Result A) → Upholds (on_store (query what f))
Upholds-query what f = Upholds-store (query what f) (Keeps-query what f)

Upholds-continue :
    {A B : Type 0} (r : Result A) (f : A → Exec Session B) (s : Session)
    → ((a : A) → Upholds (f a))
    → IsConsistent s.conn.db
    → IsConsistent (continue r f s).1.conn.db
Upholds-continue (ok a) f s k h = (k a).at s h
Upholds-continue (err e) f s k h = h

pub Upholds->>= :
    {A B : Type 0} (m : Exec Session A) (f : A → Exec Session B)
    → Upholds m
    → ((a : A) → Upholds (f a))
    → Upholds (m >>= f)
Upholds->>= m f hm hf = record { at = λ s h. Upholds-continue (m s).0 f (m s).1 hf (hm.at s h) }

-- A step that goes on after an error, too.
pub Upholds-then :
    {A B : Type 0} (m : Exec Session A) (f : Result A → Exec Session B)
    → Upholds m
    → ((r : Result A) → Upholds (f r))
    → Upholds (λ s. f (m s).0 (m s).1)
Upholds-then m f hm hf = record { at = λ s h. (hf (m s).0).at (m s).1 (hm.at s h) }

pub Upholds-quietly : {A : Type 0} (m : Exec Session A) → Upholds m → Upholds (quietly m)
Upholds-quietly m hm = record { at = hm.at }

pub Upholds-attempt : {A : Type 0} (m : Exec Session A) → Upholds m → Upholds (attempt m)
Upholds-attempt m hm = record { at = hm.at }

-- A statement whose error is only logged.
pub Upholds-quiet_call : (k : Call) → Upholds (quietly (on_store (perform k)))
Upholds-quiet_call k = Upholds-quietly (on_store (perform k)) (Upholds-call k)

pub Upholds-emit : (e : Event) → Upholds (emit e)
Upholds-emit e = record { at = λ s h. h }

pub Upholds-tell : (what : String) (r : Outgoing) → Upholds (tell what r)
unfolding tell
Upholds-tell what r = record { at = λ s h. told s.refusals s h }
  where
    told :
        (bs : List Bool) (s : Session)
        → IsConsistent s.conn.db
        → IsConsistent (tell_on bs what r s).1.conn.db
    told List.[] s h = h
    told (List.◌∷◌ true bs) s h = h
    told (List.◌∷◌ false bs) s h = h

Upholds-announce_chat : (r : Result Chat) → Upholds (announce_chat r)
Upholds-announce_chat (ok c) = record { at = λ s h. h }
Upholds-announce_chat (err e) = record { at = λ s h. h }

pub Upholds-get_chat : (jid : String) → Upholds (on_store (get_chat jid))
unfolding get_chat
Upholds-get_chat jid = Upholds-query _ _

pub Upholds-publish_chat : (jid : String) → Upholds (publish_chat jid)
unfolding publish_chat
Upholds-publish_chat jid =
    Upholds-then (on_store (get_chat jid)) announce_chat (Upholds-get_chat jid)
      Upholds-announce_chat
