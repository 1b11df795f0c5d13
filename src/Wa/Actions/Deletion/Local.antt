-- ===== src/Wa/Actions/Deletion/Local.antt =====
-- apps/daemon/wa/actions.go, DeleteMessage: a message is deleted on this device.
use zchat.Prelude.{
  String, ◌≡◌, refl, sym, ap, ◌∙◌, subst, Bool, true, false, not, List, [], ◌∷◌, ◌++◌, Option, none,
  some, if◌then◌else◌, inl, inr,
}
use zchat.Prelude.Exec.{
  Error, failure, not_found, continue, pure, ◌>>=◌, Result, ok, err, Result-cases,
}
use zchat.Prelude.Rows.{find}
use zchat.Store.Types.{Message, MessageRow, MediaRow}
use zchat.Store.Db.{Conn, Db, query, refused}
use zchat.Store.Db.Atomic.{AllOrNothing, nothing, everything}
use zchat.Store.Atomic.{delete_message-AllOrNothing}
use zchat.Store.Messages.{message_id, delete_message, delete_message_rows, delete_media_rows}
use zchat.Store.MessageQueries.{get_message, scan_message}
use zchat.Wa.Session.{Session, Event, message_deleted, on_store, Outgoing, revokes, tell_on, tell}
use zchat.Wa.Actions.{announce_deletion, revoke_own, delete_row, delete_found, session_delete}
use zchat.Wa.Actions.Deletion.{IsGone, IsAnnounced, announced, IsAnnounced-IsGone, get_message-db}

-- What DeleteMessage returns and leaves: the chat of the message that is stored under the id, with
-- the message deleted and the deletion announced under that chat, or an error, with the tables as
-- they were and nothing announced.
pub data Removes (id : String) (s : Session) (out : Result String × Session) : Type 0 where
  refuses :
      (e : Error)
      → out.0 ≡ err e
      → out.1.conn.db ≡ s.conn.db
      → out.1.events ≡ s.events
      → Removes id s out
  removes :
      (row : MessageRow)
      → find message_id id s.conn.db.messages ≡ some row
      → out.0 ≡ ok row.chat_jid
      → IsGone id out.1.conn.db
      → IsAnnounced id row.chat_jid s.events out.1.events
      → Removes id s out

-- What a found message says of its row.
IsRow : String → Db → Message → Type 0
IsRow id db m =
    (row : MessageRow) × (find message_id id db.messages ≡ some row) × (m.chat_jid ≡ row.chat_jid)

chat_of_result : Result Message → String
chat_of_result (ok m) = m.chat_jid
chat_of_result (err e) = ""

scanned_row :
    (media : List MediaRow) (o : Option MessageRow) (m : Message)
    → elim o [ none ↦ err not_found | some r ↦ ok (scan_message media r) ] ≡ ok m
    → (row : MessageRow) × (o ≡ some row) × (m.chat_jid ≡ row.chat_jid)
unfolding scan_message chat_of_result
scanned_row media none m e = absurd (cc e)
scanned_row media (some r) m e = (r, refl, ap chat_of_result (sym e))

answered_row :
    (b : Bool) (c c' : Conn) (id : String) (m : Message)
    → let o : Result Message × Conn = if b then (err (failure "get message"), c') else (
      elim (find message_id id c.db.messages) [
        | none ↦ err not_found
        | some r ↦ ok (scan_message c.db.media r)
      ],
      c',
    ) in
      o.0 ≡ ok m → IsRow id c.db m
unfolding IsRow
answered_row true c c' id m e = absurd (cc e)
answered_row false c c' id m e = scanned_row c.db.media (find message_id id c.db.messages) m e

get_message_row :
    (id : String) (c : Conn) (m : Message) → (get_message id c).0 ≡ ok m → IsRow id c.db m
unfolding get_message query
get_message_row id c m e = answered_row (refused c.faults) c _ id m e

-- How the deletion of a message of a given chat ends: the chat, with the message deleted and
-- announced, or an error, with the tables as they were and nothing announced.
data Ends (id chat : String) (s : Session) (out : Result String × Session) : Type 0 where
  stops :
      (e : Error)
      → out.0 ≡ err e
      → out.1.conn.db ≡ s.conn.db
      → out.1.events ≡ s.events
      → Ends id chat s out
  ends :
      out.0 ≡ ok chat
      → IsGone id out.1.conn.db
      → IsAnnounced id chat s.events out.1.events
      → Ends id chat s out

-- It depends on the tables and the events alone.
Ends-from :
    (id chat : String) (s s' : Session) (out : Result String × Session)
    → s'.conn.db ≡ s.conn.db
    → s'.events ≡ s.events
    → Ends id chat s' out
    → Ends id chat s out
Ends-from id chat s s' out d e (stops x p q r) = stops x p (q ∙ d) (r ∙ e)
Ends-from id chat s s' out d e (ends p g (es, a)) =
    ends p g (es, a ∙ ap (λ (xs : List Event). es ++ message_deleted id chat ∷ xs) e)

Ends-Removes :
    (id : String) (m : Message) (s : Session) (out : Result String × Session)
    → IsRow id s.conn.db m
    → Ends id m.chat_jid s out
    → Removes id s out
unfolding IsRow
Ends-Removes id m s out (row, f, c) (stops x p q r) = refuses x p q r
Ends-Removes id m s out (row, f, c) (ends p g a) =
    removes row f (p ∙ ap ok c) g
      (subst (λ (chat : String). IsAnnounced id chat s.events out.1.events) c a)

deleted-Ends :
    (id chat : String) (s : Session) (out : Result (Unit {0}) × Conn)
    → AllOrNothing (λ db. delete_message_rows id (delete_media_rows id db)) s.conn.db out
    → Ends id chat s (
        continue out.0
          (λ t. announce_deletion id chat >>= λ u. pure chat)
          (record s { conn = out.1 }))
deleted-Ends id chat s out (nothing e p d) =
    subst
      (λ (r : Result (Unit {0})). Ends id chat s (
        continue r (λ t. announce_deletion id chat >>= λ u. pure chat) (record s { conn = out.1 })))
      (sym p) (stops e refl d refl)
deleted-Ends id chat s out (everything t p d) =
    subst
      (λ (r : Result (Unit {0})). Ends id chat s (
        continue r (λ t. announce_deletion id chat >>= λ u. pure chat) (record s { conn = out.1 })))
      (sym p)
      (published (announced id chat (record s { conn = out.1 })).0
        (IsAnnounced-IsGone id chat s (record s { conn = out.1 }) d refl))
  where
    published :
        (announce_deletion id chat (record s { conn = out.1 })).0 ≡ ok tt
        → IsGone id (announce_deletion id chat (record s { conn = out.1 })).1.conn.db
          × IsAnnounced id chat s.events
              (announce_deletion id chat (record s { conn = out.1 })).1.events
        → Ends id chat s
            ((announce_deletion id chat >>= λ u. pure chat) (record s { conn = out.1 }))
    published q h =
        subst
          (λ (r : Result (Unit {0})).
            Ends id chat s (
              continue r (λ u. pure chat)
                (announce_deletion id chat (record s { conn = out.1 })).1))
          (sym q) (ends refl h.0 h.1)

delete_row-Ends : (id chat : String) (s : Session) → Ends id chat s (delete_row id chat s)
unfolding delete_row on_store
delete_row-Ends id chat s =
    deleted-Ends id chat s (delete_message id s.conn) (delete_message-AllOrNothing id s.conn)

-- The connection and the events are as they were.
record Kept (s : Session) (o : Result (Unit {0}) × Session) : Type 0 where
  conn : o.1.conn ≡ s.conn
  events : o.1.events ≡ s.events

Kept-if :
    (b : Bool) (s : Session) (o p : Result (Unit {0}) × Session)
    → Kept s o
    → Kept s p
    → Kept s (if b then o else p)
Kept-if true s o p h k = h
Kept-if false s o p h k = k

unchanged : (r : Result (Unit {0})) (s : Session) → Kept s (r, s)
unchanged r s = record { conn = refl; events = refl }

Kept-tell_on :
    (bs : List Bool) (what : String) (r : Outgoing) (s : Session) → Kept s (tell_on bs what r s)
Kept-tell_on [] what r s = record { conn = refl; events = refl }
Kept-tell_on (true ∷ bs) what r s = record { conn = refl; events = refl }
Kept-tell_on (false ∷ bs) what r s = record { conn = refl; events = refl }

module _ (is_jid : String → Bool) where
  revoke_own-Kept : (row : Message) (s : Session) → Kept s (revoke_own is_jid row s)
  unfolding revoke_own tell
  revoke_own-Kept row s = Kept-if (not row.outgoing) s _ _ (unchanged _ s) (
      Kept-if (not s.has_client) s _ _ (unchanged _ s) (
        Kept-if (not (is_jid row.chat_jid)) s _ _ (unchanged _ s)
          (Kept-tell_on s.refusals "revoke message" (revokes row.chat_jid row.id) s)))

  delete_found-Ends :
      (id : String) (revoke : Bool) (row : Message) (s : Session)
      → Ends id row.chat_jid s (delete_found is_jid id revoke row s)
  unfolding delete_found
  delete_found-Ends id false row s = delete_row-Ends id row.chat_jid s
  delete_found-Ends id true row s =
      let o = revoke_own is_jid row s in
      let kept = revoke_own-Kept row s in
      let e = kept.events in
      let d = ap (λ (x : Conn). x.db) kept.conn in
      elim (Result-cases o.0) [
        | inl (t, p) ↦
            subst
              (λ (r : Result (Unit {0})).
                Ends id row.chat_jid s (continue r (λ u. delete_row id row.chat_jid) o.1))
              (sym p) (Ends-from id row.chat_jid s o.1 _ d e (delete_row-Ends id row.chat_jid o.1))
        | inr (x, p) ↦
            subst
              (λ (r : Result (Unit {0})).
                Ends id row.chat_jid s (continue r (λ u. delete_row id row.chat_jid) o.1))
              (sym p) (stops x refl d e)
      ]

  -- Whichever statements the driver and whichever requests the client refuses, DeleteMessage either
  -- returns the chat of the message that is stored under the id, with the message and its attachment
  -- gone and the deletion published under that chat, or an error, with the tables as they were and
  -- nothing published.
  pub session_delete-Removes :
      (id : String) (revoke : Bool) (s : Session) → Removes id s (session_delete is_jid id revoke s)
  unfolding session_delete on_store
  session_delete-Removes id revoke s =
      let o = get_message id s.conn in
      let s1 : Session = record s { conn = o.1 } in
      let d = get_message-db id s.conn in
      elim (Result-cases o.0) [
        | inl (row, p) ↦
            subst
              (λ (r : Result Message). Removes id s (continue r (delete_found is_jid id revoke) s1))
              (sym p)
              (Ends-Removes id row s _ (get_message_row id s.conn row p)
                (Ends-from id row.chat_jid s s1 _ d refl (delete_found-Ends id revoke row s1)))
        | inr (x, p) ↦
            subst
              (λ (r : Result Message). Removes id s (continue r (delete_found is_jid id revoke) s1))
              (sym p) (refuses x refl d refl)
      ]
