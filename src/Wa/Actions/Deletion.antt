-- ===== src/Wa/Actions/Deletion.antt =====
-- apps/daemon/wa/actions.go: a message is announced as deleted exactly where it is gone, whichever
-- statements the driver refuses.
pub mod Local
pub mod Success
use zchat.Prelude.{
  String, ◌≡◌, refl, sym, ap, ◌∙◌, subst, Bool, true, false, not, List, [], ◌∷◌, ◌++◌, none,
  if◌then◌else◌, Bool-cases, inl, inr, eq_refl,
}
use zchat.Prelude.Exec.{Error, continue, pure, ◌>>=◌, Result, ok, err, Result-cases}
use zchat.Prelude.Rows.{find, find-delete}
use zchat.Store.Types.{Chat, Message}
use zchat.Store.Db.{Db, Conn, query, exec, refused}
use zchat.Store.Db.Atomic.{AllOrNothing, nothing, everything}
use zchat.Store.Atomic.{delete_message-AllOrNothing}
use zchat.Store.ChatQueries.{get_chat}
use zchat.Store.Messages.{
  message_id, media_id, delete_message, delete_message_rows, delete_media_rows,
  refresh_last_message, refresh_last_message_rows,
}
use zchat.Store.MessageQueries.{get_message}
use zchat.Wa.Session.{
  Session, chat_updated, Event, message_deleted, on_store, Outgoing, revokes, tell_on, tell,
  publish_chat, announce_chat,
}
use zchat.Wa.Actions.{
  announce_deletion, after_deletion, on_revoke, on_delete_for_me, revoke_own, delete_row,
  delete_found, session_delete,
}

-- Neither the message nor an attachment of it is stored.
abbrev pub IsGone : String → Db → Type 0
IsGone id db = (find message_id id db.messages ≡ none) × (find media_id id db.media ≡ none)

-- The deletion has been published.
abbrev pub IsAnnounced : String → String → List Event → List Event → Type 0
IsAnnounced id chat before after =
    (es : List Event) × (after ≡ es ++ message_deleted id chat ∷ before)

-- The message has been deleted and announced, or nothing has changed and nothing is announced.
pub data Deletes (id chat : String) (s s' : Session) : Type 0 where
  fails : s'.conn.db ≡ s.conn.db → s'.events ≡ s.events → Deletes id chat s s'
  succeeds : IsGone id s'.conn.db → IsAnnounced id chat s.events s'.events → Deletes id chat s s'

gone : (id : String) (db : Db) → IsGone id (delete_message_rows id (delete_media_rows id db))
unfolding delete_message_rows delete_media_rows
gone id db = (
  find-delete message_id id id db.messages ∙ rw (eq_refl id) refl,
  find-delete media_id id id db.media ∙ rw (eq_refl id) refl,
)

refresh_keeps :
    (chat : String) (c : Conn)
    → ((refresh_last_message chat c).1.db.messages ≡ c.db.messages)
      × ((refresh_last_message chat c).1.db.media ≡ c.db.media)
unfolding refresh_last_message exec refresh_last_message_rows
refresh_keeps chat c = elim (Bool-cases (refused c.faults)) [
  | inl e ↦ rw e (refl, refl)
  | inr e ↦ rw e (refl, refl)
]

get_chat-db : (jid : String) (c : Conn) → (get_chat jid c).1.db ≡ c.db
unfolding get_chat query
get_chat-db jid c = elim (Bool-cases (refused c.faults)) [ inl e ↦ rw e refl | inr e ↦ rw e refl ]

pub get_message-db : (id : String) (c : Conn) → (get_message id c).1.db ≡ c.db
unfolding get_message query
get_message-db id c = elim (Bool-cases (refused c.faults)) [ inl e ↦ rw e refl | inr e ↦ rw e refl ]

announce_chat_lem :
    (r : Result Chat) (s : Session)
    → ((announce_chat r s).1.conn ≡ s.conn)
      × ((es : List Event) × ((announce_chat r s).1.events ≡ es ++ s.events))
announce_chat_lem (ok chat) s = (refl, (chat_updated chat ∷ [], refl))
announce_chat_lem (err e) s = (refl, ([], refl))

announce_chat-ok : (r : Result Chat) (s : Session) → (announce_chat r s).0 ≡ ok tt
announce_chat-ok (ok chat) s = refl
announce_chat-ok (err e) s = refl

-- What announce_deletion leaves of the tables of messages, and the events behind it.
pub announced :
    (id chat : String) (s : Session)
    → ((announce_deletion id chat s).0 ≡ ok tt)
      × ((announce_deletion id chat s).1.conn.db.messages ≡ s.conn.db.messages)
      × ((announce_deletion id chat s).1.conn.db.media ≡ s.conn.db.media)
      × IsAnnounced id chat s.events (announce_deletion id chat s).1.events
unfolding announce_deletion on_store publish_chat
announced id chat s =
    let c1 = (refresh_last_message chat s.conn).1 in
    let (k, m) = refresh_keeps chat s.conn in
    let (r, c2) = get_chat chat c1 in
    let s2 : Session = record s { conn = c2; events = message_deleted id chat ∷ s.events } in
    let (c, (es, e)) = announce_chat_lem r s2 in
    let d = ap (λ (x : Conn). x.db) c ∙ get_chat-db chat c1 in
    (
      announce_chat-ok r s2,
      ap (λ (x : Db). x.messages) d ∙ k,
      ap (λ (x : Db). x.media) d ∙ m,
      (es, e),
    )

-- Once the store has deleted the message.
pub IsAnnounced-IsGone :
    (id chat : String) (s s' : Session)
    → s'.conn.db ≡ delete_message_rows id (delete_media_rows id s.conn.db)
    → s'.events ≡ s.events
    → IsGone id (announce_deletion id chat s').1.conn.db
      × IsAnnounced id chat s.events (announce_deletion id chat s').1.events
IsAnnounced-IsGone id chat s s' d e =
    let (r, k, m, (es, a)) = announced id chat s' in
    let (g, h) = gone id s.conn.db in
    (
      (
        ap (find message_id id) (k ∙ ap (λ (x : Db). x.messages) d) ∙ g,
        ap (find media_id id) (m ∙ ap (λ (x : Db). x.media) d) ∙ h,
      ),
      (es, a ∙ ap (λ (xs : List Event). es ++ message_deleted id chat ∷ xs) e),
    )

announced-Deletes :
    (id chat : String) (s s' : Session)
    → s'.conn.db ≡ delete_message_rows id (delete_media_rows id s.conn.db)
    → s'.events ≡ s.events
    → Deletes id chat s (announce_deletion id chat s').1
announced-Deletes id chat s s' d e =
    let (g, a) = IsAnnounced-IsGone id chat s s' d e in succeeds g a

after_deletion-Deletes :
    (id chat : String) (s : Session) (out : Result (Unit {0}) × Conn)
    → AllOrNothing (λ db. delete_message_rows id (delete_media_rows id db)) s.conn.db out
    → Deletes id chat s (after_deletion out.0 id chat (record s { conn = out.1 })).1
after_deletion-Deletes id chat s out (nothing e p d) =
    subst
      (λ (r : Result (Unit {0})).
        Deletes id chat s (after_deletion r id chat (record s { conn = out.1 })).1)
      (sym p) (fails d refl)
after_deletion-Deletes id chat s out (everything a p d) =
    subst
      (λ (r : Result (Unit {0})).
        Deletes id chat s (after_deletion r id chat (record s { conn = out.1 })).1)
      (sym p) (announced-Deletes id chat s (record s { conn = out.1 }) d refl)

-- A revocation by another participant and a deletion on another device: the message goes with its
-- attachment and is announced, or the tables stay and nothing is announced.
pub remote-Deletes :
    (chat id : String) (s : Session)
    → Deletes id chat s (on_revoke chat id s).1 × Deletes id chat s (on_delete_for_me chat id s).1
unfolding on_revoke on_delete_for_me on_store
remote-Deletes chat id s =
    let h =
      after_deletion-Deletes id chat s (delete_message id s.conn)
        (delete_message-AllOrNothing id s.conn) in
    (h, h)
