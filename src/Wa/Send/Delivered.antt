-- ===== src/Wa/Send/Delivered.antt =====
-- apps/daemon/wa/session.go, SendText: where nothing is refused, the message is sent and stored.

use zchat.Prelude.{
  String, ◌≡◌, refl, sym, ap, subst, Bool, true, false, List, [], ◌∷◌, Option, none, some,
}
use zchat.Prelude.Int.{ℤ}
use zchat.Prelude.Exec.{Result, ok, err, pure, continue, ◌>>◌}
use zchat.Prelude.Rows.{find, IsUnique, update-IsUnique}
use zchat.Store.Types.{Chat, Message, MessageRow, status_sent, status_pending, status_rank}
use zchat.Store.Db.{Db, Conn, exec}
use zchat.Store.Messages.{
  message_id, has_id, message_row, update_message_status, update_message_timestamp,
  update_message_sender, set_timestamp_rows,
}
use zchat.Store.Chats.{touch_chat, touch_chat_rows}
use zchat.Store.ChatQueries.{get_chat}
use zchat.Store.Status.{calm, advanced, advance_row, advance_from, update_message_status_lem}
use zchat.Store.Consistent.{IsConsistent}
use zchat.Store.Atomic.{insert_rows}
use zchat.Store.Inserted.{insert_message-calm, find_changed, found_inserted, inserted-IsUnique}
use zchat.Wa.Session.{
  Session, Event, Outgoing, message_updated, message_received, on_store, emit, tell, publish_chat,
  announce_chat,
}
use zchat.Wa.Names.{NameCache}
use zchat.Wa.Content.{WaMessage, type_text}
use zchat.Wa.Whatsmeow.{Whatsmeow}
use zchat.Wa.Lookup.{is_group_server}
use zchat.Wa.Reply.{conversation}
use zchat.Wa.Send.{
  SendResponse, with_sender, corrects, correct_sender, sent_row, touch_sent, preview_sent,
  finish_send, concluded, deliver, pending_row, send_new, send_text, send_text_to,
}
use zchat.Wa.Send.Outcome.{final_row, concluded-accepted}
use zchat.Wa.Send.Stored.{
  Stored, Leaves, leaves_query, leaves_exec, leaves_sender, Leaves-pure, leaves_continue,
  Leaves->>=, Leaves-choice, Leaves-quietly, Leaves-resolve_chat_name,
}

module _ (W : Whatsmeow) where
  open W use {Jid, parse_jid, to_string, to_non_ad, server}

  module _ (id chat body : String) (ts : ℤ) where
    leaves_announced :
        (r : Result Chat) (s : Session)
        → Stored id chat body ts s.conn
        → Stored id chat body ts (announce_chat r s).1.conn
    leaves_announced (ok c) s h = h
    leaves_announced (err e) s h = h

    Leaves-publish_chat : (jid : String) → Leaves (Stored id chat body ts) (publish_chat jid)
    unfolding publish_chat on_store get_chat
    Leaves-publish_chat jid = record {
      at = λ s h. leaves_announced _ _ (leaves_query id chat body ts _ _ s.conn h);
    }

    Leaves-correct_sender :
        (sender : Jid) (row : Message)
        → Leaves (Stored id chat body ts) (correct_sender W sender row)
    Leaves-correct_sender sender row =
        Leaves-choice id chat body ts (corrects W sender row) _ _
          (record {
            at =
                (Leaves->>= id chat body ts _ (λ u. pure (with_sender (to_string sender) row))
                  (Leaves-quietly id chat body ts (update_message_sender row.id (to_string sender))
                    (leaves_sender id chat body ts row.id (to_string sender)))
                  (λ u. Leaves-pure id chat body ts _)).at;
          })
          (Leaves-pure id chat body ts row)

    Leaves-preview_sent :
        (jid : Jid) (row : Message) → Leaves (Stored id chat body ts) (preview_sent W jid row)
    unfolding touch_chat touch_chat_rows
    Leaves-preview_sent jid row =
        Leaves->>= id chat body ts _ (touch_sent W jid row)
          (Leaves-resolve_chat_name id chat body ts W jid (is_group_server (server jid)))
          (λ name. record {
            at =
                (Leaves->>= id chat body ts _ (λ u. pure row)
                  (Leaves-quietly id chat body ts _
                    (λ c. leaves_exec id chat body ts _ _ c (λ db. refl)))
                  (λ u. Leaves-pure id chat body ts row)).at;
          })

  -- finishSend, on a connection that refuses nothing, to tables that hold the row as pending.
  finish_send-Stored :
      (row : Message) (jid : Jid) (resp : SendResponse W) (s : Session) (db : Db) (r : MessageRow)
      → s.conn ≡ calm db
      → IsUnique message_id db.messages
      → find message_id row.id db.messages ≡ some r
      → r.status ≡ status_pending
      → Stored row.id r.chat_jid r.body resp.timestamp (finish_send W row jid resp s).1.conn
  unfolding finish_send on_store update_message_timestamp exec set_timestamp_rows status_rank
  finish_send-Stored row jid resp s db r e u f p =
      (Leaves->>= row.id r.chat_jid r.body resp.timestamp
          (correct_sender W (to_non_ad resp.sender) (sent_row resp.timestamp row))
          (preview_sent W jid) (Leaves-correct_sender row.id r.chat_jid r.body resp.timestamp _ _)
          (Leaves-preview_sent row.id r.chat_jid r.body resp.timestamp jid)).at
        (on_store (update_message_status row.id status_sent)
          (on_store (update_message_timestamp row.id resp.timestamp) s).1).1
        (subst
          (λ (c : Conn).
            Stored row.id r.chat_jid r.body resp.timestamp
              (update_message_status row.id status_sent
                (update_message_timestamp row.id resp.timestamp c).1).1)
          (sym e) updated)
    where
      timed : MessageRow → MessageRow
      timed m = record m { fields = record m.fields { timestamp = resp.timestamp } }

      db1 : Db
      db1 = set_timestamp_rows row.id resp.timestamp db

      found1 : find message_id row.id db1.messages ≡ some (timed r)
      found1 = find_changed row.id timed db.messages r (λ m. refl) f

      unique1 : IsUnique message_id db1.messages
      unique1 = update-IsUnique message_id timed (λ m. refl) (has_id row.id) db.messages u

      updated :
          Stored row.id r.chat_jid r.body resp.timestamp
            (update_message_status row.id status_sent (calm db1)).1
      updated = record {
        db = advanced row.id status_sent db1;
        is_calm =
            ap (λ (o : Result (Unit {0}) × Conn). o.1)
              (update_message_status_lem db1 unique1 row.id status_sent);
        row = advance_row (status_rank status_sent) status_sent (timed r);
        found =
            find_changed row.id (advance_row (status_rank status_sent) status_sent) db1.messages
              (timed r) (λ m. refl) found1;
        chat_jid = refl;
        text = refl;
        time = refl;
        status = ap (λ (t : String). advance_from t status_sent (status_rank status_sent)) p;
      }

  concluded-Stored :
      (what : String) (row : Message) (jid : Jid) (resp : SendResponse W) (s : Session) (db : Db)
      (r : MessageRow)
      → s.conn ≡ calm db
      → IsUnique message_id db.messages
      → find message_id row.id db.messages ≡ some r
      → r.status ≡ status_pending
      → Stored row.id r.chat_jid r.body resp.timestamp
          (concluded W (ok tt) what row jid resp s).1.conn
  concluded-Stored what row jid resp s db r e u f p =
      leaves_continue row.id r.chat_jid r.body resp.timestamp (finish_send W row jid resp s).0
        (λ row'. emit (message_updated row') >> (publish_chat row'.chat_jid >> pure row'))
        (finish_send W row jid resp s).1 (finish_send-Stored row jid resp s db r e u f p)
        (λ row'. record {
          at = λ t h.
              (Leaves->>= row.id r.chat_jid r.body resp.timestamp (publish_chat row'.chat_jid)
                  (λ u'. pure row')
                  (Leaves-publish_chat row.id r.chat_jid r.body resp.timestamp row'.chat_jid)
                  (λ u'. Leaves-pure row.id r.chat_jid r.body resp.timestamp row')).at
                (record t { events = message_updated row' ∷ t.events }) h;
        })

  -- A session on which neither the driver nor the client refuses anything.
  abbrev pub calm_session : Db → List Event → List Outgoing → Bool → NameCache → Session
  calm_session db events sent logged_in names = record {
    conn = calm db;
    events = events;
    sent = sent;
    has_client = true;
    logged_in = logged_in;
    refusals = [];
    names = names;
  }

  -- The operation returns the row as the server's answer leaves it, and the tables hold it as sent at
  -- the server's time.
  abbrev pub Sent : Message → SendResponse W → Result Message × Session → Type 0
  Sent row resp o =
      (o.0 ≡ ok (final_row W resp row))
      × Stored row.id row.chat_jid row.body resp.timestamp o.1.conn

  send_new-Sent :
      (what : String) (row : Message) (jid : Jid) (payload : WaMessage) (resp : SendResponse W)
      (db : Db) (events : List Event) (sent : List Outgoing) (logged_in : Bool) (names : NameCache)
      → row.status ≡ status_pending
      → IsUnique message_id db.messages
      → find message_id row.id db.messages ≡ none
      → Sent row resp
          (send_new W what row jid payload resp (calm_session db events sent logged_in names))
  unfolding send_new deliver tell on_store message_row
  send_new-Sent what row jid payload resp db events sent logged_in names p u f =
      subst
        (λ (o : Result (Unit {0}) × Conn). Sent row resp (
          continue o.0 (λ t. emit (message_received row) >> deliver W what row jid payload resp)
            (record (calm_session db events sent logged_in names) { conn = o.1 })))
        (sym (insert_message-calm row row.media db refl))
        (
          concluded-accepted W what row jid payload resp _,
          concluded-Stored what row jid resp _ (insert_rows row db) (message_row row) refl
              (inserted-IsUnique row db u) (found_inserted row db f) p,
        )

  -- Where neither the driver nor the client refuses anything, the tables are consistent and the new id
  -- is not taken, SendText of a text that quotes nothing succeeds for every chat whose JID can be read:
  -- it returns the message as the server answered it, and the tables hold it under its id and its
  -- chat, with its text, as sent at the server's time.
  pub send_text-Sent :
      (chat_jid body id : String) (now : ℤ) (resp : SendResponse W) (jid : Jid) (db : Db)
      (events : List Event) (sent : List Outgoing) (logged_in : Bool) (names : NameCache)
      → parse_jid chat_jid ≡ some jid
      → IsConsistent db
      → find message_id id db.messages ≡ none
      → Sent
          (pending_row W id now jid body type_text false none none)
          resp
          (send_text W chat_jid body "" id now resp (calm_session db events sent logged_in names))
  unfolding send_text
  send_text-Sent chat_jid body id now resp jid db events sent logged_in names e h f =
      subst
        (λ (o : Option Jid).
          Sent (pending_row W id now jid body type_text false none none) resp
            (send_text_to W o body "" id now resp (calm_session db events sent logged_in names)))
        (sym e)
        (send_new-Sent "send message" (pending_row W id now jid body type_text false none none) jid
          (conversation body) resp db events sent logged_in names refl h.messages f)
