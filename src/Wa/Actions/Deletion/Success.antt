-- ===== src/Wa/Actions/Deletion/Success.antt =====
-- apps/daemon/wa/actions.go, DeleteMessage, where nothing is refused.
use zchat.Prelude.{ℕ, String, ◌≡◌, refl, ap, ◌∙◌, Bool, false, some, eqb, arith, if◌then◌else◌}
use zchat.Prelude.Exec.{continue, pure, raise, not_found, ◌>>=◌, Result, ok}
use zchat.Prelude.Rows.{find, count, count-find}
use zchat.Store.Types.{MessageRow, Message}
use zchat.Store.Db.{Db, Conn, query, exec, exec_rows, transaction, found_rows, end_tx}
use zchat.Store.Messages.{
  message_id, has_id, delete_message, delete_body, delete_message_rows, delete_media_rows,
}
use zchat.Store.MessageQueries.{get_message, scan_message}
use zchat.Store.Status.{calm}
use zchat.Wa.Session.{Session, on_store}
use zchat.Wa.Actions.{announce_deletion, delete_row, delete_found, session_delete}
use zchat.Wa.Actions.Deletion.{announced}

got :
    (id : String) (db : Db) (m : MessageRow)
    → find message_id id db.messages ≡ some m
    → get_message id (calm db) ≡ (ok (scan_message db.media m), calm db)
unfolding get_message query
got id db m e = rw e refl

some_row : (n : ℕ) (c : Conn) → eqb n 0 ≡ false → found_rows n c ≡ (ok tt, c)
unfolding found_rows
some_row n c h = ap (λ (b : Bool). (if b then raise not_found else pure tt) c) h

counted :
    (id : String) (db : Db) (m : MessageRow)
    → find message_id id db.messages ≡ some m
    → eqb (count (has_id id) db.messages) 0 ≡ false
counted id db m e = ground (arith, count-find message_id id db.messages)

deleted :
    (id : String) (db : Db) (m : MessageRow)
    → find message_id id db.messages ≡ some m
    → delete_message id (calm db) ≡ (ok tt, calm (delete_message_rows id (delete_media_rows id db)))
unfolding delete_message delete_body transaction exec exec_rows end_tx delete_media_rows
deleted id db m e =
    ap (λ (o : Result (Unit {0}) × Conn). end_tx "delete" db o.0 o.1)
      (some_row (count (has_id id) db.messages)
        (calm (delete_message_rows id (delete_media_rows id db))) (counted id db m e))

announced_row :
    (id chat : String) (s : Session)
    → ((announce_deletion id chat >>= λ u. pure chat) s).0 ≡ ok chat
announced_row id chat s =
    ap (λ (r : Result (Unit {0})). (continue r (λ u. pure chat) (announce_deletion id chat s).1).0)
      (announced id chat s).0

delete_row-stored :
    (id chat : String) (db : Db) (m : MessageRow) (s : Session)
    → find message_id id db.messages ≡ some m
    → (delete_row id chat (record s { conn = calm db })).0 ≡ ok chat
unfolding delete_row on_store
delete_row-stored id chat db m s e =
    ap
      (λ (o : Result (Unit {0}) × Conn).
        (continue o.0 (λ t. announce_deletion id chat >>= λ u. pure chat)
          (record s { conn = o.1 })).0)
      (deleted id db m e)
    ∙ announced_row id chat
        (record s { conn = calm (delete_message_rows id (delete_media_rows id db)) })

module _ (is_jid : String → Bool) where
  -- Where the message is stored and the driver refuses no statement, DeleteMessage without a
  -- revocation succeeds and returns the message's chat.
  pub session_delete-stored :
      (id : String) (db : Db) (m : MessageRow) (s : Session)
      → find message_id id db.messages ≡ some m
      → (session_delete is_jid id false (record s { conn = calm db })).0 ≡ ok m.fields.chat_jid
  unfolding session_delete delete_found on_store delete_row scan_message
  session_delete-stored id db m s e =
      ap
        (λ (o : Result Message × Conn).
          (continue o.0 (delete_found is_jid id false) (record s { conn = o.1 })).0)
        (got id db m e)
      ∙ delete_row-stored id m.fields.chat_jid db m s e
