-- ===== src/Store/Atomic.antt =====
-- apps/daemon/store/store.go: the operations that group statements in a transaction have their
-- whole effect or none, whichever statement the driver refuses.
use zchat.Prelude.{arith, zero, suc, String, List, [], ◌∷◌, Option, none, some, refl, ℕ}
use zchat.Prelude.Exec.{not_found, for_each}
use zchat.Prelude.Rows.{count}
use zchat.Store.Types.{Chat, Message, Media}
use zchat.Store.Db.{Db, Conn, exec, found_rows}
use zchat.Store.Db.Atomic.{
  AllOrNothing, Runs, stops, ends, exec-AllOrNothing, exec_rows-Runs, AllOrNothing-Runs,
  transaction-AllOrNothing, Runs->>=,
}
use zchat.Store.Chats.{
  upsert_chat_rows, merge_chat, move_messages_rows, fold_chat_rows, drop_chat_rows,
}
use zchat.Store.Messages.{
  add_message_rows, add_media_rows, insert_media, insert_message_tx, insert_message,
  insert_messages, refresh_last_message_rows, refresh_last_message, sync_conversation,
  delete_message, delete_body, delete_media_rows, delete_message_rows, has_id,
}

exec-Runs : (what : String) (f : Db → Db) (c : Conn) → Runs f c.db (exec what f c)
exec-Runs what f c = AllOrNothing-Runs (exec-AllOrNothing what f c)

-- The effect of a message's rows on the tables.
abbrev pub insert_media_rows : Message → Option Media → Db → Db
insert_media_rows m none db = db
insert_media_rows m (some md) db = add_media_rows m md db

abbrev pub insert_rows : Message → Db → Db
insert_rows m db = insert_media_rows m m.media (add_message_rows m db)

abbrev pub insert_all : List Message → Db → Db
insert_all [] db = db
insert_all (m ∷ ms) db = insert_all ms (insert_rows m db)

insert_media-Runs :
    (m : Message) (o : Option Media) (c : Conn)
    → Runs (insert_media_rows m o) c.db (insert_media m o c)
insert_media-Runs m none c = ends tt refl refl
insert_media-Runs m (some md) c = exec-Runs "insert media" (add_media_rows m md) c

insert_message_tx-Runs :
    (m : Message) (c : Conn) → Runs (insert_rows m) c.db (insert_message_tx m c)
unfolding insert_message_tx
insert_message_tx-Runs m =
    Runs->>= (add_message_rows m) (insert_media_rows m m.media) _ _
      (exec-Runs "insert message" (add_message_rows m)) (λ _. insert_media-Runs m m.media)

for_each-Runs :
    (ms : List Message) (c : Conn) → Runs (insert_all ms) c.db (for_each ms insert_message_tx c)
for_each-Runs [] c = ends tt refl refl
for_each-Runs (m ∷ ms) c =
    Runs->>= (insert_rows m) (insert_all ms) (insert_message_tx m)
      (λ _. for_each ms insert_message_tx) (insert_message_tx-Runs m) (λ _. for_each-Runs ms) c

-- InsertMessage stores the message with its attachment, or nothing.
pub insert_message-AllOrNothing :
    (m : Message) (c : Conn) → AllOrNothing (insert_rows m) c.db (insert_message m c)
unfolding insert_message
insert_message-AllOrNothing m =
    transaction-AllOrNothing "insert" (insert_rows m) (insert_message_tx m)
      (insert_message_tx-Runs m)

-- InsertMessages stores the whole batch, or nothing.
pub insert_messages-AllOrNothing :
    (ms : List Message) (c : Conn) → AllOrNothing (insert_all ms) c.db (insert_messages ms c)
unfolding insert_messages
insert_messages-AllOrNothing [] c = AllOrNothing.everything tt refl refl
insert_messages-AllOrNothing (m ∷ ms) c =
    transaction-AllOrNothing "batch insert" (insert_all (m ∷ ms)) _ (for_each-Runs (m ∷ ms)) c

-- SyncConversation writes the chat, then its messages, then the preview of the newest of them, or
-- leaves the tables as they were.
pub sync_conversation-AllOrNothing :
    (chat : Chat) (ms : List Message) (c : Conn)
    → AllOrNothing
        (λ db. refresh_last_message_rows chat.jid (insert_all ms (upsert_chat_rows chat db)))
        c.db
        (sync_conversation chat ms c)
unfolding sync_conversation refresh_last_message
sync_conversation-AllOrNothing chat ms =
    transaction-AllOrNothing "sync"
      (λ db. refresh_last_message_rows chat.jid (insert_all ms (upsert_chat_rows chat db))) _
      (Runs->>= (upsert_chat_rows chat)
        (λ db. refresh_last_message_rows chat.jid (insert_all ms db)) _ _
        (exec-Runs "upsert chat" (upsert_chat_rows chat))
        (λ _.
          Runs->>= (insert_all ms) (refresh_last_message_rows chat.jid) _ _ (for_each-Runs ms)
            (λ _. exec-Runs "refresh last message" (refresh_last_message_rows chat.jid))))

-- MergeChat moves the messages, folds the rows and drops the old row, or does nothing.
pub merge_chat-AllOrNothing :
    (from to : String) (c : Conn)
    → AllOrNothing
        (λ db. drop_chat_rows from (fold_chat_rows from to (move_messages_rows from to db)))
        c.db
        (merge_chat from to c)
unfolding merge_chat
merge_chat-AllOrNothing from to =
    transaction-AllOrNothing "merge chat"
      (λ db. drop_chat_rows from (fold_chat_rows from to (move_messages_rows from to db))) _
      (Runs->>= (move_messages_rows from to) (λ db. drop_chat_rows from (fold_chat_rows from to db))
        _ _ (exec-Runs "move messages" (move_messages_rows from to))
        (λ _.
          Runs->>= (fold_chat_rows from to) (drop_chat_rows from) _ _
            (exec-Runs "fold chat" (fold_chat_rows from to))
            (λ _. exec-Runs "drop merged chat" (drop_chat_rows from))))

found_rows-Runs : (n : ℕ) (c : Conn) → Runs (λ db. db) c.db (found_rows n c)
unfolding found_rows
found_rows-Runs zero c = stops not_found refl
found_rows-Runs (suc n) c = ends tt (ground arith) (ground arith)

-- DeleteMessage removes the message with its attachment, or nothing: in particular it leaves the
-- attachment where the message is not found.
pub delete_message-AllOrNothing :
    (id : String) (c : Conn)
    → AllOrNothing
        (λ db. delete_message_rows id (delete_media_rows id db))
        c.db
        (delete_message id c)
unfolding delete_message delete_body
delete_message-AllOrNothing id =
    transaction-AllOrNothing "delete" (λ db. delete_message_rows id (delete_media_rows id db)) _
      (Runs->>= (delete_media_rows id) (delete_message_rows id) _ _
        (exec-Runs "delete media" (delete_media_rows id))
        (λ _.
          Runs->>= (delete_message_rows id) (λ db. db) _ _
            (exec_rows-Runs "delete message" (λ db. count (has_id id) db.messages)
              (delete_message_rows id))
            (λ n. found_rows-Runs n)))
