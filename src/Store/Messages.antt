-- ===== src/Store/Messages.antt =====
-- apps/daemon/store/store.go: the statements that write the `messages` and `media` tables, with
-- the transactions that hold several of them.
use zchat.Prelude.{
  ℕ, String, Bool, false, List, [], ◌∷◌, Option, none, some, ◌==◌, leb, if◌then◌else◌, head, select,
}
use zchat.Prelude.Int.{ℤ, pos, ltb_ℤ}
use zchat.Prelude.Exec.{not_found, ok, err, pure, ◌>>=◌, ◌>>◌, for_each}
use zchat.Prelude.Rows.{find, upsert, update, delete, count}
use zchat.Prelude.Sort.{sort}
use zchat.Store.Types.{Chat, Quoted, Media, Message, MessageRow, MediaRow, status_rank}
use zchat.Store.Db.{found_rows, Db, Sql, exec, exec_rows, query, transaction}
use zchat.Store.Chats.{has_jid, in_chat, upsert_chat_rows}

abbrev pub message_id : MessageRow → String
message_id m = m.id

abbrev pub media_id : MediaRow → String
media_id m = m.id

-- `&Quoted{}`
abbrev pub no_quote : Quoted
no_quote = record { id = ""; sender = ""; sender_name = ""; body = ""; type = "" }

abbrev pub quote_or_empty : Option Quoted → Quoted
quote_or_empty none = no_quote
quote_or_empty (some q) = q

unfoldable pub message_row : Message → MessageRow
message_row m = record { fields = m.fields; quote = quote_or_empty m.quoted }

abbrev pub media_row : Message → Media → MediaRow
media_row m md = record { id = m.id; media = record md { message_id = m.id } }

unfoldable pub add_message_rows : Message → Db → Db
add_message_rows m db = record db {
  messages = upsert message_id (message_row m) (λ old. old) db.messages;
}

unfoldable pub add_media_rows : Message → Media → Db → Db
add_media_rows m md db = record db {
  media = upsert media_id (media_row m md) (λ old. old) db.media;
}

abbrev pub insert_media : Message → Option Media → Sql (Unit {0})
insert_media m none = pure tt
insert_media m (some md) = exec "insert media" (add_media_rows m md)

-- insertMessageTx
unfoldable pub insert_message_tx : Message → Sql (Unit {0})
insert_message_tx m = do exec "insert message" (add_message_rows m); insert_media m m.media

-- InsertMessage
unfoldable pub insert_message : Message → Sql (Unit {0})
insert_message m = transaction "insert" (insert_message_tx m)

-- InsertMessages
unfoldable pub insert_messages : List Message → Sql (Unit {0})
insert_messages [] = pure tt
insert_messages (m ∷ ms) = transaction "batch insert" (for_each (m ∷ ms) insert_message_tx)

-- `ORDER BY timestamp DESC`
unfoldable pub newer : MessageRow → MessageRow → Bool
newer a b = ltb_ℤ b.timestamp a.timestamp

-- The newest stored message of a chat.
unfoldable pub newest : String → List MessageRow → Option MessageRow
unfolding sort newer
newest jid ms = head (sort newer (select (in_chat jid) ms))

-- `COALESCE((SELECT body …), last_message)`
abbrev pub preview_or : Option MessageRow → String → String
preview_or none old = old
preview_or (some m) old = m.body

unfoldable pub refresh_last_message_rows : String → Db → Db
refresh_last_message_rows jid db = record db {
  chats =
      update (has_jid jid)
        (λ c. record c { last_message = preview_or (newest jid db.messages) c.last_message })
        db.chats;
}

-- RefreshLastMessage
unfoldable pub refresh_last_message : String → Sql (Unit {0})
refresh_last_message jid = exec "refresh last message" (refresh_last_message_rows jid)

-- SyncConversation
unfoldable pub sync_conversation : Chat → List Message → Sql (Unit {0})
sync_conversation c msgs = transaction "sync" (do
  exec "upsert chat" (upsert_chat_rows c)
  for_each msgs insert_message_tx
  refresh_last_message c.jid)

abbrev pub has_id : String → MessageRow → Bool
has_id id m = m.id == id

abbrev pub of_message : String → MediaRow → Bool
of_message id m = m.id == id

unfoldable pub delete_media_rows : String → Db → Db
delete_media_rows id db = record db { media = delete (of_message id) db.media }

unfoldable pub delete_message_rows : String → Db → Db
delete_message_rows id db = record db { messages = delete (has_id id) db.messages }

-- The statements of DeleteMessage's transaction.
unfoldable pub delete_body : String → Sql (Unit {0})
delete_body id = do
  exec "delete media" (delete_media_rows id)
  n ← exec_rows "delete message" (λ db. count (has_id id) db.messages) (delete_message_rows id)
  found_rows n

-- DeleteMessage
unfoldable pub delete_message : String → Sql (Unit {0})
delete_message id = transaction "delete" (delete_body id)

-- `size = CASE WHEN ? > 0 THEN ? ELSE size END`
unfoldable pub set_path : String → ℤ → MediaRow → MediaRow
set_path path size m = record m {
  media = record m.media { path = path; size = if ltb_ℤ (pos 0) size then size else m.media.size };
}

unfoldable pub set_media_path_rows : String → String → ℤ → Db → Db
set_media_path_rows id path size db = record db {
  media = update (of_message id) (set_path path size) db.media;
}

-- SetMediaPath
unfoldable pub set_media_path : String → String → ℤ → Sql (Unit {0})
set_media_path id path size = exec "set media path" (set_media_path_rows id path size)

unfoldable pub set_status_rows : String → String → Db → Db
set_status_rows id status db = record db {
  messages =
      update (has_id id) (λ m. record m { fields = record m.fields { status = status } })
        db.messages;
}

-- `currentRank, ok := statusRank[current]; ok && currentRank >= rank`
unfoldable pub outranks : String → ℕ → Bool
outranks current rank = elim (status_rank current) [ none ↦ false | some r ↦ leb rank r ]

unfoldable pub advance_status : String → String → ℕ → Sql (Unit {0})
advance_status id status rank = do
  current ←
      query "read status"
        λ db. elim (find message_id id db.messages) [ none ↦ err not_found | some m ↦ ok m.status ]
  if outranks current rank then pure tt else exec "update status" (set_status_rows id status)

unfoldable pub apply_status : String → String → Option ℕ → Sql (Unit {0})
apply_status id status none = exec "update status" (set_status_rows id status)
apply_status id status (some rank) = advance_status id status rank

-- UpdateMessageStatus
unfoldable pub update_message_status : String → String → Sql (Unit {0})
update_message_status id status = apply_status id status (status_rank status)

unfoldable pub set_timestamp_rows : String → ℤ → Db → Db
set_timestamp_rows id ts db = record db {
  messages =
      update (has_id id) (λ m. record m { fields = record m.fields { timestamp = ts } })
        db.messages;
}

-- UpdateMessageTimestamp
unfoldable pub update_message_timestamp : String → ℤ → Sql (Unit {0})
update_message_timestamp id ts = exec "update timestamp" (set_timestamp_rows id ts)

unfoldable pub set_sender_rows : String → String → Db → Db
set_sender_rows id sender db = record db {
  messages =
      update (has_id id) (λ m. record m { fields = record m.fields { sender = sender } })
        db.messages;
}

-- UpdateMessageSender
unfoldable pub update_message_sender : String → String → Sql (Unit {0})
update_message_sender id sender = exec "update sender" (set_sender_rows id sender)

unfoldable pub set_reaction_rows : String → String → Db → Db
set_reaction_rows id reaction db = record db {
  messages =
      update (has_id id) (λ m. record m { fields = record m.fields { reaction = reaction } })
        db.messages;
}

-- SetMessageReaction
unfoldable pub set_message_reaction : String → String → Sql (Unit {0})
set_message_reaction id reaction = exec "set reaction" (set_reaction_rows id reaction)
