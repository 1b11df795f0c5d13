-- ===== src/Store/Consistent.antt =====
-- The well-formedness of the tables, and that every operation of store.go keeps it.
use zchat.Prelude.{String, Bool, List, sym, ◌≡◌, refl, ◌∙◌, Option, none, some, arith}
use mathlib.Core.Option
use zchat.Prelude.Int.{ℤ}
use zchat.Prelude.Rows.{
  find, IsUnique, update, find-upsert, find-update, find-delete, upsert-IsUnique, update-IsUnique,
  delete-IsUnique,
}
use zchat.Store.Types.{Chat, Message, MessageRow, Media, MediaRow}
use zchat.Store.Db.{Db, empty_db}
use zchat.Store.Meta.{meta_key, set_meta_rows}
use zchat.Store.Chats.{
  chat_jid, has_jid, merge_upsert, set_flags, touch, one_unread, fold_chat, fold_found,
  upsert_chat_rows, set_chat_flags_rows, set_chat_name_rows, touch_chat_rows, clear_unread_rows,
  move_messages_rows, fold_chat_rows, drop_chat_rows,
}
use zchat.Store.Messages.{
  message_id, media_id, message_row, media_row, add_message_rows, add_media_rows,
  refresh_last_message_rows, delete_media_rows, delete_message_rows, set_path, set_media_path_rows,
  set_status_rows, set_timestamp_rows, set_sender_rows, set_reaction_rows,
}

map-eq-none : {A : Type 0} (f : A → A) (o : Option A) → Option.map f o ≡ none → o ≡ none
map-eq-none f none h = refl
map-eq-none f (some a) h = cc

fold_found-IsUnique :
    (to : String) (o : Option Chat) (cs : List Chat)
    → IsUnique chat_jid cs
    → IsUnique chat_jid (fold_found to o cs)
unfolding fold_chat
fold_found-IsUnique to none cs u = u
fold_found-IsUnique to (some c) cs u = upsert-IsUnique chat_jid (fold_chat c) (λ r. refl) _ cs u

-- Primary keys are unique, and an attachment belongs to a stored message.
pub record IsConsistent (db : Db) : Type 0 where
  pub chats : IsUnique chat_jid db.chats
  pub messages : IsUnique message_id db.messages
  pub media : IsUnique media_id db.media
  pub meta : IsUnique meta_key db.meta
  pub owned : (k : String) → find message_id k db.messages ≡ none → find media_id k db.media ≡ none

pub empty_db-IsConsistent : IsConsistent empty_db
unfolding find
empty_db-IsConsistent = record {
  chats = tt;
  messages = tt;
  media = tt;
  meta = tt;
  owned = λ k h. refl;
}

abbrev with_chats : Db → List Chat → Db
with_chats db cs = record db { chats = cs }

abbrev with_messages : Db → List MessageRow → Db
with_messages db ms = record db { messages = ms }

abbrev with_media : Db → List MediaRow → Db
with_media db ms = record db { media = ms }

module _ {db : Db} (h : IsConsistent db) where
  pub meta-IsConsistent : (k v : String) → IsConsistent (set_meta_rows k v db)
  unfolding set_meta_rows
  meta-IsConsistent k v = record {
    chats = h.chats;
    messages = h.messages;
    media = h.media;
    meta = upsert-IsUnique meta_key _ (λ r. refl) _ db.meta h.meta;
    owned = h.owned;
  }

  chats-IsConsistent : {cs : List Chat} → IsUnique chat_jid cs → IsConsistent (with_chats db cs)
  chats-IsConsistent u = record {
    chats = u;
    messages = h.messages;
    media = h.media;
    meta = h.meta;
    owned = h.owned;
  }

  -- A statement that keeps the ids of the messages.
  messages-IsConsistent :
      (p : MessageRow → Bool) (f : MessageRow → MessageRow)
      → ((m : MessageRow) → message_id (f m) ≡ message_id m)
      → IsConsistent (with_messages db (update p f db.messages))
  messages-IsConsistent p f keep = record {
    chats = h.chats;
    messages = update-IsUnique message_id f keep p db.messages h.messages;
    media = h.media;
    meta = h.meta;
    owned = λ k e.
        h.owned k (map-eq-none _ _ (sym (find-update message_id f keep p k db.messages) ∙ e));
  }

  media-IsConsistent :
      (p : MediaRow → Bool) (f : MediaRow → MediaRow)
      → ((m : MediaRow) → media_id (f m) ≡ media_id m)
      → IsConsistent (with_media db (update p f db.media))
  media-IsConsistent p f keep = record {
    chats = h.chats;
    messages = h.messages;
    media = update-IsUnique media_id f keep p db.media h.media;
    meta = h.meta;
    owned = λ k e. rw (find-update media_id f keep p k db.media, h.owned k e);
  }

  pub upsert_chat-IsConsistent : (c : Chat) → IsConsistent (upsert_chat_rows c db)
  unfolding upsert_chat_rows merge_upsert
  upsert_chat-IsConsistent c =
      chats-IsConsistent (upsert-IsUnique chat_jid (merge_upsert c) (λ r. refl) c db.chats h.chats)

  update_chats-IsConsistent :
      (p : Chat → Bool) (f : Chat → Chat)
      → ((c : Chat) → chat_jid (f c) ≡ chat_jid c)
      → IsConsistent (with_chats db (update p f db.chats))
  update_chats-IsConsistent p f keep =
      chats-IsConsistent (update-IsUnique chat_jid f keep p db.chats h.chats)

  pub set_chat_flags-IsConsistent :
      (jid : String) (p a : Option Bool) (m : Option ℤ)
      → IsConsistent (set_chat_flags_rows jid p a m db)
  unfolding set_chat_flags_rows set_flags
  set_chat_flags-IsConsistent jid p a m =
      update_chats-IsConsistent (has_jid jid) (set_flags p a m) (λ c. refl)

  pub set_chat_name-IsConsistent :
      (jid name : String) → IsConsistent (set_chat_name_rows jid name db)
  unfolding set_chat_name_rows
  set_chat_name-IsConsistent jid name = update_chats-IsConsistent _ _ (λ c. refl)

  pub clear_unread-IsConsistent : (jid : String) → IsConsistent (clear_unread_rows jid db)
  unfolding clear_unread_rows
  clear_unread-IsConsistent jid = update_chats-IsConsistent _ _ (λ c. refl)

  pub refresh-IsConsistent : (jid : String) → IsConsistent (refresh_last_message_rows jid db)
  unfolding refresh_last_message_rows
  refresh-IsConsistent jid = update_chats-IsConsistent _ _ (λ c. refl)

  pub touch_chat-IsConsistent :
      (jid name last : String) (ts : ℤ) (g u : Bool)
      → IsConsistent (touch_chat_rows jid name last ts g u db)
  unfolding touch_chat_rows touch
  touch_chat-IsConsistent jid name last ts g u = chats-IsConsistent (
      upsert-IsUnique chat_jid (touch name (one_unread u) last ts g) (λ r. refl) _ db.chats h.chats)

  pub fold_chat-IsConsistent : (from to : String) → IsConsistent (fold_chat_rows from to db)
  unfolding fold_chat_rows
  fold_chat-IsConsistent from to =
      chats-IsConsistent (fold_found-IsUnique to (find chat_jid from db.chats) db.chats h.chats)

  pub drop_chat-IsConsistent : (jid : String) → IsConsistent (drop_chat_rows jid db)
  unfolding drop_chat_rows
  drop_chat-IsConsistent jid = chats-IsConsistent (delete-IsUnique chat_jid jid db.chats h.chats)

  pub move_messages-IsConsistent : (from to : String) → IsConsistent (move_messages_rows from to db)
  unfolding move_messages_rows
  move_messages-IsConsistent from to = messages-IsConsistent _ _ (λ m. refl)

  pub set_status-IsConsistent : (id status : String) → IsConsistent (set_status_rows id status db)
  unfolding set_status_rows
  set_status-IsConsistent id status = messages-IsConsistent _ _ (λ m. refl)

  pub set_timestamp-IsConsistent :
      (id : String) (ts : ℤ) → IsConsistent (set_timestamp_rows id ts db)
  unfolding set_timestamp_rows
  set_timestamp-IsConsistent id ts = messages-IsConsistent _ _ (λ m. refl)

  pub set_sender-IsConsistent : (id sender : String) → IsConsistent (set_sender_rows id sender db)
  unfolding set_sender_rows
  set_sender-IsConsistent id sender = messages-IsConsistent _ _ (λ m. refl)

  pub set_reaction-IsConsistent :
      (id reaction : String) → IsConsistent (set_reaction_rows id reaction db)
  unfolding set_reaction_rows
  set_reaction-IsConsistent id reaction = messages-IsConsistent _ _ (λ m. refl)

  pub set_media_path-IsConsistent :
      (id path : String) (size : ℤ) → IsConsistent (set_media_path_rows id path size db)
  unfolding set_media_path_rows set_path
  set_media_path-IsConsistent id path size = media-IsConsistent _ _ (λ m. refl)

  pub add_message-IsConsistent : (m : Message) → IsConsistent (add_message_rows m db)
  unfolding add_message_rows
  add_message-IsConsistent m = record {
    chats = h.chats;
    messages =
        upsert-IsUnique message_id (λ r. r) (λ r. refl) (message_row m) db.messages h.messages;
    media = h.media;
    meta = h.meta;
    owned = λ k e.
        h.owned k (
          ground
            (arith, find-upsert message_id (λ r. r) (λ r. refl) k (message_row m) db.messages));
  }

  pub delete_media-IsConsistent : (id : String) → IsConsistent (delete_media_rows id db)
  unfolding delete_media_rows
  delete_media-IsConsistent id = record {
    chats = h.chats;
    messages = h.messages;
    media = delete-IsUnique media_id id db.media h.media;
    meta = h.meta;
    owned = λ k e. ground (arith, find-delete media_id id k db.media, h.owned k e);
  }

  pub delete_message-IsConsistent :
      (id : String) → IsConsistent (delete_message_rows id (delete_media_rows id db))
  unfolding delete_media_rows delete_message_rows
  delete_message-IsConsistent id = record {
    chats = h.chats;
    messages = delete-IsUnique message_id id db.messages h.messages;
    media = delete-IsUnique media_id id db.media h.media;
    meta = h.meta;
    owned = λ k e. ground (
      arith,
      find-delete media_id id k db.media,
      find-delete message_id id k db.messages,
      h.owned k,
    );
  }

  pub add_media-IsConsistent :
      (m : Message) (md : Media) → IsConsistent (add_media_rows m md (add_message_rows m db))
  unfolding add_message_rows add_media_rows message_row
  add_media-IsConsistent m md = record {
    chats = h.chats;
    messages = upsert-IsUnique message_id (λ r. r) (λ r. refl) _ db.messages h.messages;
    media = upsert-IsUnique media_id (λ r. r) (λ r. refl) _ db.media h.media;
    meta = h.meta;
    owned = λ k e. ground (
      arith,
      find-upsert message_id (λ r. r) (λ r. refl) k (message_row m) db.messages,
      find-upsert media_id (λ r. r) (λ r. refl) k (media_row m md) db.media,
      h.owned k,
    );
  }
