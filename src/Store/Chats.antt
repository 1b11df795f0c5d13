-- ===== src/Store/Chats.antt =====
-- apps/daemon/store/store.go: the statements that write the `chats` table.
use zchat.Prelude.{String, Bool, true, false, ◌||◌, List, Option, none, some, ◌==◌, if◌then◌else◌}
use zchat.Prelude.Int.{ℤ, pos, ◌+ℤ◌, max_ℤ}
use zchat.Prelude.Exec.{pure, ◌>>=◌, ◌>>◌}
use zchat.Prelude.Rows.{find, upsert, update, delete, count}
use zchat.Store.Types.{Chat, MessageRow}
use zchat.Store.Db.{found_rows, Db, Sql, exec, exec_rows, transaction}

abbrev pub chat_jid : Chat → String
chat_jid c = c.jid

abbrev pub or_text : String → String → String
or_text new old = if new == "" then old else new

-- The `DO UPDATE SET` of UpsertChat.
unfoldable pub merge_upsert : Chat → Chat → Chat
merge_upsert c old = record {
  jid = old.jid;
  name = or_text c.name old.name;
  unread = c.unread;
  archived = c.archived;
  pinned = c.pinned;
  last_message = or_text c.last_message old.last_message;
  updated_at = max_ℤ c.updated_at old.updated_at;
  is_group = c.is_group;
  muted_until = c.muted_until;
}

unfoldable pub upsert_chat_rows : Chat → Db → Db
upsert_chat_rows c db = record db { chats = upsert chat_jid c (merge_upsert c) db.chats }

-- UpsertChat
unfoldable pub upsert_chat : Chat → Sql (Unit {0})
upsert_chat c = exec "upsert chat" (upsert_chat_rows c)

abbrev pub set_some {ℓ} : {A : Type ℓ} → Option A → A → A
set_some none old = old
set_some (some new) old = new

abbrev pub unpin : Option Bool → Bool → Bool
unpin (some true) old = false
unpin _ old = old

-- The assignments of SetChatFlags; of two to one column the last counts.
unfoldable pub set_flags : Option Bool → Option Bool → Option ℤ → Chat → Chat
set_flags pinned archived muted_until c = record c {
  pinned = unpin archived (set_some pinned c.pinned);
  archived = set_some archived c.archived;
  muted_until = set_some muted_until c.muted_until;
}

abbrev pub has_jid : String → Chat → Bool
has_jid jid c = c.jid == jid

unfoldable pub set_chat_flags_rows : String → Option Bool → Option Bool → Option ℤ → Db → Db
set_chat_flags_rows jid p a m db = record db {
  chats = update (has_jid jid) (set_flags p a m) db.chats;
}

abbrev pub no_flags : Option Bool → Option Bool → Option ℤ → Bool
no_flags none none none = true
no_flags _ _ _ = false

-- SetChatFlags
unfoldable pub set_chat_flags : String → Option Bool → Option Bool → Option ℤ → Sql (Unit {0})
set_chat_flags jid p a m = if no_flags p a m then pure tt else do
  n ←
      exec_rows "set chat flags" (λ db. count (has_jid jid) db.chats)
        (set_chat_flags_rows jid p a m)
  found_rows n

unfoldable pub set_chat_name_rows : String → String → Db → Db
set_chat_name_rows jid name db = record db {
  chats = update (has_jid jid) (λ c. record c { name = name }) db.chats;
}

-- SetChatName
unfoldable pub set_chat_name : String → String → Sql (Unit {0})
set_chat_name jid name = exec "set chat name" (set_chat_name_rows jid name)

-- TouchChat's row for a new chat.
unfoldable pub new_chat : String → String → ℤ → String → ℤ → Bool → Chat
new_chat jid name unread last_message ts is_group = record {
  jid = jid;
  name = name;
  unread = unread;
  archived = false;
  pinned = false;
  last_message = last_message;
  updated_at = ts;
  is_group = is_group;
  muted_until = pos 0;
}

unfoldable pub touch : String → ℤ → String → ℤ → Bool → Chat → Chat
touch name unread last_message ts is_group old = record old {
  name = or_text old.name name;
  unread = old.unread +ℤ unread;
  last_message = last_message;
  updated_at = max_ℤ ts old.updated_at;
  is_group = is_group;
}

abbrev pub one_unread : Bool → ℤ
one_unread b = if b then pos 1 else pos 0

unfoldable pub touch_chat_rows : String → String → String → ℤ → Bool → Bool → Db → Db
touch_chat_rows jid name last_message ts is_group unread db = record db {
  chats =
      upsert chat_jid (new_chat jid name (one_unread unread) last_message ts is_group)
        (touch name (one_unread unread) last_message ts is_group) db.chats;
}

-- TouchChat
unfoldable pub touch_chat : String → String → String → ℤ → Bool → Bool → Sql (Unit {0})
touch_chat jid name last_message ts is_group unread =
    exec "touch chat" (touch_chat_rows jid name last_message ts is_group unread)

unfoldable pub clear_unread_rows : String → Db → Db
clear_unread_rows jid db = record db {
  chats = update (has_jid jid) (λ c. record c { unread = pos 0 }) db.chats;
}

-- ClearUnread
unfoldable pub clear_unread : String → Sql (Unit {0})
clear_unread jid = exec "clear unread" (clear_unread_rows jid)

-- The `DO UPDATE SET` of MergeChat: `old` is the target row, `new` the row folded into it.
unfoldable pub fold_chat : Chat → Chat → Chat
fold_chat new old = record old {
  name = or_text old.name new.name;
  unread = old.unread +ℤ new.unread;
  archived = old.archived || new.archived;
  pinned = old.pinned || new.pinned;
  last_message = or_text old.last_message new.last_message;
  updated_at = max_ℤ old.updated_at new.updated_at;
}

abbrev pub in_chat : String → MessageRow → Bool
in_chat jid m = m.chat_jid == jid

unfoldable pub move_messages_rows : String → String → Db → Db
move_messages_rows from to db = record db {
  messages =
      update (in_chat from) (λ m. record m { fields = record m.fields { chat_jid = to } })
        db.messages;
}

abbrev pub fold_found : String → Option Chat → List Chat → List Chat
fold_found to none cs = cs
fold_found to (some c) cs = upsert chat_jid (record c { jid = to }) (fold_chat c) cs

unfoldable pub fold_chat_rows : String → String → Db → Db
fold_chat_rows from to db = record db {
  chats = fold_found to (find chat_jid from db.chats) db.chats;
}

unfoldable pub drop_chat_rows : String → Db → Db
drop_chat_rows jid db = record db { chats = delete (has_jid jid) db.chats }

-- MergeChat
unfoldable pub merge_chat : String → String → Sql (Unit {0})
merge_chat from to = transaction "merge chat" (do
  exec "move messages" (move_messages_rows from to)
  exec "fold chat" (fold_chat_rows from to)
  exec "drop merged chat" (drop_chat_rows from))
