-- ===== src/Store/Merge.antt =====
-- apps/daemon/store/store.go, MergeChat and SetChatFlags: what becomes of the rows.
use zchat.Prelude.{
  ◌+◌, String, ◌≡◌, refl, ap, ◌∙◌, false, ◌||◌, List, [], ◌∷◌, Option, none, some, arith, ◌==◌,
  eq_iff, if◌then◌else◌,
}
use zchat.Prelude.Int.{◌+ℤ◌, max_ℤ}
use zchat.Prelude.Exec.{Error, Result, ok, err}
use zchat.Prelude.Rows.{find, update, count, find-upsert, find-delete}
use zchat.Store.Types.{Chat, MessageRow}
use zchat.Store.Db.{Db, Conn, transaction, exec, end_tx}
use zchat.Store.Db.Atomic.{AllOrNothing, nothing, everything}
use zchat.Store.Atomic.{merge_chat-AllOrNothing}
use zchat.Store.Status.{calm}
use zchat.Store.Chats.{
  chat_jid, in_chat, fold_chat, fold_found, move_messages_rows, fold_chat_rows, drop_chat_rows,
  merge_chat,
}

-- The effect of a committed MergeChat.
abbrev pub merged : String → String → Db → Db
merged from to db = drop_chat_rows from (fold_chat_rows from to (move_messages_rows from to db))

-- The row of a conversation that another is merged into: the target keeps its key, its kind and its
-- mute, and takes the source's name and preview where it has none of its own; the unread messages
-- add up, a chat that was archived or pinned on either side still is, and the later time counts.
abbrev pub joined : Chat → Chat → Chat
joined source target = record {
  jid = target.jid;
  name = if target.name == "" then source.name else target.name;
  unread = target.unread +ℤ source.unread;
  archived = target.archived || source.archived;
  pinned = target.pinned || source.pinned;
  last_message = if target.last_message == "" then source.last_message else target.last_message;
  updated_at = max_ℤ target.updated_at source.updated_at;
  is_group = target.is_group;
  muted_until = target.muted_until;
}

-- The row under which a merged conversation is found.
abbrev pub combined : String → Option Chat → Option Chat → Option Chat
combined to none target = target
combined to (some c) none = some (record c { jid = to })
combined to (some c) (some target) = some (joined c target)

find-fold_found :
    (k to : String) (o : Option Chat) (cs : List Chat)
    → find chat_jid k (fold_found to o cs)
      ≡ (if to == k then combined to o (find chat_jid to cs) else find chat_jid k cs)
unfolding fold_chat
find-fold_found k to none cs = ground (arith, eq_iff to k)
find-fold_found k to (some c) cs =
    ground (arith, find-upsert chat_jid (fold_chat c) (λ x. refl) k (record c { jid = to }) cs)

find-merged :
    (from to k : String) (db : Db)
    → (from == to) ≡ false
    → find chat_jid k (merged from to db).chats ≡ (
        if from == k
        then none
        else if to == k
        then combined to (find chat_jid from db.chats) (find chat_jid to db.chats)
        else find chat_jid k db.chats)
unfolding drop_chat_rows fold_chat_rows move_messages_rows
find-merged from to k db ne = ground (
  arith,
  find-delete chat_jid from k (fold_found to (find chat_jid from db.chats) db.chats),
  find-fold_found k to (find chat_jid from db.chats) db.chats,
)

-- What a merge returns and leaves: an error, with the tables as they were, or success, without a row
-- of the source chat, with the two rows combined in the target's, and every other chat as it was.
pub data Merges (from to : String) (db : Db) (out : Result (Unit {0}) × Conn) : Type 0 where
  refuses : (e : Error) → out.0 ≡ err e → out.1.db ≡ db → Merges from to db out
  merges :
      out.0 ≡ ok tt
      → ((k : String)
          → find chat_jid k out.1.db.chats ≡ (
              if from == k
              then none
              else if to == k
              then combined to (find chat_jid from db.chats) (find chat_jid to db.chats)
              else find chat_jid k db.chats))
      → Merges from to db out

merged-Merges :
    (from to : String) (db : Db) (out : Result (Unit {0}) × Conn)
    → (from == to) ≡ false
    → AllOrNothing (merged from to) db out
    → Merges from to db out
merged-Merges from to db out ne (nothing e p d) = refuses e p d
merged-Merges from to db out ne (everything tt p d) =
    merges p (λ k. ap (λ (x : Db). find chat_jid k x.chats) d ∙ find-merged from to k db ne)

-- Whichever statement the driver refuses, a MergeChat of two different chats returns an error and
-- leaves the tables as they were, or it succeeds: the source row is gone, the target row combines the
-- two field by field, and no other chat has changed. Where no statement is refused, it succeeds.
pub find-merge_chat :
    (from to : String) (c : Conn)
    → (from == to) ≡ false
    → Merges from to c.db (merge_chat from to c)
      × (merge_chat from to (calm c.db) ≡ (ok tt, calm (merged from to c.db)))
unfolding merge_chat transaction exec end_tx
find-merge_chat from to c ne =
    (merged-Merges from to c.db _ ne (merge_chat-AllOrNothing from to c), refl)

abbrev move : String → MessageRow → MessageRow
move to m = record m { fields = record m.fields { chat_jid = to } }

count_from :
    (from to : String) (ms : List MessageRow)
    → (from == to) ≡ false
    → count (in_chat from) (update (in_chat from) (move to) ms) ≡ 0
count_from from to [] ne = refl
count_from from to (m ∷ ms) ne =
    ground (arith, count_from from to ms ne, eq_iff m.chat_jid from, eq_iff to from, eq_iff from to)

count_to :
    (from to : String) (ms : List MessageRow)
    → (from == to) ≡ false
    → count (in_chat to) (update (in_chat from) (move to) ms)
      ≡ count (in_chat from) ms + count (in_chat to) ms
count_to from to [] ne = refl
count_to from to (m ∷ ms) ne = ground (
  arith,
  count_to from to ms ne,
  eq_iff m.chat_jid from,
  eq_iff m.chat_jid to,
  eq_iff from to,
  eq_iff to to,
)

count_other :
    (from to k : String) (ms : List MessageRow)
    → (from == k) ≡ false
    → (to == k) ≡ false
    → count (in_chat k) (update (in_chat from) (move to) ms) ≡ count (in_chat k) ms
count_other from to k [] ne nt = refl
count_other from to k (m ∷ ms) ne nt = ground (
  arith,
  count_other from to k ms ne nt,
  eq_iff m.chat_jid from,
  eq_iff m.chat_jid k,
  eq_iff from k,
)

-- A merge leaves no message in the source chat, loses none, and takes none from a third chat.
pub count-merged :
    (from to k : String) (db : Db)
    → (from == to) ≡ false
    → count (in_chat k) (merged from to db).messages ≡ (
        if from == k
        then 0
        else if to == k
        then count (in_chat from) db.messages + count (in_chat to) db.messages
        else count (in_chat k) db.messages)
unfolding drop_chat_rows fold_chat_rows move_messages_rows
count-merged from to k db ne = ground (
  arith,
  count_from from to db.messages ne,
  count_to from to db.messages ne,
  count_other from to k db.messages,
  eq_iff from k,
  eq_iff to k,
)
