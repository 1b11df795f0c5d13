-- ===== src/Store/Tests.antt =====
-- The theorems on apps/daemon/store/store.go at a small database.
use zchat.Prelude.{◌≤◌, String, ◌≡◌, refl, true, false, ◌↔◌, List, [], ◌∷◌, none, some, length, All}
use zchat.Prelude.Int.{ℤ, pos}
use zchat.Prelude.Exec.{ok}
use zchat.Prelude.Rows.{find, count}
use zchat.Store.Types.{Chat, Message, Media, status_rank}
use zchat.Store.Db.{Db, Conn}
use zchat.Store.Db.Atomic.{AllOrNothing}
use zchat.Store.Like.{codes, is_like_escaped, search_pattern}
use zchat.Store.Like.Search.{Occurs, search-Occurs}
use zchat.Store.Chats.{chat_jid, in_chat, upsert_chat_rows, set_chat_flags, merge_chat}
use zchat.Store.Messages.{
  message_row, insert_message, insert_messages, sync_conversation, refresh_last_message_rows,
  update_message_status,
}
use zchat.Store.MessageQueries.{get_message, list_messages}
use zchat.Store.Consistent.{IsConsistent}
use zchat.Store.Calls.{Call, history, history-IsConsistent}
use zchat.Store.Status.{calm, advanced, update_message_status_lem}
use zchat.Store.Status.Receipts.{receipts_comm, stored_rank, stored_rank-le}
use zchat.Store.Atomic.{insert_all, sync_conversation-AllOrNothing}
use zchat.Store.ReadBack.{as_read, get-insert_message}
use zchat.Store.Replay.{insert_messages_idem}
use zchat.Store.Merge.{merged, Merges, find-merge_chat, count-merged}
use zchat.Store.Pages.{IsChronological, IsAsked, list_messages_page}
use zchat.Store.Flags.{archive_unpins}

abbrev chat_of : String → String → ℤ → ℤ → Chat
chat_of jid name unread updated_at = record {
  jid = jid;
  name = name;
  unread = unread;
  archived = false;
  pinned = true;
  last_message = "hi";
  updated_at = updated_at;
  is_group = false;
  muted_until = pos 0;
}

abbrev ann : Chat
ann = chat_of "ann@lid" "Ann" (pos 2) (pos 20)

abbrev ann_phone : Chat
ann_phone = chat_of "1@s" "" (pos 1) (pos 30)

abbrev message_of : String → String → ℤ → String → Message
message_of id jid timestamp status = record {
  fields = record {
    id = id;
    chat_jid = jid;
    sender = "me";
    sender_name = "";
    body = "50% off";
    type = "text";
    timestamp = timestamp;
    outgoing = true;
    status = status;
    forwarded = false;
    reaction = "";
  };
  media = none;
  quoted = none;
}

abbrev photo : Media
photo = record {
  message_id = "";
  path = "";
  mime = "image/png";
  size = pos 9;
  filename = "";
  caption = "";
  thumbnail = [];
  width = pos 3;
  height = pos 3;
  duration = pos 0;
  payload = 1 ∷ 2 ∷ [];
}

abbrev first : Message
first = message_of "m1" "ann@lid" (pos 10) "sent"

abbrev second : Message
second = record (message_of "m2" "ann@lid" (pos 20) "sent") { media = some photo }

abbrev reply : Message
reply = message_of "m3" "1@s" (pos 30) "sent"

abbrev sample : Db
sample = record {
  chats = ann ∷ ann_phone ∷ [];
  messages = message_row first ∷ message_row reply ∷ [];
  media = [];
  meta = [];
}

sample-IsConsistent : IsConsistent sample
unfolding message_row find
sample-IsConsistent = record {
  chats = (refl, (refl, tt));
  messages = (refl, (refl, tt));
  media = tt;
  meta = tt;
  owned = λ k h. refl;
}

-- A connection that refuses the third statement.
abbrev flaky : Conn
flaky = record { db = sample; faults = false ∷ false ∷ true ∷ [] }

abbrev calls : List Call
calls = Call.inserts_message second ∷ Call.deletes_message "m1" ∷ Call.clears_unread "1@s" ∷ []

history-IsConsistent_example : IsConsistent (history calls flaky).db
history-IsConsistent_example = history-IsConsistent calls flaky sample-IsConsistent

sync_conversation-AllOrNothing_example :
    AllOrNothing
      (λ db.
        refresh_last_message_rows "ann@lid" (insert_all (second ∷ []) (upsert_chat_rows ann db)))
      sample
      (sync_conversation ann (second ∷ []) flaky)
sync_conversation-AllOrNothing_example = sync_conversation-AllOrNothing ann (second ∷ []) flaky

get-insert_message_example :
    get_message "m2" (insert_message second (calm sample)).1
    ≡ (ok (as_read second), (insert_message second (calm sample)).1)
unfolding message_row find
get-insert_message_example = get-insert_message second sample sample-IsConsistent refl

insert_messages_idem_example :
    insert_messages (first ∷ second ∷ []) (insert_messages (first ∷ second ∷ []) (calm sample)).1
    ≡ (ok tt, (insert_messages (first ∷ second ∷ []) (calm sample)).1)
insert_messages_idem_example = insert_messages_idem (first ∷ second ∷ []) sample

update_message_status_lem_example :
    update_message_status "m1" "read" (calm sample) ≡ (ok tt, calm (advanced "m1" "read" sample))
unfolding message_row find
update_message_status_lem_example =
    update_message_status_lem sample sample-IsConsistent.messages "m1" "read"

receipts_comm_example :
    (update_message_status "m1" "delivered" (update_message_status "m1" "read" (calm sample)).1).1
    ≡ (update_message_status "m1" "read" (update_message_status "m1" "delivered" (calm sample)).1).1
unfolding status_rank
receipts_comm_example =
    receipts_comm sample "m1" "m1" "read" "delivered" 4 3 sample-IsConsistent.messages refl refl

stored_rank-le_example :
    stored_rank "m1" sample ≤ stored_rank "m1" (update_message_status "m1" "delivered" flaky).1.db
unfolding status_rank
stored_rank-le_example = stored_rank-le "m1" "delivered" "m1" 3 flaky refl

find-merge_chat_example :
    Merges "ann@lid" "1@s" sample (merge_chat "ann@lid" "1@s" flaky)
    × (merge_chat "ann@lid" "1@s" (calm sample) ≡ (ok tt, calm (merged "ann@lid" "1@s" sample)))
find-merge_chat_example = find-merge_chat "ann@lid" "1@s" flaky refl

count-merged_example : count (in_chat "1@s") (merged "ann@lid" "1@s" sample).messages ≡ 2
unfolding message_row find
count-merged_example = count-merged "ann@lid" "1@s" "1@s" sample refl

search-Occurs_example :
    (is_like_escaped (search_pattern "50%") "Now 50% off" ≡ true)
    ↔ Occurs (codes "50%") (codes "Now 50% off")
search-Occurs_example = search-Occurs "50%" "Now 50% off"

list_messages_page_example :
    (msgs : List Message) × (list_messages "ann@lid" (pos 50) (pos 25) (calm sample)
      ≡ (ok msgs, calm sample))
    × IsChronological msgs
    × All (IsAsked "ann@lid" (pos 25)) msgs
    × (length msgs ≤ 50)
list_messages_page_example = list_messages_page "ann@lid" 50 (pos 25) sample

archive_unpins_example :
    (c : Chat) × (find chat_jid "ann@lid"
        (set_chat_flags "ann@lid" (some true) (some true) none (calm sample)).1.db.chats
      ≡ some c)
    × (c.archived ≡ true)
    × (c.pinned ≡ false)
    × (c.name ≡ "Ann")
    × (c.unread ≡ pos 2)
    × (c.last_message ≡ "hi")
    × (c.muted_until ≡ pos 0)
unfolding find
archive_unpins_example = archive_unpins "ann@lid" (some true) none sample ann refl
