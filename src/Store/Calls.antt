-- ===== src/Store/Calls.antt =====
-- Every exported operation of store.go that writes, as one type of calls, and histories of calls.
use zchat.Prelude.{
  String, Bool, List, [], ◌∷◌, Option, none, some, ◌≡◌, Bool-cases, inl, inr, arith, eqb, ℕ,
}
use zchat.Prelude.Int.{ℤ}
use zchat.Prelude.Exec.{not_found, ◌>>=◌}
use zchat.Store.Types.{Chat, Message, Media, status_rank}
use zchat.Store.Db.{Conn, Sql, found_rows, later, exec, exec_rows, refused}
use zchat.Store.Db.Keeps.{
  Keeps, Keeps-exec, Keeps-exec_rows, Keeps-query, Keeps-bind, Keeps-pure, Keeps-raise, Keeps-if,
  Keeps-for_each, Keeps-transaction,
}
use zchat.Store.Meta.{set_meta}
use zchat.Store.Chats.{
  upsert_chat, set_chat_flags, set_chat_name, touch_chat, clear_unread, merge_chat, no_flags,
}
use zchat.Store.Messages.{
  insert_media, delete_body, apply_status, insert_message_tx, insert_message, insert_messages,
  sync_conversation, refresh_last_message, delete_message, set_media_path, update_message_status,
  advance_status, outranks, update_message_timestamp, update_message_sender, set_message_reaction,
  add_message_rows,
}
use zchat.Store.Consistent.{
  IsConsistent, meta-IsConsistent, upsert_chat-IsConsistent, set_chat_flags-IsConsistent,
  set_chat_name-IsConsistent, clear_unread-IsConsistent, refresh-IsConsistent,
  touch_chat-IsConsistent, fold_chat-IsConsistent, drop_chat-IsConsistent,
  move_messages-IsConsistent, set_status-IsConsistent, set_timestamp-IsConsistent,
  set_sender-IsConsistent, set_reaction-IsConsistent, set_media_path-IsConsistent,
  add_message-IsConsistent, delete_media-IsConsistent, delete_message-IsConsistent,
  add_media-IsConsistent,
}

pub data Call : Type 0 where
  sets_meta : String → String → Call
  upserts_chat : Chat → Call
  syncs_conversation : Chat → List Message → Call
  sets_chat_flags : String → Option Bool → Option Bool → Option ℤ → Call
  sets_chat_name : String → String → Call
  merges_chat : String → String → Call
  touches_chat : String → String → String → ℤ → Bool → Bool → Call
  refreshes_last_message : String → Call
  clears_unread : String → Call
  inserts_message : Message → Call
  inserts_messages : List Message → Call
  deletes_message : String → Call
  sets_media_path : String → String → ℤ → Call
  updates_message_status : String → String → Call
  updates_message_timestamp : String → ℤ → Call
  updates_message_sender : String → String → Call
  sets_message_reaction : String → String → Call

unfoldable pub perform : Call → Sql (Unit {0})
perform (sets_meta k v) = set_meta k v
perform (upserts_chat c) = upsert_chat c
perform (syncs_conversation c ms) = sync_conversation c ms
perform (sets_chat_flags jid p a m) = set_chat_flags jid p a m
perform (sets_chat_name jid n) = set_chat_name jid n
perform (merges_chat from to) = merge_chat from to
perform (touches_chat jid n l ts g u) = touch_chat jid n l ts g u
perform (refreshes_last_message jid) = refresh_last_message jid
perform (clears_unread jid) = clear_unread jid
perform (inserts_message m) = insert_message m
perform (inserts_messages ms) = insert_messages ms
perform (deletes_message id) = delete_message id
perform (sets_media_path id path size) = set_media_path id path size
perform (updates_message_status id status) = update_message_status id status
perform (updates_message_timestamp id ts) = update_message_timestamp id ts
perform (updates_message_sender id sender) = update_message_sender id sender
perform (sets_message_reaction id r) = set_message_reaction id r

-- A caller goes on after an error.
pub history : List Call → Conn → Conn
history [] c = c
history (k ∷ ks) c = history ks (perform k c).1

insert_media-IsConsistent :
    (m : Message) (o : Option Media) (c : Conn)
    → IsConsistent c.db
    → IsConsistent ((exec "insert message" (add_message_rows m) >>= λ _. insert_media m o) c).1.db
unfolding exec
insert_media-IsConsistent m none c h = elim (Bool-cases (refused c.faults)) [
  | inl e ↦ rw e h
  | inr e ↦ rw e (add_message-IsConsistent h m)
]
insert_media-IsConsistent m (some md) c h = elim (Bool-cases (refused c.faults)) [
  | inl e ↦ rw e h
  | inr e ↦ rw e (elim (Bool-cases (refused (later c.faults))) [
    | inl d ↦ rw d (add_message-IsConsistent h m)
    | inr d ↦ rw d (add_media-IsConsistent h m md)
  ])
]

insert_message_tx-IsConsistent : (m : Message) → Keeps IsConsistent (insert_message_tx m)
unfolding insert_message_tx
insert_message_tx-IsConsistent m = record { at = λ c h. insert_media-IsConsistent m m.media c h }

found_rows-state : (n : ℕ) (c : Conn) → (found_rows n c).1 ≡ c
unfolding found_rows
found_rows-state n c = ground arith

delete_body-IsConsistent : (id : String) → Keeps IsConsistent (delete_body id)
unfolding delete_body exec exec_rows
delete_body-IsConsistent id = record {
  at = λ c h. elim (Bool-cases (refused c.faults)) [
    | inl e ↦ rw e h
    | inr e ↦ rw e (elim (Bool-cases (refused (later c.faults))) [
      | inl d ↦ rw d (delete_media-IsConsistent h id)
      | inr d ↦ rw (d, found_rows-state) (delete_message-IsConsistent h id)
    ])
  ];
}

Keeps-found_rows : (n : ℕ) → Keeps IsConsistent (found_rows n)
unfolding found_rows
Keeps-found_rows n = Keeps-if (eqb n 0) _ _ (Keeps-raise not_found) (Keeps-pure tt)

update_status-IsConsistent :
    (id status : String) (r : Option ℕ) → Keeps IsConsistent (apply_status id status r)
unfolding apply_status advance_status
update_status-IsConsistent id status none =
    Keeps-exec _ _ (λ db h. set_status-IsConsistent h id status)
update_status-IsConsistent id status (some rank) = Keeps-bind _ _ (Keeps-query _ _) (λ current.
    Keeps-if (outranks current rank) _ _ (Keeps-pure tt)
      (Keeps-exec _ _ (λ db h. set_status-IsConsistent h id status)))

pub perform-IsConsistent : (k : Call) → Keeps IsConsistent (perform k)
unfolding perform set_meta upsert_chat sync_conversation set_chat_flags set_chat_name merge_chat
    touch_chat refresh_last_message clear_unread insert_message insert_messages delete_message
    set_media_path update_message_status update_message_timestamp update_message_sender
    set_message_reaction
perform-IsConsistent (sets_meta k v) = Keeps-exec _ _ (λ db h. meta-IsConsistent h k v)
perform-IsConsistent (upserts_chat c) = Keeps-exec _ _ (λ db h. upsert_chat-IsConsistent h c)
perform-IsConsistent (syncs_conversation c ms) = Keeps-transaction _ _ (
    Keeps-bind _ _ (Keeps-exec _ _ (λ db h. upsert_chat-IsConsistent h c)) (λ _.
      Keeps-bind _ _ (Keeps-for_each ms insert_message_tx insert_message_tx-IsConsistent)
        (λ _. Keeps-exec _ _ (λ db h. refresh-IsConsistent h c.jid))))
perform-IsConsistent (sets_chat_flags jid p a m) = Keeps-if (no_flags p a m) _ _ (Keeps-pure tt) (
    Keeps-bind _ _ (Keeps-exec_rows _ _ _ (λ db h. set_chat_flags-IsConsistent h jid p a m))
      (λ n. Keeps-found_rows n))
perform-IsConsistent (sets_chat_name jid n) =
    Keeps-exec _ _ (λ db h. set_chat_name-IsConsistent h jid n)
perform-IsConsistent (merges_chat from to) = Keeps-transaction _ _ (
    Keeps-bind _ _ (Keeps-exec _ _ (λ db h. move_messages-IsConsistent h from to)) (λ _.
      Keeps-bind _ _ (Keeps-exec _ _ (λ db h. fold_chat-IsConsistent h from to))
        (λ _. Keeps-exec _ _ (λ db h. drop_chat-IsConsistent h from))))
perform-IsConsistent (touches_chat jid n l ts g u) =
    Keeps-exec _ _ (λ db h. touch_chat-IsConsistent h jid n l ts g u)
perform-IsConsistent (refreshes_last_message jid) =
    Keeps-exec _ _ (λ db h. refresh-IsConsistent h jid)
perform-IsConsistent (clears_unread jid) = Keeps-exec _ _ (λ db h. clear_unread-IsConsistent h jid)
perform-IsConsistent (inserts_message m) = Keeps-transaction _ _ (insert_message_tx-IsConsistent m)
perform-IsConsistent (inserts_messages []) = Keeps-pure tt
perform-IsConsistent (inserts_messages (m ∷ ms)) =
    Keeps-transaction _ _ (Keeps-for_each (m ∷ ms) insert_message_tx insert_message_tx-IsConsistent)
perform-IsConsistent (deletes_message id) = Keeps-transaction _ _ (delete_body-IsConsistent id)
perform-IsConsistent (sets_media_path id path size) =
    Keeps-exec _ _ (λ db h. set_media_path-IsConsistent h id path size)
perform-IsConsistent (updates_message_status id status) =
    update_status-IsConsistent id status (status_rank status)
perform-IsConsistent (updates_message_timestamp id ts) =
    Keeps-exec _ _ (λ db h. set_timestamp-IsConsistent h id ts)
perform-IsConsistent (updates_message_sender id sender) =
    Keeps-exec _ _ (λ db h. set_sender-IsConsistent h id sender)
perform-IsConsistent (sets_message_reaction id r) =
    Keeps-exec _ _ (λ db h. set_reaction-IsConsistent h id r)

-- From well-formed tables, whatever the calls and whichever statements the driver refuses, the
-- tables stay well-formed.
pub history-IsConsistent :
    (ks : List Call) (c : Conn) → IsConsistent c.db → IsConsistent (history ks c).db
unfolding history
history-IsConsistent [] c h = h
history-IsConsistent (k ∷ ks) c h =
    history-IsConsistent ks (perform k c).1 ((perform-IsConsistent k).at c h)
