-- ===== src/Wa/Upholds/Repair.antt =====
-- apps/daemon/wa/session.go: the repair of the chats, and receipts.
use zchat.Prelude.{String, ◌||◌, List, [], ◌∷◌, Option, none, some, ◌==◌}
use zchat.Prelude.Exec.{Result, ok, err, pure}
use zchat.Store.Types.{Message}
use zchat.Store.Consistent.{IsConsistent}
use zchat.Store.ChatQueries.{lid_chats, chats_named_by_number}
use zchat.Store.MessageQueries.{get_message}
use zchat.Store.Calls.{perform, merges_chat, sets_chat_name, updates_message_status}
use zchat.Wa.Session.{Session, chat_deleted, on_store, emit, publish_chat}
use zchat.Wa.Upholds.{
  Upholds, Upholds-pure, Upholds-test, Upholds-call, Upholds-query, Upholds->>=, Upholds-then,
  Upholds-emit, Upholds-publish_chat,
}
use zchat.Wa.Upholds.Names.{Upholds-name_or_number}
use zchat.Wa.Upholds.Sending.{Upholds-get_message}
use zchat.Wa.Whatsmeow.{Whatsmeow}
use zchat.Wa.Lookup.{canonical_chat_jid, name_or_number}
use zchat.Wa.Reconcile.{
  after_merge, merge_into, merge_lid_chat, merge_all, rows_or_none, merge_lid_chats, after_name,
  set_found_name, name_chat, name_all, backfill_chat_names, reconcile_chats,
}
use zchat.Wa.Receipts.{
  ReceiptType, receipt_status, announce_message, after_update, receive_one, receive_all, receive,
  on_receipt,
}

module _ (W : Whatsmeow) where
  open W use {Jid, parse_jid, user}

  Upholds-after_merge :
      (r : Result (Unit {0})) (from to : String) → Upholds (after_merge W r from to)
  Upholds-after_merge (err e) from to = record { at = λ s h. h }
  Upholds-after_merge (ok t) from to = record {
    at =
        (Upholds->>= (emit (chat_deleted from)) (λ u. publish_chat to) (Upholds-emit _)
          (λ u. Upholds-publish_chat to)).at;
  }

  Upholds-merge_into : (from to : String) → Upholds (merge_into W from to)
  unfolding perform
  Upholds-merge_into from to =
      Upholds-test (λ s. to == from) (pure tt) _ (Upholds-pure tt)
        (Upholds-then (on_store (perform (merges_chat from to))) (λ r. after_merge W r from to)
          (Upholds-call (merges_chat from to)) (λ r. Upholds-after_merge r from to))

  Upholds-merge_lid_chat : (o : Option Jid) (chat : String) → Upholds (merge_lid_chat W o chat)
  Upholds-merge_lid_chat none chat = record { at = λ s h. h }
  Upholds-merge_lid_chat (some jid) chat = record {
    at = λ s h. (Upholds-merge_into chat (canonical_chat_jid W jid s)).at s h;
  }

  Upholds-merge_all : (chats : List String) → Upholds (merge_all W chats)
  Upholds-merge_all [] = record { at = λ s h. h }
  Upholds-merge_all (c ∷ cs) =
      Upholds-then (merge_lid_chat W (parse_jid c) c) (λ r. merge_all W cs)
        (Upholds-merge_lid_chat (parse_jid c) c) (λ r. Upholds-merge_all cs)

  Upholds-merge_lid_chats : Upholds (merge_lid_chats W)
  unfolding merge_lid_chats lid_chats
  Upholds-merge_lid_chats =
      Upholds-then (on_store lid_chats) (λ r. merge_all W (rows_or_none W r)) (Upholds-query _ _)
        (λ r. Upholds-merge_all (rows_or_none W r))

  Upholds-after_name : (r : Result (Unit {0})) (chat : String) → Upholds (after_name W r chat)
  Upholds-after_name (err e) chat = record { at = λ s h. h }
  Upholds-after_name (ok t) chat = record { at = (Upholds-publish_chat chat).at }

  Upholds-set_found_name :
      (name chat : String) (jid : Jid) → Upholds (set_found_name W name chat jid)
  unfolding perform
  Upholds-set_found_name name chat jid =
      Upholds-test (λ s. name == "" || name == user jid) (pure tt) _ (Upholds-pure tt)
        (Upholds-then (on_store (perform (sets_chat_name chat name))) (λ r. after_name W r chat)
          (Upholds-call (sets_chat_name chat name)) (λ r. Upholds-after_name r chat))

  Upholds-name_chat : (o : Option Jid) (chat : String) → Upholds (name_chat W o chat)
  Upholds-name_chat none chat = record { at = λ s h. h }
  Upholds-name_chat (some jid) chat = record {
    at =
        (Upholds->>= (name_or_number W jid) (λ name. set_found_name W name chat jid)
          (Upholds-name_or_number W jid) (λ name. Upholds-set_found_name name chat jid)).at;
  }

  Upholds-name_all : (chats : List String) → Upholds (name_all W chats)
  Upholds-name_all [] = record { at = λ s h. h }
  Upholds-name_all (c ∷ cs) =
      Upholds-then (name_chat W (parse_jid c) c) (λ r. name_all W cs)
        (Upholds-name_chat (parse_jid c) c) (λ r. Upholds-name_all cs)

  Upholds-backfill_chat_names : Upholds (backfill_chat_names W)
  unfolding backfill_chat_names chats_named_by_number
  Upholds-backfill_chat_names =
      Upholds-then (on_store chats_named_by_number) (λ r. name_all W (rows_or_none W r))
        (Upholds-query _ _) (λ r. Upholds-name_all (rows_or_none W r))

  pub Upholds-reconcile_chats : Upholds (reconcile_chats W)
  unfolding reconcile_chats
  Upholds-reconcile_chats =
      Upholds->>= (merge_lid_chats W) (λ u. backfill_chat_names W) Upholds-merge_lid_chats
        (λ u. Upholds-backfill_chat_names)

-- Receipts, whose errors are only logged.
announced-IsConsistent :
    (r : Result Message) (s : Session)
    → IsConsistent s.conn.db
    → IsConsistent (announce_message r s).conn.db
announced-IsConsistent (ok m) s h = h
announced-IsConsistent (err e) s h = h

after_update-IsConsistent :
    (r : Result (Unit {0})) (id : String) (s : Session)
    → IsConsistent s.conn.db
    → IsConsistent (after_update r id s).conn.db
after_update-IsConsistent (ok t) id s h =
    announced-IsConsistent (on_store (get_message id) s).0 (on_store (get_message id) s).1
      ((Upholds-get_message id).at s h)
after_update-IsConsistent (err e) id s h = h

received-IsConsistent :
    (status : String) (ids : List String) (s : Session)
    → IsConsistent s.conn.db
    → IsConsistent (receive_all status ids s).conn.db
unfolding receive_one perform
received-IsConsistent status [] s h = h
received-IsConsistent status (id ∷ ids) s h =
    received-IsConsistent status ids (receive_one status id s) (
      after_update-IsConsistent (on_store (perform (updates_message_status id status)) s).0 id
        (on_store (perform (updates_message_status id status)) s).1
        ((Upholds-call (updates_message_status id status)).at s h))

pub on_receipt-IsConsistent :
    (t : ReceiptType) (ids : List String) (s : Session)
    → IsConsistent s.conn.db
    → IsConsistent (on_receipt t ids s).conn.db
unfolding on_receipt
on_receipt-IsConsistent t ids s h = received (receipt_status t)
  where
    received : (o : Option String) → IsConsistent (receive o ids s).conn.db
    received none = h
    received (some status) = received-IsConsistent status ids s h
