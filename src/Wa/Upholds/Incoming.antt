-- ===== src/Wa/Upholds/Incoming.antt =====
-- apps/daemon/wa: messages and receipts that arrive, the history sync, and the repair of the chats.
use zchat.Prelude.{
  ℕ, String, Bool, true, false, not, ◌&&◌, List, [], ◌∷◌, Option, none, some, ◌==◌, length,
}
use zchat.Prelude.Exec.{Result, ok, err, pure, ◌>>=◌}
use zchat.Store.Types.{Chat, Message}
use zchat.Store.ChatQueries.{get_chat}
use zchat.Store.Calls.{perform, inserts_message, touches_chat, syncs_conversation}
use zchat.Wa.Session.{message_received, on_store, emit, publish_chat}
use zchat.Wa.Content.{
  WaMessage, ContextInfo, no_context, context, extract_media, extract_text, message_context,
}
use zchat.Wa.Upholds.{
  Upholds, Upholds-pure, Upholds-value, Upholds-test, Upholds-call, Upholds->>=, Upholds-then,
  Upholds-quiet_call, Upholds-emit, Upholds-get_chat, Upholds-publish_chat,
}
use zchat.Wa.Upholds.Names.{Upholds-contact_name, Upholds-resolve_chat_name}
use zchat.Wa.Upholds.Changes.{Upholds-on_revoke}
use zchat.Wa.Whatsmeow.{Whatsmeow}
use zchat.Wa.Lookup.{
  supported_chat, canonical_chat_jid, contact_name, resolve_chat_name, is_group_server,
}
use zchat.Wa.Rows.{
  MessageInfo, quoted_sender, quote_of, quoted_from, sender_name_of, row_from, message_row_of,
  stored_row, persist_row, persist_message, announce_received, on_message, is_nothing,
}
use zchat.Wa.History.{
  Conversation, add_row, batch, announce_synced, after_sync, sync_chat, chat_name_of,
  sync_supported, sync_one, count_synced, sync_all, process_history_sync, chat_from,
}

module _ (W : Whatsmeow) where
  open W use {Jid, parse_jid, to_string, to_non_ad, server, user, marshal}

  Upholds-quoted_sender : (raw : String) (o : Option Jid) → Upholds (quoted_sender W raw o)
  Upholds-quoted_sender raw none = Upholds-pure _
  Upholds-quoted_sender raw (some jid) =
      Upholds->>= (contact_name W jid) (λ name. pure (to_string (to_non_ad jid), name))
        (Upholds-contact_name W jid) (λ n. Upholds-pure _)

  Upholds-quoted_from : (c : ContextInfo) → Upholds (quoted_from W c)
  unfolding quoted_from
  Upholds-quoted_from no_context = Upholds-pure none
  Upholds-quoted_from (context c m) =
      Upholds-value (c.stanza_id == "") (pure none) _ (Upholds-pure none) (
        Upholds->>= (quoted_sender W c.participant (parse_jid c.participant))
          (λ sender. pure (some (quote_of W c.stanza_id m sender)))
          (Upholds-quoted_sender c.participant (parse_jid c.participant)) (λ x. Upholds-pure _))

  Upholds-sender_name_of : (info : MessageInfo W) → Upholds (sender_name_of W info)
  unfolding sender_name_of
  Upholds-sender_name_of info =
      Upholds-value
        (info.push_name == "" && (not info.is_from_me && is_group_server (server info.chat)))
        (contact_name W info.sender) (pure info.push_name) (Upholds-contact_name W info.sender)
        (Upholds-pure _)

  Upholds-message_row_of :
      (info : MessageInfo W) (msg : WaMessage) → Upholds (message_row_of W info msg)
  unfolding message_row_of
  Upholds-message_row_of info msg =
      Upholds-value (extract_text msg == "" && is_nothing (extract_media marshal msg)) (pure none) _
        (Upholds-pure none)
        (Upholds->>= (sender_name_of W info) _ (Upholds-sender_name_of info) (λ name.
          Upholds->>= (λ s. (ok (canonical_chat_jid W info.chat s), s)) _ (record { at = λ s h. h })
            (λ jid.
              Upholds->>= (quoted_from W (message_context msg)) _
                (Upholds-quoted_from (message_context msg))
                (λ q. Upholds-pure (some (row_from W info msg name jid q))))))

  Upholds-stored_row :
      (r : Result (Unit {0})) (info : MessageInfo W) (row : Message)
      → Upholds (stored_row W r info row)
  unfolding perform
  Upholds-stored_row (err e) info row = record { at = λ s h. h }
  Upholds-stored_row (ok t) info row =
      Upholds->>= (resolve_chat_name W info.chat (is_group_server (server info.chat))) _
        (Upholds-resolve_chat_name W info.chat (is_group_server (server info.chat)))
        (λ name.
          Upholds->>= _ (λ u. pure (some row))
            (Upholds-quiet_call (
              touches_chat row.chat_jid name row.body row.timestamp
                (is_group_server (server info.chat)) (not info.is_from_me)))
            (λ u. Upholds-pure _))

  Upholds-persist_row : (info : MessageInfo W) (o : Option Message) → Upholds (persist_row W info o)
  unfolding perform
  Upholds-persist_row info none = record { at = λ s h. h }
  Upholds-persist_row info (some row) =
      Upholds-then (on_store (perform (inserts_message row))) (λ r. stored_row W r info row)
        (Upholds-call (inserts_message row)) (λ r. Upholds-stored_row r info row)

  Upholds-announce_received : (o : Option Message) → Upholds (announce_received W o)
  Upholds-announce_received none = Upholds-pure tt
  Upholds-announce_received (some row) =
      Upholds->>= (emit (message_received row)) (λ u. publish_chat row.chat_jid) (Upholds-emit _)
        (λ u. Upholds-publish_chat _)

  pub Upholds-on_message :
      (info : MessageInfo W) (revokes : Option String) (msg : WaMessage)
      → Upholds (on_message W info revokes msg)
  unfolding on_message persist_message
  Upholds-on_message info none msg =
      Upholds-value (not (supported_chat W info.chat)) (pure tt) _ (Upholds-pure tt) (
        Upholds->>= (persist_message W info msg) (announce_received W)
          (Upholds->>= (message_row_of W info msg) (persist_row W info)
            (Upholds-message_row_of info msg) (Upholds-persist_row info))
          Upholds-announce_received)
  Upholds-on_message info (some id) msg =
      Upholds-value (not (supported_chat W info.chat)) (pure tt) _ (Upholds-pure tt)
        (Upholds-on_revoke _ id)

  Upholds-batch : (ms : List (Option (MessageInfo W × WaMessage))) → Upholds (batch W ms)
  unfolding batch
  Upholds-batch [] = record { at = λ s h. h }
  Upholds-batch (none ∷ ms) = record { at = (Upholds-batch ms).at }
  Upholds-batch (some (info, msg) ∷ ms) = record {
    at =
        (Upholds->>= (message_row_of W info msg)
          (λ row. batch W ms >>= λ rows. pure (add_row W row rows))
          (Upholds-message_row_of info msg)
          (λ row.
            Upholds->>= (batch W ms) (λ rows. pure (add_row W row rows)) (Upholds-batch ms)
              (λ rows. Upholds-pure _))).at;
  }

  Upholds-announce_synced : (r : Result Chat) (n : ℕ) → Upholds (announce_synced W r n)
  Upholds-announce_synced (err e) n = record { at = λ s h. h }
  Upholds-announce_synced (ok c) n = record { at = λ s h. h }

  Upholds-after_sync :
      (r : Result (Unit {0})) (jid : String) (n : ℕ) → Upholds (after_sync W r jid n)
  Upholds-after_sync (err e) jid n = record { at = λ s h. h }
  Upholds-after_sync (ok t) jid n =
      Upholds-then (on_store (get_chat jid)) (λ r. announce_synced W r n) (Upholds-get_chat jid)
        (λ r. Upholds-announce_synced r n)

  Upholds-sync_chat : (chat : Chat) (rows : List Message) → Upholds (sync_chat W chat rows)
  unfolding perform
  Upholds-sync_chat chat rows =
      Upholds-then (on_store (perform (syncs_conversation chat rows)))
        (λ r. after_sync W r chat.jid (length rows)) (Upholds-call (syncs_conversation chat rows))
        (λ r. Upholds-after_sync r chat.jid (length rows))

  Upholds-sync_supported :
      (b : Bool) (c : Conversation W) (jid : Jid) → Upholds (sync_supported W b c jid)
  Upholds-sync_supported false c jid = record { at = λ s h. h }
  Upholds-sync_supported true c jid = record {
    at = λ s h.
        (Upholds->>= (chat_name_of W c jid) _
            (Upholds-value (c.name == "") (resolve_chat_name W jid (is_group_server (server jid)))
              (pure c.name) (Upholds-resolve_chat_name W jid (is_group_server (server jid)))
              (Upholds-pure _))
            (λ name.
              Upholds->>= (batch W c.messages)
                (λ rows. sync_chat W (chat_from W c jid (canonical_chat_jid W jid s) name) rows)
                (Upholds-batch c.messages) (λ rows. Upholds-sync_chat _ rows))).at
          s h;
  }

  Upholds-sync_one : (o : Option Jid) (c : Conversation W) → Upholds (sync_one W o c)
  Upholds-sync_one none c = record { at = λ s h. h }
  Upholds-sync_one (some jid) c = record { at = (Upholds-sync_supported _ c jid).at }

  Upholds-sync_all : (cs : List (Conversation W)) → Upholds (sync_all W cs)
  unfolding sync_all
  Upholds-sync_all [] = record { at = λ s h. h }
  Upholds-sync_all (c ∷ cs) = record {
    at =
        (Upholds->>= (sync_one W (parse_jid c.id) c)
          (λ n. sync_all W cs >>= λ rest. pure (count_synced W n rest)) (Upholds-sync_one _ c)
          (λ n.
            Upholds->>= (sync_all W cs) (λ rest. pure (count_synced W n rest)) (Upholds-sync_all cs)
              (λ rest. Upholds-pure _))).at;
  }

  pub Upholds-process_history_sync :
      (cs : List (Conversation W)) → Upholds (process_history_sync W cs)
  unfolding process_history_sync
  Upholds-process_history_sync cs =
      Upholds-test (λ s. s.has_client) (sync_all W cs >>= λ t. pure (some t)) (λ s. (ok none, s))
        (Upholds->>= (sync_all W cs) (λ t. pure (some t)) (Upholds-sync_all cs)
          (λ t. Upholds-pure _))
        (record { at = λ s h. h })
