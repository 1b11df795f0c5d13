-- ===== src/Wa/History.antt =====
-- apps/daemon/wa/history.go, processHistorySync.
use zchat.Prelude.{
  ℕ, suc, ◌+◌, String, Bool, true, false, List, [], ◌∷◌, Option, none, some, ◌==◌, length, ltb, eqb,
  if◌then◌else◌,
}
use zchat.Prelude.Exec.{Exec, Result, ok, err, pure, ◌>>=◌, ◌>>◌}
use zchat.Store.Types.{Chat, Message}
use zchat.Store.Messages.{sync_conversation}
use zchat.Store.ChatQueries.{get_chat}
use zchat.Wa.Session.{Session, chat_updated, on_store, emit}
use zchat.Wa.Content.{WaMessage, int32, int64}
use zchat.Wa.Actions.{mute_until_from}
use zchat.Wa.Whatsmeow.{Whatsmeow}
use zchat.Wa.Lookup.{supported_chat, canonical_chat_jid, resolve_chat_name, is_group_server}
use zchat.Wa.Rows.{MessageInfo, message_row_of}

-- How many chats and messages fullSync.Chunk is told of.
pub record Synced : Type 0 where
  pub chats : ℕ
  pub messages : ℕ

abbrev pub nothing_synced : Synced
nothing_synced = record { chats = 0; messages = 0 }

abbrev pub add_chat : ℕ → Synced → Synced
add_chat n t = record { chats = suc t.chats; messages = t.messages + n }

module _ (W : Whatsmeow) where
  open W use {Jid, parse_jid, server}

  -- waHistorySync.Conversation; of each message, what ParseWebMessage makes of it.
  pub record Conversation : Type 0 where
    pub id : String
    pub name : String
    pub unread : ℕ
    pub archived : Bool
    pub pinned : ℕ
    pub timestamp : ℕ
    pub last_timestamp : ℕ
    pub mute_end : ℕ
    pub messages : List (Option (MessageInfo W × WaMessage))

  abbrev pub add_row : Option Message → List Message → List Message
  add_row none rows = rows
  add_row (some row) rows = row ∷ rows

  -- The batch of a conversation.
  unfoldable pub batch : List (Option (MessageInfo W × WaMessage)) → Exec Session (List Message)
  batch [] s = (ok [], s)
  batch (none ∷ ms) s = batch ms s
  batch (some (info, msg) ∷ ms) s =
      (do row ← message_row_of W info msg; rows ← batch ms; pure (add_row row rows)) s

  abbrev pub chat_from : Conversation → Jid → String → String → Chat
  unfolding mute_until_from
  chat_from c jid chat_jid name = record {
    jid = chat_jid;
    name = name;
    unread = int32 c.unread;
    archived = c.archived;
    pinned = ltb 0 c.pinned;
    last_message = "";
    updated_at = if eqb c.timestamp 0 then int64 c.last_timestamp else int64 c.timestamp;
    is_group = is_group_server (server jid);
    muted_until = mute_until_from (ltb 0 c.mute_end) (int64 c.mute_end);
  }

  abbrev pub announce_synced : Result Chat → ℕ → Exec Session (Option ℕ)
  announce_synced (err e) n s = (ok none, s)
  announce_synced (ok chat) n s = (emit (chat_updated chat) >> pure (some n)) s

  abbrev pub after_sync : Result (Unit {0}) → String → ℕ → Exec Session (Option ℕ)
  after_sync (err e) chat_jid n s = (ok none, s)
  after_sync (ok t) chat_jid n s =
      let (r, s') = on_store (get_chat chat_jid) s in announce_synced r n s'

  -- A chat's row, its messages and its preview, in one transaction.
  abbrev pub sync_chat : Chat → List Message → Exec Session (Option ℕ)
  sync_chat chat rows s =
      let (r, s') = on_store (sync_conversation chat rows) s in
      after_sync r chat.jid (length rows) s'

  abbrev pub chat_name_of : Conversation → Jid → Exec Session String
  chat_name_of c jid =
      if c.name == "" then resolve_chat_name W jid (is_group_server (server jid)) else pure c.name

  abbrev pub sync_supported : Bool → Conversation → Jid → Exec Session (Option ℕ)
  sync_supported false c jid s = (ok none, s)
  sync_supported true c jid s =
      (do
        name ← chat_name_of c jid
        rows ← batch c.messages
        sync_chat (chat_from c jid (canonical_chat_jid W jid s) name) rows)
        s

  -- One round of the loop; the number of messages where the chat is counted.
  abbrev pub sync_one : Option Jid → Conversation → Exec Session (Option ℕ)
  sync_one none c s = (ok none, s)
  sync_one (some jid) c s = sync_supported (supported_chat W jid) c jid s

  abbrev pub count_synced : Option ℕ → Synced → Synced
  count_synced none t = t
  count_synced (some n) t = add_chat n t

  -- The loop; its counts are added from the last conversation on.
  unfoldable pub sync_all : List Conversation → Exec Session Synced
  unfolding batch
  sync_all [] s = (ok nothing_synced, s)
  sync_all (c ∷ cs) s =
      (do n ← sync_one (parse_jid c.id) c; rest ← sync_all cs; pure (count_synced n rest)) s

  -- processHistorySync; none where there is no client, and no chunk is reported.
  unfoldable pub process_history_sync : List Conversation → Exec Session (Option Synced)
  unfolding sync_all
  process_history_sync cs s =
      if s.has_client then (sync_all cs >>= λ t. pure (some t)) s else (ok none, s)
