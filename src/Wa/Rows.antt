-- ===== src/Wa/Rows.antt =====
-- apps/daemon/wa/session.go: messages that arrive, and the rows that are made of them.
use zchat.Prelude.{String, Bool, true, false, not, ◌&&◌, Option, none, some, ◌==◌, if◌then◌else◌}
use zchat.Prelude.Int.{ℤ}
use zchat.Prelude.Exec.{Exec, Result, ok, err, pure, ◌>>=◌, ◌>>◌}
use zchat.Store.Types.{Media, Message, Quoted, status_delivered, status_sent}
use zchat.Store.Messages.{insert_message}
use zchat.Store.Chats.{touch_chat}
use zchat.Wa.Session.{Session, message_received, on_store, emit, quietly, publish_chat}
use zchat.Wa.Actions.{on_revoke}
use zchat.Wa.Content.{
  type_text, WaMessage, ContextInfo, no_context, context, extract_media, extract_text,
  message_context, media_preview,
}
use zchat.Wa.Whatsmeow.{Whatsmeow}
use zchat.Wa.Lookup.{
  supported_chat, canonical_chat_jid, contact_name, resolve_chat_name, is_group_server,
}

-- The kind and the text that stand for a message's content.
abbrev pub content_kind : Option (String × Media) → String
content_kind none = type_text
content_kind (some (kind, md)) = kind

abbrev pub content_body : String → Option (String × Media) → String
content_body body none = body
content_body body (some (kind, md)) = if body == "" then media_preview kind (some md) else body

abbrev pub content_media : Option (String × Media) → Option Media
content_media none = none
content_media (some (kind, md)) = some md

abbrev pub is_nothing : Option (String × Media) → Bool
is_nothing none = true
is_nothing (some x) = false

abbrev pub is_forwarded : ContextInfo → Bool
is_forwarded no_context = false
is_forwarded (context c m) = c.is_forwarded

module _ (W : Whatsmeow) where
  open W use {Jid, parse_jid, to_string, to_non_ad, server, marshal}

  -- types.MessageInfo
  pub record MessageInfo : Type 0 where
    pub id : String
    pub chat : Jid
    pub sender : Jid
    pub push_name : String
    pub timestamp : ℤ
    pub is_from_me : Bool

  -- The sender of a quote, without its device, and its name.
  abbrev pub quoted_sender : String → Option Jid → Exec Session (String × String)
  quoted_sender raw none = pure (raw, "")
  quoted_sender raw (some jid) = do
    name ← contact_name W jid
    pure (to_string (to_non_ad jid), name)

  abbrev pub quote_of : String → WaMessage → String × String → Quoted
  quote_of id m (sender, sender_name) = record {
    id = id;
    sender = sender;
    sender_name = sender_name;
    body = content_body (extract_text m) (extract_media marshal m);
    type = content_kind (extract_media marshal m);
  }

  -- quotedFrom
  unfoldable pub quoted_from : ContextInfo → Exec Session (Option Quoted)
  quoted_from no_context = pure none
  quoted_from (context c m) = if c.stanza_id == "" then pure none else do
    sender ← quoted_sender c.participant (parse_jid c.participant)
    pure (some (quote_of c.stanza_id m sender))

  -- The sender's name: its push name, or for others in a group its contact's name.
  unfoldable pub sender_name_of : MessageInfo → Exec Session String
  sender_name_of info =
      if info.push_name == "" && (not info.is_from_me && is_group_server (server info.chat))
      then contact_name W info.sender
      else pure info.push_name

  -- The row of messageRow, from its sender's name, its chat and its quote.
  abbrev pub row_from : MessageInfo → WaMessage → String → String → Option Quoted → Message
  row_from info msg sender_name chat_jid quoted = record {
    fields = record {
      id = info.id;
      chat_jid = chat_jid;
      sender = to_string (to_non_ad info.sender);
      sender_name = sender_name;
      body = content_body (extract_text msg) (extract_media marshal msg);
      type = content_kind (extract_media marshal msg);
      timestamp = info.timestamp;
      outgoing = info.is_from_me;
      status = if info.is_from_me then status_sent else status_delivered;
      forwarded = is_forwarded (message_context msg);
      reaction = "";
    };
    media = content_media (extract_media marshal msg);
    quoted = quoted;
  }

  -- messageRow; none where the message carries nothing that is supported.
  unfoldable pub message_row_of : MessageInfo → WaMessage → Exec Session (Option Message)
  unfolding quoted_from sender_name_of
  message_row_of info msg =
      if extract_text msg == "" && is_nothing (extract_media marshal msg) then pure none else do
        sender_name ← sender_name_of info
        chat_jid ← λ s. (ok (canonical_chat_jid W info.chat s), s)
        quoted ← quoted_from (message_context msg)
        pure (some (row_from info msg sender_name chat_jid quoted))

  -- The rest of persistMessage, where there is a row; none stands for false.
  abbrev pub stored_row : Result (Unit {0}) → MessageInfo → Message → Exec Session (Option Message)
  stored_row (err e) info row s = (ok none, s)
  stored_row (ok t) info row s =
      (do
        name ← resolve_chat_name W info.chat (is_group_server (server info.chat))
        quietly (
            on_store (
              touch_chat row.chat_jid name row.body row.timestamp
                (is_group_server (server info.chat)) (not info.is_from_me)))
        pure (some row))
        s

  abbrev pub persist_row : MessageInfo → Option Message → Exec Session (Option Message)
  persist_row info none s = (ok none, s)
  persist_row info (some row) s =
      let (r, s') = on_store (insert_message row) s in stored_row r info row s'

  -- persistMessage
  unfoldable pub persist_message : MessageInfo → WaMessage → Exec Session (Option Message)
  unfolding message_row_of
  persist_message info msg = do row ← message_row_of info msg; persist_row info row

  abbrev pub announce_received : Option Message → Exec Session (Unit {0})
  announce_received none = pure tt
  announce_received (some row) = do emit (message_received row); publish_chat row.chat_jid

  -- onMessage; `revokes` is the id that a revocation names, where the message is one.
  unfoldable pub on_message : MessageInfo → Option String → WaMessage → Exec Session (Unit {0})
  unfolding persist_message
  on_message info revokes msg = if not (supported_chat W info.chat) then pure tt else elim revokes [
    | some id ↦ on_revoke (to_string (to_non_ad info.chat)) id
    | none ↦ persist_message info msg >>= announce_received
  ]
