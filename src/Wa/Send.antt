-- ===== src/Wa/Send.antt =====
-- apps/daemon/wa/session.go: sending and resending, from the row to the server's answer.
pub mod Files
pub mod Forward
pub mod Announced
pub mod Fitted
pub mod Fitting
pub mod Steps
pub mod Uploads
pub mod Operations
pub mod Outcome
pub mod Stored
pub mod Delivered
use zchat.Prelude.{
  ℕ, String, Bool, true, false, not, ◌||◌, ◌&&◌, List, [], ◌∷◌, Option, none, some, ◌==◌,
  if◌then◌else◌,
}
use zchat.Prelude.Int.{ℤ}
use zchat.Prelude.Exec.{Exec, Result, ok, err, pure, raise, failure, ◌>>=◌, ◌>>◌}
use zchat.Store.Types.{Media, Message, Quoted, Fields, status_pending, status_sent, status_failed}
use zchat.Store.Messages.{
  insert_message, update_message_status, update_message_timestamp, update_message_sender,
}
use zchat.Store.MessageQueries.{media_payload}
use zchat.Store.Chats.{touch_chat}
use zchat.Wa.Session.{
  Session, message_received, message_updated, sends, on_store, emit, tell, quietly, attempt,
  publish_chat,
}
use zchat.Wa.Content.{type_text, WaMessage, media_preview}
use zchat.Wa.Whatsmeow.{Whatsmeow}
use zchat.Wa.Lookup.{resolve_chat_name, is_group_server}
use zchat.Wa.Reply.{conversation, build_reply}

abbrev pub with_status : String → Message → Message
with_status status m = record m { fields = record m.fields { status = status } }

abbrev pub with_sender : String → Message → Message
with_sender sender m = record m { fields = record m.fields { sender = sender } }

-- The row that finishSend leaves, before the sender is corrected.
abbrev pub sent_row : ℤ → Message → Message
sent_row ts m = record m { fields = record m.fields { timestamp = ts; status = status_sent } }

abbrev pub sent_preview : Message → Option Media → String
sent_preview row none = row.body
sent_preview row (some md) = media_preview row.type (some md)

module _ (W : Whatsmeow) where
  open W use {Jid, parse_jid, to_string, to_non_ad, is_empty, server, own_jid, push_name, unmarshal}

  -- whatsmeow.SendResponse: what the server answers to an accepted message.
  pub record SendResponse : Type 0 where
    pub timestamp : ℤ
    pub sender : Jid

  -- The sender's text where it is one, and another than the row's.
  abbrev pub corrects : Jid → Message → Bool
  corrects sender row = not (is_empty sender) && not (to_string sender == row.sender)

  abbrev pub correct_sender : Jid → Message → Exec Session Message
  correct_sender sender row =
      if corrects sender row
      then (do
        quietly (on_store (update_message_sender row.id (to_string sender)))
        pure (with_sender (to_string sender) row))
      else pure row

  abbrev pub touch_sent : Jid → Message → String → Exec Session Message
  touch_sent jid row name = do
    quietly (
        on_store (
          touch_chat row.chat_jid name (sent_preview row row.media) row.timestamp
            (is_group_server (server jid)) false))
    pure row

  -- The end of finishSend: the chat's preview.
  abbrev pub preview_sent : Jid → Message → Exec Session Message
  preview_sent jid row = do
    name ← resolve_chat_name W jid (is_group_server (server jid))
    touch_sent jid row name

  -- finishSend; the row that it changes in place is its result.
  unfoldable pub finish_send : Message → Jid → SendResponse → Exec Session Message
  finish_send row jid resp = do
    quietly (on_store (update_message_timestamp row.id resp.timestamp))
    quietly (on_store (update_message_status row.id status_sent))
    row' ← correct_sender (to_non_ad resp.sender) (sent_row resp.timestamp row)
    preview_sent jid row'

  -- The end of each sending operation, by the client's answer: `what` is the error's text.
  abbrev pub concluded :
      Result (Unit {0}) → String → Message → Jid → SendResponse → Exec Session Message
  concluded (err e) what row jid resp = do
    quietly (on_store (update_message_status row.id status_failed))
    emit (message_updated (with_status status_failed row))
    raise (failure what)
  concluded (ok t) what row jid resp = do
    row' ← finish_send row jid resp
    emit (message_updated row')
    publish_chat row'.chat_jid
    pure row'

  -- The sending operations, from their call of SendMessage on.
  unfoldable pub deliver : String → Message → Jid → WaMessage → SendResponse → Exec Session Message
  unfolding finish_send
  deliver what row jid payload resp s =
      let (r, s') = tell what (sends (to_string jid) row.id payload) s in
      concluded r what row jid resp s'

  abbrev pub own_text : Option Jid → String
  own_text none = ""
  own_text (some jid) = to_string (to_non_ad jid)

  -- The row that is recorded before a message is sent.
  abbrev pub pending_row :
      String → ℤ → Jid → String → String → Bool → Option Media → Option Quoted → Message
  pending_row id now jid body type forwarded media quoted = record {
    fields = record {
      id = id;
      chat_jid = to_string (to_non_ad jid);
      sender = own_text own_jid;
      sender_name = push_name;
      body = body;
      type = type;
      timestamp = now;
      outgoing = true;
      status = status_pending;
      forwarded = forwarded;
      reaction = "";
    };
    media = media;
    quoted = quoted;
  }

  -- SendText, SendMedia and ForwardMessage, from the insertion of the pending row on.
  unfoldable pub send_new : String → Message → Jid → WaMessage → SendResponse → Exec Session Message
  unfolding deliver
  send_new what row jid payload resp = do
    on_store (insert_message row)
    emit (message_received row)
    deliver what row jid payload resp

  -- The quote and the payload of a text.
  abbrev pub text_payload : Jid → String → String → Exec Session (Option Quoted × WaMessage)
  text_payload jid body quoted_id =
      if quoted_id == ""
      then pure (none, conversation body)
      else do reply ← build_reply W jid body quoted_id; pure (some reply.0, reply.1)

  abbrev pub send_text_to :
      Option Jid → String → String → String → ℤ → SendResponse → Exec Session Message
  send_text_to none body quoted_id id now resp = raise (failure "parse jid")
  send_text_to (some jid) body quoted_id id now resp = do
    out ← text_payload jid body quoted_id
    send_new "send message" (pending_row id now jid body type_text false none out.0) jid out.1 resp

  -- SendText; `id` is the generated id, `now` the time, `resp` the server's answer.
  unfoldable pub send_text :
      String → String → String → String → ℤ → SendResponse → Exec Session Message
  unfolding send_new
  send_text chat_jid body quoted_id id now resp s =
      if not s.has_client
      then (err (failure "session not started"), s)
      else send_text_to (parse_jid chat_jid) body quoted_id id now resp s

  -- RetryText and RetryMedia, from the reset of the status on.
  unfoldable pub resend : String → Message → Jid → WaMessage → SendResponse → Exec Session Message
  unfolding deliver
  resend what row jid payload resp = do
    on_store (update_message_status row.id status_pending)
    emit (message_updated (with_status status_pending row))
    deliver what (with_status status_pending row) jid payload resp

  abbrev pub retry_text_to : Option Jid → Message → SendResponse → Exec Session Message
  retry_text_to none row resp = raise (failure "parse jid")
  retry_text_to (some jid) row resp = resend "send message" row jid (conversation row.body) resp

  -- RetryText
  unfoldable pub retry_text : Message → SendResponse → Exec Session Message
  unfolding resend
  retry_text row resp s =
      if not row.outgoing || row.body == ""
      then (err (failure "message is not retryable"), s)
      else if not s.has_client
      then (err (failure "session not started"), s)
      else retry_text_to (parse_jid row.chat_jid) row resp s

  abbrev pub resend_decoded : Option WaMessage → Message → Jid → SendResponse → Exec Session Message
  resend_decoded none row jid resp = raise (failure "decode media payload")
  resend_decoded (some payload) row jid resp = resend "send message" row jid payload resp

  abbrev pub resend_raw :
      Option (List ℕ × String) → Message → Jid → SendResponse → Exec Session Message
  resend_raw none row jid resp = raise (failure "media payload unavailable")
  resend_raw (some ([], path)) row jid resp = raise (failure "media payload unavailable")
  resend_raw (some (b ∷ bs, path)) row jid resp = resend_decoded (unmarshal (b ∷ bs)) row jid resp

  abbrev pub retry_media_to : Option Jid → Message → SendResponse → Exec Session Message
  retry_media_to none row resp = raise (failure "parse jid")
  retry_media_to (some jid) row resp = do
    raw ← attempt (on_store (media_payload row.id))
    resend_raw raw row jid resp

  abbrev pub has_media : Option Media → Bool
  has_media none = false
  has_media (some md) = true

  -- RetryMedia
  unfoldable pub retry_media : Message → SendResponse → Exec Session Message
  unfolding resend
  retry_media row resp s =
      if not row.outgoing || not (has_media row.media)
      then (err (failure "message is not retryable"), s)
      else if not s.has_client
      then (err (failure "session not started"), s)
      else retry_media_to (parse_jid row.chat_jid) row resp s
