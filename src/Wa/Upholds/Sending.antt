-- ===== src/Wa/Upholds/Sending.antt =====
-- apps/daemon/wa: sending, resending, forwarding and reacting.
use zchat.Prelude.{
  ℕ, String, false, not, ◌||◌, List, [], ◌∷◌, Option, none, some, ◌==◌, if◌then◌else◌,
}
use zchat.Prelude.Int.{ℤ}
use zchat.Prelude.Exec.{Exec, Result, ok, err, failure, pure, raise}
use zchat.Store.Types.{Media, Message, status_sent, status_failed, status_pending}
use zchat.Store.MessageQueries.{get_message, media_payload}
use zchat.Store.Calls.{
  perform, inserts_message, updates_message_status, updates_message_timestamp,
  updates_message_sender, touches_chat,
}
use zchat.Wa.Session.{
  Session, message_updated, message_received, sends, on_store, attempt, emit, tell, publish_chat,
}
use zchat.Wa.Content.{WaMessage}
use zchat.Wa.Upholds.{
  Upholds, Upholds-pure, Upholds-raise, Upholds-value, Upholds-test, Upholds-call, Upholds-query,
  Upholds->>=, Upholds-then, Upholds-attempt, Upholds-quiet_call, Upholds-emit, Upholds-tell,
  Upholds-publish_chat,
}
use zchat.Wa.Upholds.Names.{Upholds-resolve_chat_name}
use zchat.Wa.Whatsmeow.{Whatsmeow}
use zchat.Wa.Lookup.{resolve_chat_name, is_group_server}
use zchat.Wa.Reply.{
  payload_of, quoted_payload, reply_to, reply_context, build_reply, decoded, or_conversation,
}
use zchat.Wa.Send.{
  SendResponse, sent_row, with_sender, sent_preview, with_status, corrects, correct_sender,
  touch_sent, preview_sent, finish_send, concluded, deliver, send_new, resend, text_payload,
  send_text_to, send_text, retry_text_to, retry_text, resend_decoded, resend_raw, retry_media_to,
  retry_media, has_media,
}

pub Upholds-get_message : (id : String) → Upholds (on_store (get_message id))
unfolding get_message
Upholds-get_message id = Upholds-query _ _

pub Upholds-media_payload : (id : String) → Upholds (on_store (media_payload id))
unfolding media_payload
Upholds-media_payload id = Upholds-query _ _

module _ (W : Whatsmeow) where
  open W use {Jid, parse_jid, to_string, to_non_ad, is_empty, server, unmarshal, marshal}

  Upholds-payload_of : (o : Option Media) (m : Message) → Upholds (payload_of W o m)
  Upholds-payload_of none m = Upholds-pure _
  Upholds-payload_of (some md) m =
      Upholds->>= (attempt (on_store (media_payload m.id)))
        (λ raw. pure (or_conversation W (decoded W raw) m.body))
        (Upholds-attempt _ (Upholds-media_payload m.id)) (λ raw. Upholds-pure _)

  Upholds-reply_to : (m : Message) (o : Option Jid) → Upholds (reply_to W m o)
  unfolding quoted_payload
  Upholds-reply_to m none = Upholds-raise _
  Upholds-reply_to m (some jid) =
      Upholds->>= (quoted_payload W m) _ (Upholds-payload_of m.media m) (λ p. Upholds-pure _)

  pub Upholds-reply_context : (chat : Jid) (id : String) → Upholds (reply_context W chat id)
  unfolding reply_context
  Upholds-reply_context chat id =
      Upholds->>= (on_store (get_message id)) _ (Upholds-get_message id) (λ m.
        Upholds-value (m.chat_jid == to_string (to_non_ad chat)) (reply_to W m (parse_jid m.sender))
          _ (Upholds-reply_to m (parse_jid m.sender)) (Upholds-raise _))

  Upholds-correct_sender : (sender : Jid) (row : Message) → Upholds (correct_sender W sender row)
  unfolding perform
  Upholds-correct_sender sender row =
      Upholds-value (corrects W sender row) _ (pure row)
        (Upholds->>= _ (λ u. pure (with_sender (to_string sender) row))
          (Upholds-quiet_call (updates_message_sender row.id (to_string sender)))
          (λ u. Upholds-pure _))
        (Upholds-pure row)

  Upholds-preview_sent : (jid : Jid) (row : Message) → Upholds (preview_sent W jid row)
  unfolding perform
  Upholds-preview_sent jid row =
      Upholds->>= (resolve_chat_name W jid (is_group_server (server jid))) (touch_sent W jid row)
        (Upholds-resolve_chat_name W jid (is_group_server (server jid)))
        (λ name.
          Upholds->>= _ (λ u. pure row)
            (Upholds-quiet_call (
              touches_chat row.chat_jid name (sent_preview row row.media) row.timestamp
                (is_group_server (server jid)) false))
            (λ u. Upholds-pure row))

  Upholds-finish_send :
      (row : Message) (jid : Jid) (resp : SendResponse W) → Upholds (finish_send W row jid resp)
  unfolding finish_send perform
  Upholds-finish_send row jid resp =
      Upholds->>= _ _ (Upholds-quiet_call (updates_message_timestamp row.id resp.timestamp)) (λ u.
        Upholds->>= _ _ (Upholds-quiet_call (updates_message_status row.id status_sent)) (λ v.
          Upholds->>= (correct_sender W (to_non_ad resp.sender) (sent_row resp.timestamp row))
            (preview_sent W jid) (Upholds-correct_sender _ _) (Upholds-preview_sent jid)))

  Upholds-concluded :
      (r : Result (Unit {0})) (what : String) (row : Message) (jid : Jid) (resp : SendResponse W)
      → Upholds (concluded W r what row jid resp)
  unfolding perform
  Upholds-concluded (err e) what row jid resp =
      Upholds->>= _ _ (Upholds-quiet_call (updates_message_status row.id status_failed)) (λ u.
        Upholds->>= (emit (message_updated (with_status status_failed row))) _ (Upholds-emit _)
          (λ v. Upholds-raise (failure what)))
  Upholds-concluded (ok t) what row jid resp =
      Upholds->>= (finish_send W row jid resp) _ (Upholds-finish_send row jid resp) (λ row'.
        Upholds->>= (emit (message_updated row')) _ (Upholds-emit _) (λ u.
          Upholds->>= (publish_chat row'.chat_jid) _ (Upholds-publish_chat _)
            (λ v. Upholds-pure row')))

  Upholds-deliver :
      (what : String) (row : Message) (jid : Jid) (payload : WaMessage) (resp : SendResponse W)
      → Upholds (deliver W what row jid payload resp)
  unfolding deliver
  Upholds-deliver what row jid payload resp =
      Upholds-then (tell what (sends (to_string jid) row.id payload))
        (λ r. concluded W r what row jid resp) (Upholds-tell _ _)
        (λ r. Upholds-concluded r what row jid resp)

  pub Upholds-send_new :
      (what : String) (row : Message) (jid : Jid) (payload : WaMessage) (resp : SendResponse W)
      → Upholds (send_new W what row jid payload resp)
  unfolding send_new perform
  Upholds-send_new what row jid payload resp =
      Upholds->>= _ _ (Upholds-call (inserts_message row)) (λ u.
        Upholds->>= (emit (message_received row)) (λ v. deliver W what row jid payload resp)
          (Upholds-emit _) (λ v. Upholds-deliver what row jid payload resp))

  Upholds-resend :
      (what : String) (row : Message) (jid : Jid) (payload : WaMessage) (resp : SendResponse W)
      → Upholds (resend W what row jid payload resp)
  unfolding resend perform
  Upholds-resend what row jid payload resp =
      Upholds->>= _ _ (Upholds-call (updates_message_status row.id status_pending)) (λ u.
        Upholds->>= (emit (message_updated (with_status status_pending row)))
          (λ v. deliver W what (with_status status_pending row) jid payload resp) (Upholds-emit _)
          (λ v. Upholds-deliver what _ jid payload resp))

  Upholds-text_payload : (jid : Jid) (body id : String) → Upholds (text_payload W jid body id)
  unfolding build_reply
  Upholds-text_payload jid body id = Upholds-value (id == "") (pure _) _ (Upholds-pure _) (
      Upholds->>= (build_reply W jid body id) (λ reply. pure (some reply.0, reply.1))
        (Upholds->>= (reply_context W jid id) _ (Upholds-reply_context jid id)
          (λ r. Upholds-pure _))
        (λ r. Upholds-pure _))

  -- `if not s.has_client { return nil, errors.New("session not started") }`
  pub Upholds-with_client :
      (m : Exec Session Message)
      → Upholds m
      → Upholds (λ s. if not s.has_client then (err (failure "session not started"), s) else m s)
  Upholds-with_client m hm =
      Upholds-test (λ s. not s.has_client) (raise (failure "session not started")) m
        (Upholds-raise _) hm

  Upholds-send_text_to :
      (o : Option Jid) (body quoted_id id : String) (now : ℤ) (resp : SendResponse W)
      → Upholds (send_text_to W o body quoted_id id now resp)
  Upholds-send_text_to none body quoted_id id now resp = Upholds-raise _
  Upholds-send_text_to (some jid) body quoted_id id now resp =
      Upholds->>= (text_payload W jid body quoted_id) _ (Upholds-text_payload jid body quoted_id)
        (λ out. Upholds-send_new "send message" _ jid out.1 resp)

  pub Upholds-send_text :
      (chat_jid body quoted_id id : String) (now : ℤ) (resp : SendResponse W)
      → Upholds (send_text W chat_jid body quoted_id id now resp)
  unfolding send_text
  Upholds-send_text chat_jid body quoted_id id now resp =
      Upholds-with_client _ (Upholds-send_text_to (parse_jid chat_jid) body quoted_id id now resp)

  Upholds-retry_text_to :
      (o : Option Jid) (row : Message) (resp : SendResponse W)
      → Upholds (retry_text_to W o row resp)
  Upholds-retry_text_to none row resp = Upholds-raise _
  Upholds-retry_text_to (some jid) row resp = Upholds-resend "send message" row jid _ resp

  pub Upholds-retry_text : (row : Message) (resp : SendResponse W) → Upholds (retry_text W row resp)
  unfolding retry_text
  Upholds-retry_text row resp =
      Upholds-test (λ s. not row.outgoing || row.body == "")
        (raise (failure "message is not retryable")) _ (Upholds-raise _)
        (Upholds-with_client _ (Upholds-retry_text_to (parse_jid row.chat_jid) row resp))

  Upholds-resend_decoded :
      (o : Option WaMessage) (row : Message) (jid : Jid) (resp : SendResponse W)
      → Upholds (resend_decoded W o row jid resp)
  Upholds-resend_decoded none row jid resp = Upholds-raise _
  Upholds-resend_decoded (some p) row jid resp = Upholds-resend "send message" row jid p resp

  Upholds-resend_raw :
      (o : Option (List ℕ × String)) (row : Message) (jid : Jid) (resp : SendResponse W)
      → Upholds (resend_raw W o row jid resp)
  Upholds-resend_raw none row jid resp = Upholds-raise _
  Upholds-resend_raw (some ([], path)) row jid resp = Upholds-raise _
  Upholds-resend_raw (some (b ∷ bs, path)) row jid resp =
      Upholds-resend_decoded (unmarshal (b ∷ bs)) row jid resp

  Upholds-retry_media_to :
      (o : Option Jid) (row : Message) (resp : SendResponse W)
      → Upholds (retry_media_to W o row resp)
  Upholds-retry_media_to none row resp = Upholds-raise _
  Upholds-retry_media_to (some jid) row resp =
      Upholds->>= (attempt (on_store (media_payload row.id))) _
        (Upholds-attempt _ (Upholds-media_payload row.id))
        (λ raw. Upholds-resend_raw raw row jid resp)

  pub Upholds-retry_media :
      (row : Message) (resp : SendResponse W) → Upholds (retry_media W row resp)
  unfolding retry_media
  Upholds-retry_media row resp =
      Upholds-test (λ s. not row.outgoing || not (has_media W row.media))
        (raise (failure "message is not retryable")) _ (Upholds-raise _)
        (Upholds-with_client _ (Upholds-retry_media_to (parse_jid row.chat_jid) row resp))
