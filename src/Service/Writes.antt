-- ===== src/Service/Writes.antt =====
-- apps/daemon/service/service.go: the handlers that send, change and delete.
use zchat.Prelude.{String, Bool, true, false, not, ◌&&◌, ◌∷◌, Option, none, ◌==◌, if◌then◌else◌}
use zchat.Prelude.Int.{ℤ}
use zchat.Prelude.Text.{trim_space}
use zchat.Prelude.Exec.{Exec, Error, not_found, Result, ok, err, failure}
use zchat.Store.Types.{Chat, Message}
use zchat.Store.MessageQueries.{get_message}
use zchat.Wa.Session.{Session, message_updated, on_store}
use zchat.Wa.Content.Upload.{UploadResponse}
use zchat.Wa.Whatsmeow.{Whatsmeow}
use zchat.Wa.Actions.{session_delete, update_chat}
use zchat.Wa.Contacts.{start_chat}
use zchat.Wa.Download.{Outside, download_media}
use zchat.Wa.Send.{SendResponse, send_text, retry_text, retry_media, has_media}
use zchat.Wa.Send.Files.{Picked, send_media}
use zchat.Wa.Send.Forward.{forward_message, react_message}
use zchat.Service.Reply.{
  Code, internal, unavailable, invalid_argument, missing, replies, rejects, Handler, missing_or,
  answer, checked,
}
use zchat.Service.Reads.{is_some_jid}

abbrev pub is_given : String → Bool
is_given text = not (text == "")

-- `errors.Is(err, os.ErrNotExist)` of the error that os.Stat and os.ReadFile wrap.
abbrev pub media_code : Bool → Error → Code
media_code absent not_found = missing
media_code absent (failure what) = if absent then invalid_argument else unavailable

module _ (W : Whatsmeow) where
  open W use {parse_jid}

  abbrev pub reads_jid : String → Bool
  reads_jid text = is_some_jid W (parse_jid text)

  -- StartChat
  unfoldable pub serve_start_chat : String → Handler Chat
  serve_start_chat recipient =
      answer (λ e. invalid_argument) (λ chat. chat) (start_chat W recipient)

  -- SendMessage
  unfoldable pub serve_send_message :
      String → String → String → String → ℤ → SendResponse W → Handler Message
  serve_send_message chat_jid body quoted_id id now resp =
      checked (is_given chat_jid && is_given (trim_space body))
        (answer (missing_or unavailable) (λ m. m) (send_text W chat_jid body quoted_id id now resp))

  -- SendMedia; `absent` tells that the file does not exist.
  unfoldable pub serve_send_media :
      String
      → String
      → Bool
      → Picked
      → String
      → String
      → Option UploadResponse
      → String
      → ℤ
      → SendResponse W
      → Handler Message
  serve_send_media chat_jid file_path absent f caption quoted_id up id now resp =
      checked (is_given chat_jid && is_given file_path) (
        answer (media_code absent) (λ m. m)
          (send_media W chat_jid f caption quoted_id up id now resp))

  -- ForwardMessage
  unfoldable pub serve_forward_message :
      String → String → String → ℤ → SendResponse W → Handler Message
  serve_forward_message message_id to_chat id now resp =
      checked (is_given message_id && is_given to_chat) (
        answer (missing_or unavailable) (λ m. m) (forward_message W message_id to_chat id now resp))

  -- DeleteMessage
  unfoldable pub serve_delete_message : String → Bool → Handler (Unit {0})
  serve_delete_message message_id revoke =
      checked (is_given message_id)
        (answer (missing_or unavailable) (λ chat. tt) (session_delete reads_jid message_id revoke))

  abbrev pub some_field : Option Bool → Option Bool → Option ℤ → Bool
  some_field none none none = false
  some_field _ _ _ = true

  -- UpdateChat
  unfoldable pub serve_update_chat : String → Option Bool → Option Bool → Option ℤ → Handler Chat
  serve_update_chat jid p a m =
      checked (is_given jid && some_field p a m)
        (answer (missing_or internal) (λ chat. chat) (update_chat reads_jid jid p a m))

  -- ReactMessage
  unfoldable pub serve_react_message : String → String → Handler Message
  serve_react_message message_id emoji =
      checked (is_given message_id)
        (answer (λ e. internal) (λ m. m) (react_message W message_id emoji))

  -- A retry of a row that is found, behind the check of that row.
  abbrev pub retry_found :
      (Message → Bool) → (Message → Exec Session Message) → Result Message → Handler Message
  retry_found fit retry (err e) s = (rejects (missing_or internal e), s)
  retry_found fit retry (ok m) s =
      checked (fit m) (answer (λ e. unavailable) (λ out. out) (retry m)) s

  abbrev pub retry_with :
      (Message → Bool) → (Message → Exec Session Message) → String → Handler Message
  retry_with fit retry id s =
      let (r, s') = on_store (get_message id) s in retry_found fit retry r s'

  -- RetryMessage
  unfoldable pub serve_retry_message : String → SendResponse W → Handler Message
  serve_retry_message message_id resp =
      checked (is_given message_id)
        (retry_with (λ m. m.outgoing && is_given m.body) (λ m. retry_text W m resp) message_id)

  -- RetryMedia
  unfoldable pub serve_retry_media : String → SendResponse W → Handler Message
  serve_retry_media message_id resp =
      checked (is_given message_id)
        (retry_with (λ m. m.outgoing && has_media W m.media) (λ m. retry_media W m resp) message_id)

  abbrev pub publish_download : Result Message → Handler Message
  publish_download (err e) s = (rejects (missing_or unavailable e), s)
  publish_download (ok m) s = (replies m, record s { events = message_updated m ∷ s.events })

  -- DownloadMedia
  unfoldable pub serve_download_media : Outside → String → Handler Message
  serve_download_media world id =
      checked (is_given id)
        (λ s. let (r, s') = download_media W world id s in publish_download r s')
