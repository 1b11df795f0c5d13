-- ===== src/Wa/Send/Operations.antt =====
-- apps/daemon/wa: what each sending operation announces and sends.
use zchat.Prelude.{String, ◌≡◌, refl, not, Option, none, some}
use zchat.Prelude.Int.{ℤ}
use zchat.Wa.Session.{Session, message_received}
use zchat.Wa.Whatsmeow.{Whatsmeow}
use zchat.Wa.Send.{SendResponse, text_payload, send_text_to, send_text}
use zchat.Wa.Send.Announced.{Sends, silent, Sends-if, Sends->>=, send_new-Sends}
use zchat.Wa.Send.Fitting.{FitsText}
use zchat.Wa.Send.Fitted.{Holds-ok, Says, text_payload-Says}
use zchat.Wa.Send.Steps.{text_payload-Quiet}
use zchat.Wa.Send.Uploads.{IsNew-pending_row}

module _ (W : Whatsmeow) where
  open W use {Jid, parse_jid, to_string, to_non_ad, unmarshal, marshal}

  send_text_to-Sends :
      (chat_jid body quoted_id id : String) (now : ℤ) (resp : SendResponse W) (s : Session)
      (o : Option Jid)
      → parse_jid chat_jid ≡ o
      → Sends W message_received resp
          (FitsText W chat_jid body quoted_id id now)
          s
          (send_text_to W o body quoted_id id now resp s)
  send_text_to-Sends chat_jid body quoted_id id now resp s none h = silent _ refl refl refl
  send_text_to-Sends chat_jid body quoted_id id now resp s (some jid) h =
      Sends->>= W message_received resp _ (text_payload W jid body quoted_id) _ s
        (text_payload-Quiet W jid body quoted_id s)
        (λ out e.
          send_new-Sends W resp _ "send message" _ jid out.1 _
            (record {
              new = IsNew-pending_row W id chat_jid now h;
              row_body = refl;
              row_type = refl;
              row_media = refl;
              said = Holds-ok (Says W body quoted_id) (text_payload-Says W jid body quoted_id s) e;
            })
            refl)

  -- Whatever the driver and the client refuse: SendText returns an error and announces and sends
  -- nothing; or it returns an error and announces one row as pending and then as failed; or it
  -- returns the row as the server has taken it, that the client has sent once, announced as pending
  -- and then as returned. The row carries the given id, the chat, the text and the time, and goes to
  -- the chat's JID with a payload of that text, which quotes what the row quotes.
  pub send_text-Sends :
      (chat_jid body quoted_id id : String) (now : ℤ) (resp : SendResponse W) (s : Session)
      → Sends W message_received resp
          (FitsText W chat_jid body quoted_id id now)
          s
          (send_text W chat_jid body quoted_id id now resp s)
  unfolding send_text
  send_text-Sends chat_jid body quoted_id id now resp s =
      Sends-if W message_received resp _ (not s.has_client) _ s _
        (send_text_to-Sends chat_jid body quoted_id id now resp s (parse_jid chat_jid) refl)
