-- ===== src/Wa/Send/Steps.antt =====
-- apps/daemon/wa: what the sending operations do before a row is stored announces and sends nothing.
use zchat.Prelude.{ℕ, String, refl, List, [], ◌∷◌, Option, none, some, ◌==◌}
use zchat.Prelude.Exec.{failure, pure, raise}
use zchat.Store.Types.{Media, Message}
use zchat.Store.MessageQueries.{get_message, media_payload}
use zchat.Wa.Session.{Session, on_store, attempt}
use zchat.Wa.Quiet.{Quiet, Quiet-choice, Quiet->>=, Quiet-on_store, Quiet-attempt}
use zchat.Wa.Content.{WaMessage, context}
use zchat.Wa.Whatsmeow.{Whatsmeow}
use zchat.Wa.Reply.{
  payload_of, quoted_payload, reply_to, reply_context, build_reply, decoded, or_conversation,
  snapshot, reply_fields,
}
use zchat.Wa.Send.{text_payload}
use zchat.Wa.Send.Files.{media_context}
use zchat.Wa.Send.Forward.{forward_decoded, forward_raw, forward_content}

module _ (W : Whatsmeow) where
  open W use {Jid, parse_jid, to_string, to_non_ad, unmarshal, marshal}

  payload_of-Quiet : (o : Option Media) (m : Message) (s : Session) → Quiet s (payload_of W o m s)
  payload_of-Quiet none m s = record { events = refl; sent = refl }
  payload_of-Quiet (some md) m s =
      Quiet->>= (attempt (on_store (media_payload m.id)))
        (λ raw. pure (or_conversation W (decoded W raw) m.body)) s
        (Quiet-attempt (media_payload m.id) s) (λ raw t. record { events = refl; sent = refl })

  reply_to-Quiet : (m : Message) (o : Option Jid) (s : Session) → Quiet s (reply_to W m o s)
  unfolding quoted_payload
  reply_to-Quiet m none s = record { events = refl; sent = refl }
  reply_to-Quiet m (some sender) s =
      Quiet->>= (quoted_payload W m)
        (λ payload. pure (snapshot m, context (reply_fields W m sender) payload)) s
        (payload_of-Quiet m.media m s) (λ p t. record { events = refl; sent = refl })

  reply_context-Quiet :
      (chat : Jid) (id : String) (s : Session) → Quiet s (reply_context W chat id s)
  unfolding reply_context
  reply_context-Quiet chat id s =
      Quiet->>= (on_store (get_message id)) _ s (Quiet-on_store (get_message id) s) (λ m t.
        Quiet-choice (m.chat_jid == to_string (to_non_ad chat)) (reply_to W m (parse_jid m.sender))
          (raise (failure "quoted message belongs to another chat")) t
          (reply_to-Quiet m (parse_jid m.sender) t) (record { events = refl; sent = refl }))

  pub text_payload-Quiet :
      (jid : Jid) (body id : String) (s : Session) → Quiet s (text_payload W jid body id s)
  unfolding build_reply
  text_payload-Quiet jid body id s =
      Quiet-choice (id == "") (pure _) _ s (record { events = refl; sent = refl })
        (Quiet->>= (build_reply W jid body id) (λ reply. pure (some reply.0, reply.1)) s
          (Quiet->>= (reply_context W jid id) _ s (reply_context-Quiet jid id s)
            (λ r t. record { events = refl; sent = refl }))
          (λ r t. record { events = refl; sent = refl }))

  pub media_context-Quiet :
      (jid : Jid) (id : String) (s : Session) → Quiet s (media_context W jid id s)
  media_context-Quiet jid id s =
      Quiet-choice (id == "") (pure _) _ s (record { events = refl; sent = refl })
        (Quiet->>= (reply_context W jid id) (λ reply. pure (some reply.0, reply.1)) s
          (reply_context-Quiet jid id s) (λ r t. record { events = refl; sent = refl }))

  pub forward_content-Quiet :
      (o : Option Media) (m : Message) (s : Session) → Quiet s (forward_content W o m s)
  forward_content-Quiet none m s = record { events = refl; sent = refl }
  forward_content-Quiet (some md) m s =
      Quiet->>= (on_store (media_payload m.id)) (forward_raw W) s
        (Quiet-on_store (media_payload m.id) s) raw
    where
      decoded_still : (o : Option WaMessage) (t : Session) → Quiet t (forward_decoded W o t)
      decoded_still none t = record { events = refl; sent = refl }
      decoded_still (some msg) t = record { events = refl; sent = refl }

      raw : (p : List ℕ × String) (t : Session) → Quiet t (forward_raw W p t)
      raw ([], path) t = record { events = refl; sent = refl }
      raw (b ∷ bs, path) t = decoded_still (unmarshal (b ∷ bs)) t
