-- ===== src/Wa/Reply.antt =====
-- apps/daemon/wa/session.go: replies.
use zchat.Prelude.{ℕ, String, false, List, [], ◌∷◌, Option, none, some, ◌==◌, if◌then◌else◌}
use zchat.Prelude.Exec.{Exec, pure, raise, failure, ◌>>=◌}
use zchat.Store.Types.{Media, Message, Quoted}
use zchat.Store.MessageQueries.{get_message, media_payload}
use zchat.Wa.Session.{Session, on_store, attempt}
use zchat.Wa.Content.{
  WaMessage, wa, no_text, extended, no_file, ContextInfo, context, ContextFields,
}
use zchat.Wa.Whatsmeow.{Whatsmeow}

-- A message that is a conversation alone.
abbrev pub conversation : String → WaMessage
conversation body = wa body no_text no_file no_file no_file no_file no_file

-- The snapshot of a message that a reply keeps.
abbrev pub snapshot : Message → Quoted
snapshot m = record {
  id = m.id;
  sender = m.sender;
  sender_name = m.sender_name;
  body = m.body;
  type = m.type;
}

module _ (W : Whatsmeow) where
  open W use {Jid, parse_jid, to_string, to_non_ad, unmarshal}

  -- A stored payload that is there and can be read.
  abbrev pub decoded : Option (List ℕ × String) → Option WaMessage
  decoded none = none
  decoded (some ([], path)) = none
  decoded (some (b ∷ bs, path)) = unmarshal (b ∷ bs)

  abbrev pub or_conversation : Option WaMessage → String → WaMessage
  or_conversation none body = conversation body
  or_conversation (some msg) body = msg

  abbrev pub payload_of : Option Media → Message → Exec Session WaMessage
  payload_of none original = pure (conversation original.body)
  payload_of (some md) original = do
    raw ← attempt (on_store (media_payload original.id))
    pure (or_conversation (decoded raw) original.body)

  -- quotedPayload
  unfoldable pub quoted_payload : Message → Exec Session WaMessage
  quoted_payload original = payload_of original.media original

  abbrev pub reply_fields : Message → Jid → ContextFields
  reply_fields original sender = record {
    stanza_id = original.id;
    participant = to_string (to_non_ad sender);
    is_forwarded = false;
    forwarding_score = 0;
  }

  -- replyContext, where the quoted sender's JID is read.
  abbrev pub reply_to : Message → Option Jid → Exec Session (Quoted × ContextInfo)
  reply_to original none = raise (failure "parse quoted sender")
  reply_to original (some sender) = do
    payload ← quoted_payload original
    pure (snapshot original, context (reply_fields original sender) payload)

  -- replyContext
  unfoldable pub reply_context : Jid → String → Exec Session (Quoted × ContextInfo)
  unfolding quoted_payload
  reply_context chat quoted_id = do
    original ← on_store (get_message quoted_id)
    if original.chat_jid == to_string (to_non_ad chat)
        then reply_to original (parse_jid original.sender)
        else raise (failure "quoted message belongs to another chat")

  -- buildReply
  unfoldable pub build_reply : Jid → String → String → Exec Session (Quoted × WaMessage)
  unfolding reply_context
  build_reply chat body quoted_id = do
    reply ← reply_context chat quoted_id
    pure (reply.0, wa "" (extended body reply.1) no_file no_file no_file no_file no_file)
