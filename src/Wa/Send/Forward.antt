-- ===== src/Wa/Send/Forward.antt =====
-- apps/daemon/wa/actions.go, ForwardMessage and ReactMessage.
use zchat.Prelude.{ℕ, String, true, not, List, [], ◌∷◌, Option, none, some, if◌then◌else◌}
use zchat.Prelude.Int.{ℤ}
use zchat.Prelude.Exec.{Exec, err, pure, raise, failure, ◌>>=◌, ◌>>◌}
use zchat.Store.Types.{Media, Message}
use zchat.Store.Messages.{set_message_reaction}
use zchat.Store.MessageQueries.{get_message, media_payload}
use zchat.Wa.Session.{Session, message_updated, reacts, on_store, emit, tell}
use zchat.Wa.Content.{WaMessage, wa, null, extended, no_file, attached, ContextInfo, context}
use zchat.Wa.Whatsmeow.{Whatsmeow}
use zchat.Wa.Send.{SendResponse, pending_row, send_new}

-- The context of a forwarded message.
abbrev pub forwarded_context : ContextInfo
forwarded_context =
    context (record { stanza_id = ""; participant = ""; is_forwarded = true; forwarding_score = 1 })
      null

-- markForwarded
unfoldable pub mark_forwarded : WaMessage → WaMessage
mark_forwarded null = null
mark_forwarded (wa t e (attached m c) v a d s) = wa t e (attached m forwarded_context) v a d s
mark_forwarded (wa t e no_file (attached m c) a d s) =
    wa t e no_file (attached m forwarded_context) a d s
mark_forwarded (wa t e no_file no_file (attached m c) d s) =
    wa t e no_file no_file (attached m forwarded_context) d s
mark_forwarded (wa t e no_file no_file no_file (attached m c) s) =
    wa t e no_file no_file no_file (attached m forwarded_context) s
mark_forwarded (wa t e no_file no_file no_file no_file (attached m c)) =
    wa t e no_file no_file no_file no_file (attached m forwarded_context)
mark_forwarded (wa t e no_file no_file no_file no_file no_file) =
    wa t e no_file no_file no_file no_file no_file

module _ (W : Whatsmeow) where
  open W use {Jid, parse_jid, to_string, is_empty, unmarshal}

  abbrev pub forward_decoded : Option WaMessage → Exec Session WaMessage
  forward_decoded none = raise (failure "decode stored media payload")
  forward_decoded (some msg) = pure (mark_forwarded msg)

  abbrev pub forward_raw : List ℕ × String → Exec Session WaMessage
  forward_raw ([], path) = raise (failure "original media is no longer available")
  forward_raw (b ∷ bs, path) = forward_decoded (unmarshal (b ∷ bs))

  abbrev pub forward_content : Option Media → Message → Exec Session WaMessage
  forward_content none source =
      pure (wa "" (extended source.body forwarded_context) no_file no_file no_file no_file no_file)
  forward_content (some md) source = on_store (media_payload source.id) >>= forward_raw

  -- forwardPayload
  unfoldable pub forward_payload : Message → Exec Session WaMessage
  forward_payload source = forward_content source.media source

  abbrev pub forward_to : Option Jid → Message → String → ℤ → SendResponse W → Exec Session Message
  forward_to none source id now resp = raise (failure "parse jid")
  forward_to (some jid) source id now resp = do
    payload ← forward_payload source
    send_new W "forward message"
        (pending_row W id now jid source.body source.type true source.media none) jid payload resp

  -- ForwardMessage
  unfoldable pub forward_message :
      String → String → String → ℤ → SendResponse W → Exec Session Message
  forward_message message_id to_chat id now resp s =
      if not s.has_client
      then (err (failure "session not started"), s)
      else (on_store (get_message message_id) >>= λ source.
            forward_to (parse_jid to_chat) source id now resp)
          s

  abbrev pub with_reaction : String → Message → Message
  with_reaction emoji m = record m { fields = record m.fields { reaction = emoji } }

  -- ReactMessage, where both JIDs are read.
  abbrev pub react_as : String → Jid → Jid → Message → String → Exec Session Message
  react_as message_id chat sender row emoji =
      if is_empty sender then raise (failure "invalid original sender") else do
        tell "react" (reacts (to_string chat) (to_string sender) row.id emoji)
        on_store (set_message_reaction message_id emoji)
        emit (message_updated (with_reaction emoji row))
        pure (with_reaction emoji row)

  abbrev pub react_from : String → Option Jid → Option Jid → Message → String → Exec Session Message
  react_from message_id none sender row emoji = raise (failure "parse jid")
  react_from message_id (some chat) none row emoji = raise (failure "invalid original sender")
  react_from message_id (some chat) (some sender) row emoji =
      react_as message_id chat sender row emoji

  abbrev pub react_found : String → Message → String → Exec Session Message
  react_found message_id row emoji s =
      if not s.has_client
      then (err (failure "session not started"), s)
      else react_from message_id (parse_jid row.chat_jid) (parse_jid row.sender) row emoji s

  -- ReactMessage
  unfoldable pub react_message : String → String → Exec Session Message
  react_message message_id emoji = do
    row ← on_store (get_message message_id)
    react_found message_id row emoji
