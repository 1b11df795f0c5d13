-- ===== src/Wa/Send/Fitting.antt =====
-- apps/daemon/wa: what the sending operations record and send: which row goes to which JID with which
-- payload.
use zchat.Prelude.{ℕ, String, ◌≡◌, true, false, List, Option, none, some, ◌==◌, length}
use zchat.Prelude.Int.{ℤ, pos}
use zchat.Prelude.Exec.{ok}
use zchat.Store.Types.{Media, Message, Quoted, status_pending}
use zchat.Store.Db.{Conn}
use zchat.Store.MessageQueries.{get_message, media_payload}
use zchat.Wa.Content.{
  type_text, WaMessage, wa, null, no_text, extended, Attached, no_file, attached, ContextInfo,
  no_context, context, ContextFields,
}
use zchat.Wa.Content.Upload.{UploadResponse, media_kind, upload_payload}
use zchat.Wa.Whatsmeow.{Whatsmeow}
use zchat.Wa.Send.Outcome.{restated}
use zchat.Wa.Send.Files.{Picked, picked_media}

-- A quote, with the context that quotes the same message.
abbrev pub Quotes : Quoted × ContextInfo → Type 0
Quotes (q, ctx) =
    (fields : ContextFields) × (m : WaMessage) × (ctx ≡ context fields m)
    × (fields.stanza_id ≡ q.id)

-- The quote and the context of a message: none where no id is given, and else a quote.
pub data Replies (quoted_id : String) (quoted : Option Quoted) (ctx : ContextInfo) : Type 0 where
  fresh : (quoted_id == "") ≡ true → quoted ≡ none → ctx ≡ no_context → Replies quoted_id quoted ctx
  quoting :
      (q : Quoted)
      → (quoted_id == "") ≡ false
      → quoted ≡ some q
      → Quotes (q, ctx)
      → Replies quoted_id quoted ctx

-- The payload of a text: the conversation, or the extended text of a reply.
abbrev pub text_message : String → ContextInfo → WaMessage
text_message body no_context = wa body no_text no_file no_file no_file no_file no_file
text_message body (context fields m) =
    wa "" (extended body (context fields m)) no_file no_file no_file no_file no_file

-- The mark of a forwarded attachment.
abbrev pub marked : Attached → Attached
marked no_file = no_file
marked (attached info ctx) = attached info (
    context (record { stanza_id = ""; participant = ""; is_forwarded = true; forwarding_score = 1 })
      null)

abbrev pub or_file : Attached → Attached → Attached
or_file (attached info ctx) other = attached info ctx
or_file no_file other = other

-- The attachment of a message.
abbrev pub file_of : WaMessage → Attached
file_of null = no_file
file_of (wa t e v a d s x) = or_file v (or_file a (or_file d (or_file s x)))

-- What a forwarded message says: the text, marked as forwarded, or the stored attachment, marked.
pub data Forwards (unmarshal : List ℕ → Option WaMessage) (source : Message) (payload : WaMessage)
    : Type 0 where
  text :
      source.media ≡ none
      → payload
        ≡ wa ""
            (extended source.body (
              context
                (record {
                  stanza_id = "";
                  participant = "";
                  is_forwarded = true;
                  forwarding_score = 1;
                })
                null))
            no_file
            no_file
            no_file
            no_file
            no_file
      → Forwards unmarshal source payload
  file :
      (md : Media) (c : Conn) (raw : List ℕ × String) (original : WaMessage)
      → source.media ≡ some md
      → (media_payload source.id c).0 ≡ ok raw
      → unmarshal raw.0 ≡ some original
      → file_of payload ≡ marked (file_of original)
      → Forwards unmarshal source payload

module _ (W : Whatsmeow) where
  open W use {Jid, parse_jid, to_string, to_non_ad, marshal, unmarshal}

  -- A new row, under the generated id, in the chat that it is sent to.
  pub record IsNew (chat_jid id : String) (now : ℤ) (row : Message) (jid : Jid) : Type 0 where
    pub parsed : parse_jid chat_jid ≡ some jid
    pub row_id : row.id ≡ id
    pub row_chat : row.chat_jid ≡ to_string (to_non_ad jid)
    pub row_time : row.timestamp ≡ now
    pub row_own : row.outgoing ≡ true

  -- SendText: the text is recorded and sent, with the quote that is recorded.
  pub record FitsText (chat_jid body quoted_id id : String) (now : ℤ) (row : Message) (jid : Jid)
      (payload : WaMessage) : Type 0 where
    pub new : IsNew chat_jid id now row jid
    pub row_body : row.body ≡ body
    pub row_type : row.type ≡ type_text
    pub row_media : row.media ≡ none
    pub said :
        (ctx : ContextInfo) × Replies quoted_id row.quoted ctx × (payload ≡ text_message body ctx)

  -- RetryText: the row that is given, as pending, and its text.
  pub record FitsRetry (given row : Message) (jid : Jid) (payload : WaMessage) : Type 0 where
    pub parsed : parse_jid given.chat_jid ≡ some jid
    pub row_is : row ≡ restated status_pending given
    pub said : payload ≡ wa given.body no_text no_file no_file no_file no_file no_file

  -- RetryMedia: the row that is given, as pending, and the payload that is stored for it.
  pub record FitsStored (given : Message) (c : Conn) (row : Message) (jid : Jid)
      (payload : WaMessage) : Type 0 where
    pub parsed : parse_jid given.chat_jid ≡ some jid
    pub row_is : row ≡ restated status_pending given
    pub raw : List ℕ × String
    pub stored : (media_payload given.id c).0 ≡ ok raw
    pub said : unmarshal raw.0 ≡ some payload

  -- SendMedia: the file that was read is recorded, with its kind, name, size and caption, and what is
  -- sent is its upload, which is recorded too.
  pub record FitsFile (chat_jid : String) (f : Picked) (caption quoted_id : String)
      (up : Option UploadResponse) (id : String) (now : ℤ) (row : Message) (jid : Jid)
      (payload : WaMessage) : Type 0 where
    pub new : IsNew chat_jid id now row jid
    pub row_type : row.type ≡ media_kind f.mime
    pub row_body : (caption == "") ≡ false → row.body ≡ caption
    pub bytes : List ℕ
    pub content : f.content ≡ some bytes
    pub md : Media
    pub row_media : row.media ≡ some md
    pub media_mime : md.mime ≡ f.mime
    pub media_filename : md.filename ≡ f.filename
    pub media_size : md.size ≡ pos (length bytes)
    pub media_caption : md.caption ≡ caption
    pub kept : marshal payload ≡ some md.payload
    pub said :
        (ctx : ContextInfo) × (answer : UploadResponse) × Replies quoted_id row.quoted ctx
        × (up ≡ some answer)
        × (payload ≡ upload_payload (media_kind f.mime) (picked_media f bytes caption) answer ctx)

  -- ForwardMessage: the stored message is recorded anew, as forwarded, and sent.
  pub record FitsForward (message_id chat_jid id : String) (now : ℤ) (c : Conn) (row : Message)
      (jid : Jid) (payload : WaMessage) : Type 0 where
    pub new : IsNew chat_jid id now row jid
    pub source : Message
    pub stored : (get_message message_id c).0 ≡ ok source
    pub row_body : row.body ≡ source.body
    pub row_type : row.type ≡ source.type
    pub row_media : row.media ≡ source.media
    pub row_forwarded : row.forwarded ≡ true
    pub row_quoted : row.quoted ≡ none
    pub said : Forwards unmarshal source payload
