-- ===== src/Wa/Send/Files.antt =====
-- apps/daemon/wa/send_media.go, SendMedia and readUpload. What the file system, the MIME tables and
-- the image decoders answer are arguments.
use zchat.Prelude.{
  ℕ, ◌*◌, String, Bool, true, false, not, List, [], ◌∷◌, Option, none, some, ◌==◌, length,
  if◌then◌else◌,
}
use zchat.Prelude.Int.{ℤ, pos, ltb_ℤ}
use zchat.Prelude.Exec.{Exec, Result, ok, err, pure, raise, failure, ◌>>=◌}
use zchat.Store.Types.{Media, Message, Quoted}
use zchat.Wa.Session.{Session}
use zchat.Wa.Content.{type_image, WaMessage, ContextInfo, no_context, media_preview}
use zchat.Wa.Content.Upload.{media_kind, UploadResponse, upload_payload}
use zchat.Wa.Whatsmeow.{Whatsmeow}
use zchat.Wa.Reply.{reply_context}
use zchat.Wa.Send.{SendResponse, pending_row, send_new}

-- maxUploadSize
abbrev pub max_upload_size : ℤ
max_upload_size = pos (100 * 1048576)

-- What os.Stat and os.ReadFile answer.
pub record FileInfo : Type 0 where
  pub is_dir : Bool
  pub size : ℤ

abbrev pub non_empty : Option (List ℕ) → Result (List ℕ)
non_empty none = err (failure "read")
non_empty (some []) = err (failure "is empty")
non_empty (some (b ∷ bs)) = ok (b ∷ bs)

-- readUpload
unfoldable pub read_upload : Option FileInfo → Option (List ℕ) → Result (List ℕ)
read_upload none content = err (failure "stat")
read_upload (some info) content =
    if info.is_dir
    then err (failure "is a directory")
    else if ltb_ℤ max_upload_size info.size
    then err (failure "is larger than 100 MB")
    else non_empty content

-- The file that is sent: its name, what the file system answers, its MIME type by detectMime, the
-- size of an image that can be decoded, and the path of the copy that is kept, if one is.
pub record Picked : Type 0 where
  pub filename : String
  pub info : Option FileInfo
  pub content : Option (List ℕ)
  pub mime : String
  pub dimensions : Option (ℤ × ℤ)
  pub copied_to : Option String

abbrev pub with_dimensions : Bool → Option (ℤ × ℤ) → Media → Media
with_dimensions true (some (w, h)) md = record md { width = w; height = h }
with_dimensions _ _ md = md

abbrev pub with_path : Option String → Media → Media
with_path none md = md
with_path (some path) md = record md { path = path }

-- The attachment's row, before its payload and its path are known.
abbrev pub picked_media : Picked → List ℕ → String → Media
picked_media f bytes caption =
    with_dimensions (media_kind f.mime == type_image) f.dimensions (record {
      message_id = "";
      path = "";
      mime = f.mime;
      size = pos (length bytes);
      filename = f.filename;
      caption = caption;
      thumbnail = [];
      width = pos 0;
      height = pos 0;
      duration = pos 0;
      payload = [];
    })

abbrev pub caption_or_preview : String → String → Media → String
caption_or_preview caption kind md = if caption == "" then media_preview kind (some md) else caption

module _ (W : Whatsmeow) where
  open W use {Jid, parse_jid, marshal}

  abbrev pub media_context : Jid → String → Exec Session (Option Quoted × ContextInfo)
  media_context jid quoted_id =
      if quoted_id == ""
      then pure (none, no_context)
      else do reply ← reply_context W jid quoted_id; pure (some reply.0, reply.1)

  abbrev pub send_encoded :
      Jid
      → Picked
      → Media
      → Option Quoted
      → WaMessage
      → Option (List ℕ)
      → String
      → ℤ
      → SendResponse W
      → Exec Session Message
  send_encoded jid f md quoted payload none id now resp = raise (failure "encode media payload")
  send_encoded jid f md quoted payload (some raw) id now resp =
      send_new W "send media"
        (pending_row W id now jid (caption_or_preview md.caption (media_kind f.mime) md)
          (media_kind f.mime) false (some (with_path f.copied_to (record md { payload = raw })))
          quoted)
        jid payload resp

  abbrev pub send_uploaded :
      Jid
      → Picked
      → Media
      → Option Quoted × ContextInfo
      → Option UploadResponse
      → String
      → ℤ
      → SendResponse W
      → Exec Session Message
  send_uploaded jid f md (quoted, ctx) none id now resp = raise (failure "upload")
  send_uploaded jid f md (quoted, ctx) (some up) id now resp =
      let payload = upload_payload (media_kind f.mime) md up ctx in
      send_encoded jid f md quoted payload (marshal payload) id now resp

  abbrev pub send_read :
      Jid
      → Picked
      → Result (List ℕ)
      → String
      → String
      → Option UploadResponse
      → String
      → ℤ
      → SendResponse W
      → Exec Session Message
  send_read jid f (err e) caption quoted_id up id now resp = raise e
  send_read jid f (ok bytes) caption quoted_id up id now resp = do
    reply ← media_context jid quoted_id
    send_uploaded jid f (picked_media f bytes caption) reply up id now resp

  abbrev pub send_media_to :
      Option Jid
      → Picked
      → String
      → String
      → Option UploadResponse
      → String
      → ℤ
      → SendResponse W
      → Exec Session Message
  send_media_to none f caption quoted_id up id now resp = raise (failure "parse jid")
  send_media_to (some jid) f caption quoted_id up id now resp =
      send_read jid f (read_upload f.info f.content) caption quoted_id up id now resp

  -- SendMedia; `up` is the answer to the upload.
  unfoldable pub send_media :
      String
      → Picked
      → String
      → String
      → Option UploadResponse
      → String
      → ℤ
      → SendResponse W
      → Exec Session Message
  send_media chat_jid f caption quoted_id up id now resp s =
      if not s.has_client
      then (err (failure "session not started"), s)
      else send_media_to (parse_jid chat_jid) f caption quoted_id up id now resp s
