-- ===== src/Wa/Content.antt =====
-- apps/daemon/wa/media.go and session.go: what is read out of a WhatsApp message.
pub mod Upload
use zchat.Prelude.{
  ℕ, ◌+◌, ◌-◌, ◌%◌, ◌^◌, String, Bool, false, List, [], ◌∷◌, Option, none, some, ◌==◌, ltb,
  if◌then◌else◌,
}
use zchat.Prelude.Int.{ℤ, pos, negsuc}
use zchat.Prelude.Text.{trim_space}
use zchat.Store.Types.{Media}

-- TypeText and the other message types.
abbrev pub type_text : String
type_text = "text"

abbrev pub type_image : String
type_image = "image"

abbrev pub type_video : String
type_video = "video"

abbrev pub type_audio : String
type_audio = "audio"

abbrev pub type_document : String
type_document = "document"

abbrev pub type_sticker : String
type_sticker = "sticker"

-- The fields of the five attachment messages of waE2E; those that a kind lacks stay at their zero
-- values, which the getters return for an unset field. A sticker's PngThumbnail is `thumbnail`.
pub record Info : Type 0 where
  pub mimetype : String
  pub file_length : ℕ
  pub caption : String
  pub thumbnail : List ℕ
  pub width : ℕ
  pub height : ℕ
  pub seconds : ℕ
  pub file_name : String
  pub url : String
  pub direct_path : String
  pub media_key : List ℕ
  pub file_enc_sha256 : List ℕ
  pub file_sha256 : List ℕ

-- The fields of waE2E.ContextInfo that need no message.
pub record ContextFields : Type 0 where
  pub stanza_id : String
  pub participant : String
  pub is_forwarded : Bool
  pub forwarding_score : ℕ

-- waE2E.Message, as far as the program reads or writes it: the conversation, the extended text, and
-- an image, a video, an audio, a document and a sticker.
mutual
  pub data WaMessage : Type 0 where
    wa : String → Extended → Attached → Attached → Attached → Attached → Attached → WaMessage
    null : WaMessage

  pub data Extended : Type 0 where
    no_text : Extended
    extended : String → ContextInfo → Extended

  pub data Attached : Type 0 where
    no_file : Attached
    attached : Info → ContextInfo → Attached

  -- The quoted message stands last.
  pub data ContextInfo : Type 0 where
    no_context : ContextInfo
    context : ContextFields → WaMessage → ContextInfo

-- `int64(x)` of a uint64, and `int32(x)` of a uint32.
abbrev pub signed : ℕ → ℕ → ℤ
signed half n =
    let m = n % (half + half) in if ltb m half then pos m else negsuc (half + half - 1 - m)

abbrev pub int64 : ℕ → ℤ
int64 = signed (2 ^ 63)

abbrev pub int32 : ℕ → ℤ
int32 = signed (2 ^ 31)

abbrev pub image_media : Info → Media
image_media m = record {
  message_id = "";
  path = "";
  mime = m.mimetype;
  size = int64 m.file_length;
  filename = "";
  caption = m.caption;
  thumbnail = m.thumbnail;
  width = int32 m.width;
  height = int32 m.height;
  duration = pos 0;
  payload = [];
}

abbrev pub video_media : Info → Media
video_media m = record (image_media m) { duration = int32 m.seconds }

abbrev pub audio_media : Info → Media
audio_media m = record (image_media m) {
  caption = "";
  thumbnail = [];
  width = pos 0;
  height = pos 0;
  duration = int32 m.seconds;
}

abbrev pub document_media : Info → Media
document_media m = record (image_media m) { filename = m.file_name; width = pos 0; height = pos 0 }

abbrev pub sticker_media : Info → Media
sticker_media m = record (image_media m) { caption = "" }

-- The `switch` of extractMedia.
unfoldable pub attachment : WaMessage → Option (String × Media)
attachment null = none
attachment (wa t e (attached m c) v a d s) = some (type_image, image_media m)
attachment (wa t e no_file (attached m c) a d s) = some (type_video, video_media m)
attachment (wa t e no_file no_file (attached m c) d s) = some (type_audio, audio_media m)
attachment (wa t e no_file no_file no_file (attached m c) s) =
    some (type_document, document_media m)
attachment (wa t e no_file no_file no_file no_file (attached m c)) =
    some (type_sticker, sticker_media m)
attachment (wa t e no_file no_file no_file no_file no_file) = none

abbrev pub with_payload : Option (String × Media) → Option (List ℕ) → Option (String × Media)
with_payload none raw = none
with_payload (some (kind, md)) none = none
with_payload (some (kind, md)) (some raw) = some (kind, record md { payload = raw })

-- extractMedia, with proto.Marshal as `marshal`; none stands for ("", nil).
unfoldable pub extract_media : (WaMessage → Option (List ℕ)) → WaMessage → Option (String × Media)
unfolding attachment
extract_media marshal msg = with_payload (attachment msg) (marshal msg)

-- GetText of the extended text message.
abbrev pub extended_text : Extended → String
extended_text no_text = ""
extended_text (extended t c) = t

-- extractText
unfoldable pub extract_text : WaMessage → String
unfolding trim_space
extract_text null = ""
extract_text (wa t e i v a d s) = if t == "" then trim_space (extended_text e) else t

-- messageContext
unfoldable pub message_context : WaMessage → ContextInfo
message_context null = no_context
message_context (wa t (extended x c) i v a d s) = c
message_context (wa t no_text (attached m c) v a d s) = c
message_context (wa t no_text no_file (attached m c) a d s) = c
message_context (wa t no_text no_file no_file (attached m c) d s) = c
message_context (wa t no_text no_file no_file no_file (attached m c) s) = c
message_context (wa t no_text no_file no_file no_file no_file (attached m c)) = c
message_context (wa t no_text no_file no_file no_file no_file no_file) = no_context

-- The text for a kind of attachment whose caption is empty.
abbrev pub kind_preview : String → String → String
kind_preview kind filename =
    if kind == type_image
    then "Photo"
    else if kind == type_video
    then "Video"
    else if kind == type_audio
    then "Audio"
    else if kind == type_sticker
    then "Sticker"
    else if kind == type_document
    then if filename == "" then "Document" else filename
    else ""

-- mediaPreview
unfoldable pub media_preview : String → Option Media → String
media_preview kind none = kind_preview kind ""
media_preview kind (some md) =
    if md.caption == "" then kind_preview kind md.filename else md.caption
