-- ===== src/Wa/Content/Upload.antt =====
-- apps/daemon/wa/send_media.go: the kind of a file and the message that carries it.
use text.Mathlib.Text.{starts_with}
use native.Mathlib.Nat.{mod-eq_of_lt}
use zchat.Prelude.{
  ℕ, ◌-◌, ◌%◌, ◌^◌, ◌<◌, String, ◌≡◌, refl, ap, ◌∙◌, Bool, ◌||◌, List, [], Option, some, ◌==◌,
  if◌then◌else◌, Bool-cases, inl, inr, arith,
}
use zchat.Prelude.Int.{ℤ, pos, negsuc}
use zchat.Store.Types.{Media}
use zchat.Wa.Content.{
  type_image, type_video, type_audio, type_document, type_sticker, Info, WaMessage, wa, no_text,
  no_file, attached, ContextInfo, signed, int64, extract_media, message_context, attachment,
}

-- mediaKind
unfoldable pub media_kind : String → String
media_kind mime =
    if mime == "image/webp"
    then type_sticker
    else if starts_with mime "image/"
    then type_image
    else if starts_with mime "video/"
    then type_video
    else if starts_with mime "audio/"
    then type_audio
    else type_document

-- whatsmeow.MediaType
pub data MediaType : Type 0 where
  media_image media_video media_audio media_document : MediaType

-- uploadType
unfoldable pub upload_type : String → MediaType
upload_type kind =
    if kind == type_image || kind == type_sticker
    then media_image
    else if kind == type_video
    then media_video
    else if kind == type_audio
    then media_audio
    else media_document

-- The fields of whatsmeow.UploadResponse that are read.
pub record UploadResponse : Type 0 where
  pub url : String
  pub direct_path : String
  pub media_key : List ℕ
  pub file_enc_sha256 : List ℕ
  pub file_sha256 : List ℕ
  pub file_length : ℕ

-- `uint32(x)` of an int32.
abbrev pub uint32 : ℤ → ℕ
uint32 (pos n) = n % 2 ^ 32
uint32 (negsuc k) = 2 ^ 32 - 1 - k % 2 ^ 32

-- What all attachments carry.
abbrev pub uploaded : Media → UploadResponse → Info
uploaded md up = record {
  mimetype = md.mime;
  file_length = up.file_length;
  caption = "";
  thumbnail = [];
  width = 0;
  height = 0;
  seconds = 0;
  file_name = "";
  url = up.url;
  direct_path = up.direct_path;
  media_key = up.media_key;
  file_enc_sha256 = up.file_enc_sha256;
  file_sha256 = up.file_sha256;
}

abbrev pub sized : Media → Info → Info
sized md i = record i { width = uint32 md.width; height = uint32 md.height }

-- uploadPayload
unfoldable pub upload_payload : String → Media → UploadResponse → ContextInfo → WaMessage
upload_payload kind md up c =
    let i = uploaded md up in
    if kind == type_image
    then wa "" no_text (attached (record (sized md i) { caption = md.caption }) c) no_file no_file
        no_file no_file
    else if kind == type_sticker
    then wa "" no_text no_file no_file no_file no_file (attached (sized md i) c)
    else if kind == type_video
    then wa "" no_text no_file (attached (record i { caption = md.caption }) c) no_file no_file
        no_file
    else if kind == type_audio
    then wa "" no_text no_file no_file (attached i c) no_file no_file
    else wa "" no_text no_file no_file no_file
        (attached (record i { caption = md.caption; file_name = md.filename }) c) no_file

-- Which kinds carry a caption, a size of the picture, and a file name.
abbrev is_captioned : String → Bool
is_captioned kind = kind == type_image || kind == type_video || kind == type_document

abbrev is_picture : String → Bool
is_picture kind = kind == type_image || kind == type_sticker

-- What a recipient learns of an attachment.
abbrev pub carried : String → Media → ℕ → List ℕ → Media
carried kind md length raw = record {
  message_id = "";
  path = "";
  mime = md.mime;
  size = pos length;
  filename = if kind == type_document then md.filename else "";
  caption = if is_captioned kind then md.caption else "";
  thumbnail = [];
  width = if is_picture kind then md.width else pos 0;
  height = if is_picture kind then md.height else pos 0;
  duration = pos 0;
  payload = raw;
}

signed_small : (half n : ℕ) → n < half → signed half n ≡ pos n
signed_small half n h = grind (arith, mod-eq_of_lt)

-- The measures that survive the conversions.
abbrev Fits : Media → ℕ → ℕ → ℕ → Type 0
Fits md w h n =
    (md.width ≡ pos w) × (md.height ≡ pos h) × (w < 2 ^ 31) × (h < 2 ^ 31) × (n < 2 ^ 63)

round : (z : ℤ) (w : ℕ) → z ≡ pos w → w < 2 ^ 31 → signed (2 ^ 31) (uint32 z) ≡ z
round z w e l = rw e (ap (signed (2 ^ 31)) (omega arith) ∙ signed_small (2 ^ 31) w l)

module _ (marshal : WaMessage → Option (List ℕ)) (md : Media) (up : UploadResponse)
    (c : ContextInfo) (raw : List ℕ) {w h : ℕ} (fits : Fits md w h up.file_length) where
  -- proto.Marshal encodes the message.
  abbrev Encodes : String → Type 0
  Encodes kind = marshal (upload_payload kind md up c) ≡ some raw

  abbrev pub Arrives : String → Type 0
  Arrives kind =
      (extract_media marshal (upload_payload kind md up c)
        ≡ some (kind, carried kind md up.file_length raw))
      × (message_context (upload_payload kind md up c) ≡ c)

  size : int64 up.file_length ≡ pos up.file_length
  size = signed_small (2 ^ 63) up.file_length fits.4

  image-Arrives : Encodes type_image → Arrives type_image
  unfolding extract_media attachment message_context upload_payload
  image-Arrives e = (
    rw e
        (rw (round md.width w fits.0 fits.2) (rw (round md.height h fits.1 fits.3) (rw size refl))),
    refl,
  )

  sticker-Arrives : Encodes type_sticker → Arrives type_sticker
  unfolding extract_media attachment message_context upload_payload
  sticker-Arrives e = (
    rw e
        (rw (round md.width w fits.0 fits.2) (rw (round md.height h fits.1 fits.3) (rw size refl))),
    refl,
  )

  video-Arrives : Encodes type_video → Arrives type_video
  unfolding extract_media attachment message_context upload_payload
  video-Arrives e = (rw e (rw size refl), refl)

  audio-Arrives : Encodes type_audio → Arrives type_audio
  unfolding extract_media attachment message_context upload_payload
  audio-Arrives e = (rw e (rw size refl), refl)

  document-Arrives : Encodes type_document → Arrives type_document
  unfolding extract_media attachment message_context upload_payload
  document-Arrives e = (rw e (rw size refl), refl)

  arrival : (mime : String) → Encodes (media_kind mime) → Arrives (media_kind mime)
  unfolding media_kind
  arrival mime = elim (Bool-cases (mime == "image/webp")) [
    | inl e ↦ rw e sticker-Arrives
    | inr e ↦ rw e (elim (Bool-cases (starts_with mime "image/")) [
      | inl e1 ↦ rw e1 image-Arrives
      | inr e1 ↦ rw e1 (elim (Bool-cases (starts_with mime "video/")) [
        | inl e2 ↦ rw e2 video-Arrives
        | inr e2 ↦ rw e2 (elim (Bool-cases (starts_with mime "audio/")) [
          | inl e3 ↦ rw e3 audio-Arrives
          | inr e3 ↦ rw e3 document-Arrives
        ])
      ])
    ])
  ]

  -- Whatever file is sent, the recipient reads its kind, MIME type, size and reply context out of
  -- the message, with the caption, the picture's size and the file name where the kind carries
  -- them, provided that the numbers fit Go's int32 and int64.
  pub extract_media-upload_payload :
      (mime : String)
      → marshal (upload_payload (media_kind mime) md up c) ≡ some raw
      → Arrives (media_kind mime)
  extract_media-upload_payload mime e = arrival mime e
