-- ===== src/Wa/Send/Uploads.antt =====
-- apps/daemon/wa/send_media.go, SendMedia: what is announced, from the JID that is read on.
use zchat.Prelude.{
  ℕ, String, ◌≡◌, refl, sym, ap, ◌∙◌, Bool, true, false, if◌then◌else◌, List, [], ◌∷◌, Option, none,
  some, ◌==◌,
}
use zchat.Prelude.Int.{ℤ, ltb_ℤ}
use zchat.Prelude.Exec.{failure, Result, ok, err}
use zchat.Store.Types.{Media, Message, Quoted}
use zchat.Wa.Session.{Session, message_received}
use zchat.Wa.Content.{type_image, WaMessage, ContextInfo}
use zchat.Wa.Content.Upload.{UploadResponse, media_kind, upload_payload}
use zchat.Wa.Whatsmeow.{Whatsmeow}
use zchat.Wa.Send.{SendResponse, pending_row}
use zchat.Wa.Send.Announced.{Sends, silent, Sends->>=, send_new-Sends}
use zchat.Wa.Send.Fitting.{Replies, IsNew, FitsFile}
use zchat.Wa.Send.Fitted.{Holds-ok, media_context-Replies}
use zchat.Wa.Send.Files.{
  FileInfo, max_upload_size, non_empty, with_dimensions, with_path, Picked, media_context,
  send_encoded, send_uploaded, send_read, send_media_to, read_upload, picked_media,
}
use zchat.Wa.Send.Steps.{media_context-Quiet}

module _ (W : Whatsmeow) where
  open W use {Jid, parse_jid, to_string, to_non_ad, unmarshal, marshal}

  -- A pending row is new.
  pub IsNew-pending_row :
      {body type : String} {forwarded : Bool} {media : Option Media} {quoted : Option Quoted}
      {jid : Jid} (id chat_jid : String) (now : ℤ)
      → parse_jid chat_jid ≡ some jid
      → IsNew W chat_jid id now (pending_row W id now jid body type forwarded media quoted) jid
  IsNew-pending_row id chat_jid now h = record {
    parsed = h;
    row_id = refl;
    row_chat = refl;
    row_time = refl;
    row_own = refl;
  }

  -- What the size of an image and the path of the copy leave alone.
  abbrev IsSame : Media → Media → Type 0
  IsSame a b =
      (b.mime ≡ a.mime)
      × (b.filename ≡ a.filename)
      × (b.size ≡ a.size)
      × (b.caption ≡ a.caption)
      × (b.payload ≡ a.payload)

  sized : (b : Bool) (o : Option (ℤ × ℤ)) (md : Media) → IsSame md (with_dimensions b o md)
  sized true none md = (refl, refl, refl, refl, refl)
  sized true (some (w, h)) md = (refl, refl, refl, refl, refl)
  sized false o md = (refl, refl, refl, refl, refl)

  stored_at : (o : Option String) (md : Media) → IsSame md (with_path o md)
  stored_at none md = (refl, refl, refl, refl, refl)
  stored_at (some path) md = (refl, refl, refl, refl, refl)

  captioned :
      (text caption preview : String)
      → text ≡ caption
      → (caption == "") ≡ false
      → (if text == "" then preview else text) ≡ caption
  captioned text caption preview e h = rw (e, h) refl

  module _ (chat_jid : String) (f : Picked) (caption quoted_id : String)
      (up : Option UploadResponse) (id : String) (now : ℤ) (resp : SendResponse W) (jid : Jid)
      (bytes : List ℕ) (parsed : parse_jid chat_jid ≡ some jid)
      (content : f.content ≡ some bytes) where
    abbrev FileSends : Session → Result Message × Session → Type 0
    FileSends = Sends W message_received resp (FitsFile W chat_jid f caption quoted_id up id now)

    abbrev file_payload : UploadResponse → ContextInfo → WaMessage
    file_payload = upload_payload (media_kind f.mime) (picked_media f bytes caption)

    send_encoded-Sends :
        (quoted : Option Quoted) (ctx : ContextInfo) (answer : UploadResponse) (s : Session)
        (o : Option (List ℕ))
        → Replies quoted_id quoted ctx
        → up ≡ some answer
        → marshal (file_payload answer ctx) ≡ o
        → FileSends s (
            send_encoded W jid f
              (picked_media f bytes caption)
              quoted
              (file_payload answer ctx)
              o
              id
              now
              resp
              s)
    send_encoded-Sends quoted ctx answer s none q a h = silent _ refl refl refl
    send_encoded-Sends quoted ctx answer s (some raw) q a h =
        let md = picked_media f bytes caption in
        let (m, n, z, c, p) = sized (media_kind f.mime == type_image) f.dimensions _ in
        let (m', n', z', c', p') = stored_at f.copied_to (record md { payload = raw }) in
        send_new-Sends W resp _ "send media" _ jid _ s
          (record {
            new = IsNew-pending_row id chat_jid now parsed;
            row_type = refl;
            row_body = captioned md.caption caption _ c;
            bytes = bytes;
            content = content;
            md = with_path f.copied_to (record md { payload = raw });
            row_media = refl;
            media_mime = m' ∙ m;
            media_filename = n' ∙ n;
            media_size = z' ∙ z;
            media_caption = c' ∙ c;
            kept = h ∙ ap some (sym p');
            said = (ctx, answer, q, a, refl);
          })
          refl

    send_uploaded-Sends :
        (reply : Option Quoted × ContextInfo) (s : Session) (o : Option UploadResponse)
        → Replies quoted_id reply.0 reply.1
        → up ≡ o
        → FileSends s (send_uploaded W jid f (picked_media f bytes caption) reply o id now resp s)
    send_uploaded-Sends (quoted, ctx) s none q a = silent _ refl refl refl
    send_uploaded-Sends (quoted, ctx) s (some answer) q a =
        send_encoded-Sends quoted ctx answer s _ q a refl

    send_read-Sends :
        (s : Session)
        → FileSends s (send_read W jid f (ok bytes) caption quoted_id up id now resp s)
    send_read-Sends s =
        Sends->>= W message_received resp _ (media_context W jid quoted_id) _ s
          (media_context-Quiet W jid quoted_id s)
          (λ reply e.
            send_uploaded-Sends reply _ up
              (Holds-ok (λ (r : Option Quoted × ContextInfo). Replies quoted_id r.0 r.1)
                (media_context-Replies W jid quoted_id s) e)
              refl)

  -- A file that is read has the content that the file system answers.
  read_content :
      (info : Option FileInfo) (content : Option (List ℕ)) (bytes : List ℕ)
      → read_upload info content ≡ ok bytes
      → content ≡ some bytes
  unfolding read_upload
  read_content none content bytes h = absurd (cc h)
  read_content (some info) content bytes h =
      within_limits info.is_dir (ltb_ℤ max_upload_size info.size) content h
    where
      bytes_of : Result (List ℕ) → Option (List ℕ)
      bytes_of (ok bs) = some bs
      bytes_of (err e) = none

      within_limits :
          (a b : Bool) (content : Option (List ℕ))
          → (if a
              then err (failure "is a directory")
              else if b
              then err (failure "is larger than 100 MB")
              else non_empty content)
            ≡ ok bytes
          → content ≡ some bytes
      within_limits true b content h = absurd (cc h)
      within_limits false true content h = absurd (cc h)
      within_limits false false none h = absurd (cc h)
      within_limits false false (some []) h = absurd (cc h)
      within_limits false false (some (x ∷ xs)) h = ap bytes_of h

  -- SendMedia, from the JID on.
  pub send_media_to-Sends :
      (chat_jid : String) (f : Picked) (caption quoted_id : String) (up : Option UploadResponse)
      (id : String) (now : ℤ) (resp : SendResponse W) (s : Session) (o : Option Jid)
      → parse_jid chat_jid ≡ o
      → Sends W message_received resp
          (FitsFile W chat_jid f caption quoted_id up id now)
          s
          (send_media_to W o f caption quoted_id up id now resp s)
  send_media_to-Sends chat_jid f caption quoted_id up id now resp s none h = silent _ refl refl refl
  send_media_to-Sends chat_jid f caption quoted_id up id now resp s (some jid) h =
      read (read_upload f.info f.content) refl
    where
      read :
          (r : Result (List ℕ))
          → read_upload f.info f.content ≡ r
          → Sends W message_received resp
              (FitsFile W chat_jid f caption quoted_id up id now)
              s
              (send_read W jid f r caption quoted_id up id now resp s)
      read (err e) g = silent e refl refl refl
      read (ok bytes) g =
          send_read-Sends chat_jid f caption quoted_id up id now resp jid bytes h
            (read_content f.info f.content bytes g) s
