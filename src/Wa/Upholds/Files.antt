-- ===== src/Wa/Upholds/Files.antt =====
-- apps/daemon/wa: SendMedia, ForwardMessage, ReactMessage and DownloadMedia.
use zchat.Prelude.{ℕ, String, not, List, [], ◌∷◌, Option, none, some, ◌==◌, length}
use zchat.Prelude.Int.{ℤ, pos}
use zchat.Prelude.Exec.{Result, ok, err, failure, pure, raise}
use zchat.Store.Types.{Media, Message, Quoted}
use zchat.Store.MessageQueries.{get_message, media_payload}
use zchat.Store.Calls.{perform, sets_message_reaction, sets_media_path}
use zchat.Wa.Session.{message_updated, reacts, on_store, emit, tell}
use zchat.Wa.Content.{WaMessage, ContextInfo}
use zchat.Wa.Content.Upload.{UploadResponse}
use zchat.Wa.Upholds.{
  Upholds, Upholds-pure, Upholds-raise, Upholds-value, Upholds-call, Upholds->>=, Upholds-emit,
  Upholds-tell,
}
use zchat.Wa.Upholds.Sending.{
  Upholds-get_message, Upholds-media_payload, Upholds-reply_context, Upholds-send_new,
  Upholds-with_client,
}
use zchat.Wa.Whatsmeow.{Whatsmeow}
use zchat.Wa.Reply.{reply_context}
use zchat.Wa.Send.{SendResponse}
use zchat.Wa.Send.Files.{
  Picked, media_context, send_encoded, send_uploaded, send_read, send_media_to, send_media,
  read_upload, picked_media,
}
use zchat.Wa.Send.Forward.{
  forward_decoded, forward_raw, forward_content, forward_payload, forward_to, forward_message,
  react_as, react_from, react_found, react_message, with_reaction,
}
use zchat.Wa.Download.{
  Outside, save, downloaded, decode_and_download, fetch, is_downloaded, download_found,
  download_media,
}

module _ (W : Whatsmeow) where
  open W use {Jid, parse_jid, to_string, is_empty, unmarshal}

  Upholds-media_context : (jid : Jid) (id : String) → Upholds (media_context W jid id)
  Upholds-media_context jid id = Upholds-value (id == "") (pure _) _ (Upholds-pure _) (
      Upholds->>= (reply_context W jid id) (λ reply. pure (some reply.0, reply.1))
        (Upholds-reply_context W jid id) (λ r. Upholds-pure _))

  Upholds-send_encoded :
      (o : Option (List ℕ)) (jid : Jid) (f : Picked) (md : Media) (quoted : Option Quoted)
      (payload : WaMessage) (id : String) (now : ℤ) (resp : SendResponse W)
      → Upholds (send_encoded W jid f md quoted payload o id now resp)
  Upholds-send_encoded none jid f md quoted payload id now resp = Upholds-raise _
  Upholds-send_encoded (some raw) jid f md quoted payload id now resp =
      Upholds-send_new W "send media" _ jid payload resp

  Upholds-send_uploaded :
      (o : Option UploadResponse) (jid : Jid) (f : Picked) (md : Media)
      (reply : Option Quoted × ContextInfo) (id : String) (now : ℤ) (resp : SendResponse W)
      → Upholds (send_uploaded W jid f md reply o id now resp)
  Upholds-send_uploaded none jid f md (quoted, ctx) id now resp = Upholds-raise _
  Upholds-send_uploaded (some up) jid f md (quoted, ctx) id now resp =
      Upholds-send_encoded _ jid f md quoted _ id now resp

  Upholds-send_read :
      (r : Result (List ℕ)) (jid : Jid) (f : Picked) (caption quoted_id : String)
      (up : Option UploadResponse) (id : String) (now : ℤ) (resp : SendResponse W)
      → Upholds (send_read W jid f r caption quoted_id up id now resp)
  Upholds-send_read (err e) jid f caption quoted_id up id now resp = Upholds-raise e
  Upholds-send_read (ok bytes) jid f caption quoted_id up id now resp =
      Upholds->>= (media_context W jid quoted_id)
        (λ reply. send_uploaded W jid f (picked_media f bytes caption) reply up id now resp)
        (Upholds-media_context jid quoted_id)
        (λ reply. Upholds-send_uploaded up jid f _ reply id now resp)

  Upholds-send_media_to :
      (o : Option Jid) (f : Picked) (caption quoted_id : String) (up : Option UploadResponse)
      (id : String) (now : ℤ) (resp : SendResponse W)
      → Upholds (send_media_to W o f caption quoted_id up id now resp)
  Upholds-send_media_to none f caption quoted_id up id now resp = Upholds-raise _
  Upholds-send_media_to (some jid) f caption quoted_id up id now resp =
      Upholds-send_read (read_upload f.info f.content) jid f caption quoted_id up id now resp

  pub Upholds-send_media :
      (chat_jid : String) (f : Picked) (caption quoted_id : String) (up : Option UploadResponse)
      (id : String) (now : ℤ) (resp : SendResponse W)
      → Upholds (send_media W chat_jid f caption quoted_id up id now resp)
  unfolding send_media
  Upholds-send_media chat_jid f caption quoted_id up id now resp =
      Upholds-with_client W _
        (Upholds-send_media_to (parse_jid chat_jid) f caption quoted_id up id now resp)

  Upholds-forward_decoded : (o : Option WaMessage) → Upholds (forward_decoded W o)
  Upholds-forward_decoded none = Upholds-raise _
  Upholds-forward_decoded (some msg) = Upholds-pure _

  Upholds-forward_raw : (p : List ℕ × String) → Upholds (forward_raw W p)
  Upholds-forward_raw ([], path) = Upholds-raise _
  Upholds-forward_raw (b ∷ bs, path) = Upholds-forward_decoded (unmarshal (b ∷ bs))

  Upholds-forward_content : (o : Option Media) (m : Message) → Upholds (forward_content W o m)
  Upholds-forward_content none m = Upholds-pure _
  Upholds-forward_content (some md) m =
      Upholds->>= (on_store (media_payload m.id)) (forward_raw W) (Upholds-media_payload m.id)
        Upholds-forward_raw

  Upholds-forward_to :
      (o : Option Jid) (source : Message) (id : String) (now : ℤ) (resp : SendResponse W)
      → Upholds (forward_to W o source id now resp)
  unfolding forward_payload
  Upholds-forward_to none source id now resp = Upholds-raise _
  Upholds-forward_to (some jid) source id now resp =
      Upholds->>= (forward_payload W source) _ (Upholds-forward_content source.media source)
        (λ payload. Upholds-send_new W "forward message" _ jid payload resp)

  pub Upholds-forward_message :
      (message_id to_chat id : String) (now : ℤ) (resp : SendResponse W)
      → Upholds (forward_message W message_id to_chat id now resp)
  unfolding forward_message
  Upholds-forward_message message_id to_chat id now resp = Upholds-with_client W _ (
      Upholds->>= (on_store (get_message message_id))
        (λ source. forward_to W (parse_jid to_chat) source id now resp)
        (Upholds-get_message message_id)
        (λ source. Upholds-forward_to (parse_jid to_chat) source id now resp))

  Upholds-react_as :
      (id : String) (chat sender : Jid) (row : Message) (emoji : String)
      → Upholds (react_as W id chat sender row emoji)
  unfolding perform
  Upholds-react_as id chat sender row emoji =
      Upholds-value (is_empty sender) (raise (failure "invalid original sender")) _
        (Upholds-raise _)
        (Upholds->>= (tell "react" (reacts (to_string chat) (to_string sender) row.id emoji)) _
          (Upholds-tell _ _)
          (λ u. Upholds->>= _ _ (Upholds-call (sets_message_reaction id emoji)) (λ v.
            Upholds->>= (emit (message_updated (with_reaction W emoji row)))
              (λ w. pure (with_reaction W emoji row)) (Upholds-emit _) (λ w. Upholds-pure _))))

  Upholds-react_from :
      (id : String) (c o : Option Jid) (row : Message) (emoji : String)
      → Upholds (react_from W id c o row emoji)
  Upholds-react_from id none o row emoji = Upholds-raise _
  Upholds-react_from id (some chat) none row emoji = Upholds-raise _
  Upholds-react_from id (some chat) (some sender) row emoji =
      Upholds-react_as id chat sender row emoji

  pub Upholds-react_message : (id emoji : String) → Upholds (react_message W id emoji)
  unfolding react_message
  Upholds-react_message id emoji =
      Upholds->>= (on_store (get_message id)) (λ row. react_found W id row emoji)
        (Upholds-get_message id)
        (λ row.
          Upholds-with_client W _
            (Upholds-react_from id (parse_jid row.chat_jid) (parse_jid row.sender) row emoji))

  module _ (world : Outside) where
    Upholds-save :
        (o : Option String) (id : String) (bytes : List ℕ) → Upholds (save W world o id bytes)
    unfolding perform
    Upholds-save none id bytes = Upholds-raise _
    Upholds-save (some dest) id bytes =
        Upholds-value (not (world.writable dest)) (raise (failure "write media")) _
          (Upholds-raise _)
          (Upholds->>= _ (λ u. on_store (get_message id))
            (Upholds-call (sets_media_path id dest (pos (length bytes))))
            (λ u. Upholds-get_message id))

    Upholds-downloaded : (o : Option (List ℕ)) (id : String) → Upholds (downloaded W world o id)
    Upholds-downloaded none id = Upholds-raise _
    Upholds-downloaded (some bytes) id =
        Upholds->>= (on_store (get_message id)) _ (Upholds-get_message id)
          (λ row. Upholds-save (world.media_path id row.media) id bytes)

    Upholds-decode :
        (o : Option WaMessage) (id : String) → Upholds (decode_and_download W world o id)
    Upholds-decode none id = Upholds-raise _
    Upholds-decode (some msg) id = Upholds-downloaded (world.download msg) id

    pub Upholds-download_media : (id : String) → Upholds (download_media W world id)
    unfolding download_media
    Upholds-download_media id =
        Upholds->>= (on_store (media_payload id)) (λ p. download_found W world p id)
          (Upholds-media_payload id) found
      where
        found : (p : List ℕ × String) → Upholds (download_found W world p id)
        found (payload, path) =
            Upholds-value (is_downloaded W world path) (on_store (get_message id))
              (fetch W world payload id) (Upholds-get_message id)
              (Upholds-with_client W _ (Upholds-decode (unmarshal payload) id))
