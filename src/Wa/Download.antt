-- ===== src/Wa/Download.antt =====
-- apps/daemon/wa/media.go, DownloadMedia. What the file system and the client answer are arguments.
use zchat.Prelude.{
  ℕ, String, Bool, not, ◌&&◌, List, Option, none, some, ◌==◌, length, if◌then◌else◌,
}
use zchat.Prelude.Int.{pos}
use zchat.Prelude.Exec.{Exec, err, raise, failure, ◌>>=◌, ◌>>◌}
use zchat.Store.Types.{Media, Message}
use zchat.Store.Messages.{set_media_path}
use zchat.Store.MessageQueries.{get_message, media_payload}
use zchat.Wa.Session.{Session, on_store}
use zchat.Wa.Content.{WaMessage}
use zchat.Wa.Whatsmeow.{Whatsmeow}

-- Which paths os.Stat finds, the bytes that DownloadAny returns for a message, the destination of
-- mediaPath, and whether os.WriteFile succeeds on it.
pub record Outside : Type 0 where
  pub exists : String → Bool
  pub download : WaMessage → Option (List ℕ)
  pub media_path : String → Option Media → Option String
  pub writable : String → Bool

module _ (W : Whatsmeow) (world : Outside) where
  open W use {unmarshal}

  abbrev pub save : Option String → String → List ℕ → Exec Session Message
  save none id bytes = raise (failure "media path")
  save (some dest) id bytes =
      if not (world.writable dest)
      then raise (failure "write media")
      else do on_store (set_media_path id dest (pos (length bytes))); on_store (get_message id)

  abbrev pub downloaded : Option (List ℕ) → String → Exec Session Message
  downloaded none id = raise (failure "download media")
  downloaded (some bytes) id = do
    row ← on_store (get_message id)
    save (world.media_path id row.media) id bytes

  abbrev pub decode_and_download : Option WaMessage → String → Exec Session Message
  decode_and_download none id = raise (failure "decode media payload")
  decode_and_download (some msg) id = downloaded (world.download msg) id

  abbrev pub fetch : List ℕ → String → Exec Session Message
  fetch payload id s =
      if not s.has_client
      then (err (failure "session not started"), s)
      else decode_and_download (unmarshal payload) id s

  abbrev pub is_downloaded : String → Bool
  is_downloaded path = not (path == "") && world.exists path

  abbrev pub download_found : List ℕ × String → String → Exec Session Message
  download_found (payload, path) id =
      if is_downloaded path then on_store (get_message id) else fetch payload id

  -- DownloadMedia
  unfoldable pub download_media : String → Exec Session Message
  download_media id = on_store (media_payload id) >>= λ found. download_found found id
