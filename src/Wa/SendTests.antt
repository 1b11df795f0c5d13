-- ===== src/Wa/SendTests.antt =====
-- Runs of the sending operations, and the theorems about them at concrete inputs.
use zchat.Prelude.{true, ◌≡◌, refl, false, [], ◌∷◌, none, some, arith}
use zchat.Prelude.Int.{pos}
use zchat.Prelude.Exec.{ok, failure}
use zchat.Store.Types.{Media, Message}
use zchat.Store.Db.{empty_db}
use zchat.Prelude.Rows.{find}
use zchat.Store.Consistent.{empty_db-IsConsistent}
use zchat.Wa.Names.{new_name_cache, drop_name}
use zchat.Wa.Send.Delivered.{Sent, calm_session, send_text-Sent}
use zchat.Wa.Session.{message_received}
use zchat.Wa.Content.{no_context, extract_media, message_context}
use zchat.Wa.Content.Upload.{
  UploadResponse, media_kind, upload_payload, carried, extract_media-upload_payload,
}
use zchat.Wa.Demo.{demo, demo_session, failing, ann}
use zchat.Wa.Lookup.{contact_name}
use zchat.Wa.Lookup.Remembered.{contact_name-remembers}
use zchat.Wa.Send.{SendResponse, pending_row, send_text}
use zchat.Wa.Send.Announced.{Sends}
use zchat.Wa.Send.Fitting.{FitsText}
use zchat.Wa.Send.Operations.{send_text-Sends}
use zchat.Wa.Send.Files.{Picked}

abbrev photo : Media
photo = record {
  message_id = "";
  path = "";
  mime = "image/png";
  size = pos 3;
  filename = "a.png";
  caption = "hi";
  thumbnail = [];
  width = pos 4;
  height = pos 2;
  duration = pos 0;
  payload = [];
}

abbrev upload : UploadResponse
upload = record {
  url = "u";
  direct_path = "p";
  media_key = 1 ∷ [];
  file_enc_sha256 = [];
  file_sha256 = [];
  file_length = 3;
}

extract_media-upload_payload_example :
    (extract_media
        (λ m. some (7 ∷ []))
        (upload_payload (media_kind "image/png") photo upload no_context)
      ≡ some (media_kind "image/png", carried (media_kind "image/png") photo 3 (7 ∷ [])))
    × (message_context (upload_payload (media_kind "image/png") photo upload no_context)
        ≡ no_context)
extract_media-upload_payload_example =
    extract_media-upload_payload (λ m. some (7 ∷ [])) photo upload no_context (7 ∷ []) {w = 4}
      {h = 2} (refl, refl, omega arith, omega arith, omega arith) "image/png" refl

-- The device store fails at first and answers later.
contact_name-remembers_example :
    let (r, t) = contact_name failing "1@s" (demo_session empty_db) in
    (r ≡ ok "")
    × (contact_name demo "1@s" t ≡ (ok "", t))
    × ((contact_name demo "1@s" (record t { names = drop_name "1@s" t.names })).0 ≡ ok "Ann")
contact_name-remembers_example =
    contact_name-remembers failing "1@s" (demo_session empty_db) demo.alt_jid demo.contact ann refl
      refl (λ j. (failure "contact", refl)) refl refl

abbrev answered : SendResponse demo
answered = record { timestamp = pos 12; sender = "me@lid" }

send_text-Sends_example :
    Sends demo message_received answered
      (FitsText demo "1@s" "hi" "" "m1" (pos 10))
      (demo_session empty_db)
      (send_text demo "1@s" "hi" "" "m1" (pos 10) answered (demo_session empty_db))
send_text-Sends_example =
    send_text-Sends demo "1@s" "hi" "" "m1" (pos 10) answered (demo_session empty_db)

abbrev waiting : Message
waiting = pending_row demo "m1" (pos 10) "1@s" "hi" "text" false (some photo) none

abbrev picked : Picked
picked = record {
  filename = "a.png";
  info = some (record { is_dir = false; size = pos 3 });
  content = some (1 ∷ 2 ∷ 3 ∷ []);
  mime = "image/png";
  dimensions = some (pos 4, pos 2);
  copied_to = some "copy.png";
}

send_text-Sent_example :
    Sent demo (pending_row demo "m1" (pos 10) "1@s" "hi" "text" false none none) answered (
      send_text demo "1@s" "hi" "" "m1"
        (pos 10)
        answered
        (calm_session demo empty_db [] [] true new_name_cache))
unfolding find
send_text-Sent_example =
    send_text-Sent demo "1@s" "hi" "m1" (pos 10) answered "1@s" empty_db [] [] true new_name_cache
      refl empty_db-IsConsistent refl
