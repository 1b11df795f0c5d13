-- ===== src/Wa/Tests.antt =====
-- The theorems on apps/daemon/wa at concrete runs.
use zchat.Prelude.{
  ◌≤◌, ◌≡◌, refl, true, false, List, [], ◌∷◌, inl, Option, some, none, String, ◌==◌, if◌then◌else◌,
}
use zchat.Store.Types.{Message, MessageRow, MessageRef}
use zchat.Store.Db.{Db, Conn, empty_db}
use zchat.Store.Status.{calm}
use zchat.Wa.Sync.{
  history, done, World, new_tracker, begin, finish, finish_begin, finish_store, finish_end, reset,
}
use zchat.Wa.Sync.Lifecycle.{
  Callback, begins, connects, resets, syncs_contacts, receives_chunk, finishes, react_all, IsSound,
  react_all-IsSound, restarted, finish_restart, reset_within_finish,
}
use zchat.Prelude.Int.{pos}
use zchat.Store.Status.Receipts.{stored_rank}
use zchat.Wa.Session.{Session}
use zchat.Wa.Actions.{on_revoke, on_delete_for_me, session_delete}
use zchat.Wa.Actions.Deletion.{Deletes, remote-Deletes}
use zchat.Wa.Actions.Deletion.Local.{Removes, session_delete-Removes}
use zchat.Wa.Proto.{sent, to_proto_message, received, public_media, received-to_proto_message}
use zchat.Wa.Receipts.{read, on_receipt, on_receipt-le}
use zchat.Wa.MarkRead.{ids_of, group_from, groups-authored}
use zchat.Wa.Names.{Change, puts_name, puts_number, drops, new_name_cache}
use zchat.Wa.Presence.{
  Line, empty_tracker, reconnect, presence_failed, set_presence, with_available,
}
use zchat.Wa.Presence.Told.{
  IsFaithful, was_available, set_presence-IsFaithful, reconnect-IsFaithful,
}
use zchat.Wa.Presence.Forgotten.{set_presence-forgotten}
use zchat.Wa.Sync.Progress.{shown_progress, progress_never_falls}

abbrev fresh : World
fresh = record { tracker = new_tracker; published = []; conn = calm empty_db }

-- A tracker in the middle of a sync.
abbrev syncing : World
syncing = record fresh {
  tracker = record new_tracker {
    active = true;
    stage = history;
    chunks = 2;
    chats = 5;
    messages = 90;
    settle = true;
    deadline = true;
  };
}

abbrev unchanged : Conn → Conn
unchanged c = c

abbrev first_sync : List Callback
first_sync =
    begins ∷ connects ∷ receives_chunk 5 90 ∷ syncs_contacts 7 ∷ finishes unchanged ∷ resets ∷ []

fresh-IsSound : IsSound fresh.tracker
fresh-IsSound = record {
  running = λ h. cc;
  unfinished = λ h. cc;
  timed = λ h. cc;
  finished = λ h. cc;
}

syncing-IsSound : IsSound syncing.tracker
syncing-IsSound = record {
  running = λ h. refl;
  unfinished = λ h. refl;
  timed = λ h. refl;
  finished = λ h. cc;
}

react_all-IsSound_example : IsSound (react_all first_sync fresh).tracker
react_all-IsSound_example = react_all-IsSound first_sync fresh fresh-IsSound

finish_restart_example :
    ((restarted (finish unchanged syncing).conn).completed ≡ true)
    × ((restarted (finish unchanged syncing).conn).stage ≡ done)
    × (begin (restarted (finish unchanged syncing).conn)
        ≡ restarted (finish unchanged syncing).conn)
finish_restart_example = finish_restart unchanged syncing refl refl

reset_within_finish_example :
    let v = (finish_begin syncing).0 in
    let before = finish_end (finish_store (reset v)) in
    let behind = finish_end (reset (finish_store v)) in
    (before.completed ≡ true)
    × (before.stage ≡ done)
    × (begin before ≡ before)
    × ((restarted before.conn).completed ≡ true)
    × (behind.completed ≡ true)
    × (behind.stage ≡ done)
    × (begin behind ≡ behind)
    × ((restarted behind.conn).completed ≡ false)
unfolding finish_begin
reset_within_finish_example = reset_within_finish syncing (finish_begin syncing).0 refl refl

progress_never_falls_example :
    (shown_progress syncing
      ≤ shown_progress (react_all (receives_chunk 1 9 ∷ finishes unchanged ∷ begins ∷ []) syncing))
    × (shown_progress (react_all (receives_chunk 1 9 ∷ finishes unchanged ∷ begins ∷ []) syncing)
        ≤ 800)
progress_never_falls_example =
    progress_never_falls (receives_chunk 1 9 ∷ finishes unchanged ∷ begins ∷ []) syncing
      (refl, (refl, (refl, tt))) syncing-IsSound (inl refl)

-- One text is a contact's JID, one a group's, and no other is a JID.
abbrev sample_contact : String → Option (Option String)
sample_contact chat =
    if chat == "1@s" then some (some "1@s") else if chat == "2@g" then some none else none

abbrev offline : Line
offline = record { tracker = empty_tracker; told = []; refusals = [] }

abbrev quiet_line : Line
unfolding reconnect
quiet_line = reconnect offline

abbrev failing_line : Line
failing_line = record { tracker = empty_tracker; told = []; refusals = true ∷ [] }

set_presence-IsFaithful_example :
    IsFaithful (set_presence sample_contact true "1@s" true true quiet_line).1
unfolding quiet_line
set_presence-IsFaithful_example =
    set_presence-IsFaithful sample_contact true "1@s" true true quiet_line
      (reconnect-IsFaithful offline refl)

set_presence-forgotten_example :
    (set_presence sample_contact true "1@s" false true failing_line
      ≡ (presence_failed, record (with_available failing_line) { refusals = [] }))
    × (was_available
          (set_presence sample_contact true "1@s" false true
            (set_presence sample_contact true "1@s" false true failing_line).1).1.told
        ≡ false)
set_presence-forgotten_example =
    set_presence-forgotten sample_contact "1@s" false failing_line [] refl refl

abbrev sample_row : MessageRow
sample_row = record {
  fields = record {
    id = "m1";
    chat_jid = "1@s";
    sender = "me";
    sender_name = "";
    body = "hi";
    type = "text";
    timestamp = pos 10;
    outgoing = true;
    status = "sent";
    forwarded = false;
    reaction = "";
  };
  quote = record { id = ""; sender = ""; sender_name = ""; body = ""; type = "" };
}

abbrev sample_db : Db
sample_db = record empty_db { messages = sample_row ∷ [] }

-- A session with one message, whose store refuses the seventh statement.
abbrev sample_session : Session
sample_session = record {
  conn = record {
    db = sample_db;
    faults = false ∷ false ∷ false ∷ false ∷ false ∷ false ∷ true ∷ [];
  };
  events = [];
  sent = [];
  has_client = true;
  logged_in = true;
  refusals = [];
  names = new_name_cache;
}

session_delete-Removes_example :
    Removes "m1" sample_session (session_delete (λ j. true) "m1" true sample_session)
session_delete-Removes_example = session_delete-Removes (λ j. true) "m1" true sample_session

abbrev sample_picture : Message
sample_picture = record {
  fields = sample_row.fields;
  media = some (record {
    message_id = "m1";
    path = "m1.jpg";
    mime = "image/jpeg";
    size = pos 9;
    filename = "";
    caption = "hi";
    thumbnail = 7 ∷ [];
    width = pos 2;
    height = pos 1;
    duration = pos 0;
    payload = 1 ∷ 2 ∷ [];
  });
  quoted = none;
}

received-to_proto_message_example :
    received (to_proto_message sample_picture)
    ≡ record sample_picture { media = public_media "m1" sample_picture.media }
received-to_proto_message_example = received-to_proto_message sample_picture sent refl

remote-Deletes_example :
    Deletes "m1" "1@s" sample_session (on_revoke "1@s" "m1" sample_session).1
    × Deletes "m1" "1@s" sample_session (on_delete_for_me "1@s" "m1" sample_session).1
remote-Deletes_example = remote-Deletes "1@s" "m1" sample_session

on_receipt-le_example :
    stored_rank "m1" sample_db
    ≤ stored_rank "m1" (on_receipt read ("m1" ∷ "m2" ∷ []) sample_session).conn.db
on_receipt-le_example = on_receipt-le read ("m1" ∷ "m2" ∷ []) "m1" sample_session

abbrev changes : List Change
changes = drops "1@s" ∷ puts_number "1@s" "+1" ∷ puts_name "1@s" "Ann" ∷ []

-- Senders that are JIDs.
abbrev sample_key : String → Option String
sample_key sender = if sender == "" then none else some sender

abbrev refs : List MessageRef
refs =
    record { id = "m3"; sender = "1@s" }
    ∷ record { id = "m2"; sender = "" }
    ∷ record { id = "m1"; sender = "1@s" }
    ∷ []

groups-authored_example : ids_of sample_key "1@s" (group_from sample_key [] refs) ≡ "m3" ∷ "m1" ∷ []
groups-authored_example = groups-authored sample_key "1@s" refs
