-- ===== src/Service/RunTests.antt =====
-- Runs of the daemon, and the theorems about its requests at concrete inputs.
use zchat.Prelude.{List, [], ◌∷◌, none, true, false}
use zchat.Prelude.Int.{pos, ◌≤ℤ◌}
use zchat.Store.Db.{empty_db}
use zchat.Store.Consistent.{IsConsistent, empty_db-IsConsistent}
use zchat.Wa.Content.{wa, no_text, no_file}
use zchat.Wa.Demo.{demo, demo_session, failing}
use zchat.Wa.Rows.{MessageInfo}
use zchat.Wa.Send.{SendResponse}
use zchat.Service.Reply.{page_limit, page_limit_bounds}
use zchat.Wa.Names.{new_name_cache}
use zchat.Wa.Sync.{new_tracker}
use zchat.Wa.Presence.{empty_tracker}
use zchat.Wa.Connection.{Device, Link, disconnected, unpaired, success}
use zchat.Service.Daemon.{
  Daemon, requested, requested_logout, message, name_changed, came_online, app_state_complete,
  paired, started, sync_timer, Request, Moment, run,
}
use zchat.Service.Daemon.Consistent.{run-IsConsistent}

page_limit_bounds_example : (pos 1 ≤ℤ page_limit (pos 0)) × (page_limit (pos 0) ≤ℤ pos 200)
page_limit_bounds_example = page_limit_bounds (pos 0)

abbrev answered : SendResponse demo
answered = record { timestamp = pos 12; sender = "me@s" }

abbrev arrived : MessageInfo failing
arrived = record {
  id = "m2";
  chat = "1@s";
  sender = "1@s";
  push_name = "ann";
  timestamp = pos 11;
  is_from_me = false;
}

abbrev client : Device
client = record { id = none; push_name = "Me" }

abbrev idle_link : Link
idle_link = record {
  device = none;
  state = record { status = disconnected; own_jid = ""; push_name = ""; error = "" };
  qr = none;
  published = [];
  full_sync = record { tracker = new_tracker; published = []; conn = (demo_session empty_db).conn };
  names = new_name_cache;
  restarts = 0;
}

abbrev idle_daemon : Daemon
idle_daemon = record {
  session = demo_session empty_db;
  link = idle_link;
  line = record { tracker = empty_tracker; told = []; refusals = [] };
}

-- A pairing and a full sync, a message sent and one received, and a logout, while the device store
-- fails at times.
abbrev inputs : List Moment
inputs =
    (demo, started (unpaired client true true))
    ∷ (demo, paired success)
    ∷ (demo, came_online)
    ∷ (demo, app_state_complete)
    ∷ (demo, requested (Request.send_message "1@s" "hi" "" "m1" (pos 10) answered))
    ∷ (failing, message arrived none (wa "hello" no_text no_file no_file no_file no_file no_file))
    ∷ (demo, name_changed "1@s")
    ∷ (demo, sync_timer)
    ∷ (demo, requested (Request.get_messages "1@s" (pos 0) (pos 0)))
    ∷ (demo, requested (Request.delete_message "m2" true))
    ∷ (demo, requested_logout false)
    ∷ []

run-IsConsistent_example : IsConsistent (run inputs idle_daemon).session.conn.db
run-IsConsistent_example = run-IsConsistent inputs idle_daemon empty_db-IsConsistent
