-- ===== src/Wa/ConnectionTests.antt =====
-- What an attached client knows of the connection, at a pairing that is followed by a logout.
use zchat.Prelude.{List, [], ◌∷◌, none, true, false}
use zchat.Prelude.Int.{pos}
use zchat.Store.Db.{empty_db}
use zchat.Wa.Names.{new_name_cache}
use zchat.Wa.Sync.{World, new_tracker}
use zchat.Wa.Connection.{
  disconnected, Device, Link, code_item, success, unpaired, on_connected, on_disconnected,
  contacts_complete,
}
use zchat.Wa.Connection.Attached.{
  Step, pairing, starting, event, logging_out, steps, Informed, steps-Informed,
}

abbrev new_world : World
new_world = record {
  tracker = new_tracker;
  published = [];
  conn = record { db = empty_db; faults = [] };
}

abbrev new_link : Link
new_link = record {
  device = none;
  state = record { status = disconnected; own_jid = ""; push_name = ""; error = "" };
  qr = none;
  published = [];
  full_sync = new_world;
  names = new_name_cache;
  restarts = 0;
}

abbrev phone : Device
phone = record { id = none; push_name = "Me" }

abbrev life : List Step
life =
    starting (unpaired phone true true)
    ∷ pairing (code_item (record { code = "2@a"; expires_at = pos 20 }))
    ∷ pairing success
    ∷ event on_connected
    ∷ event (contacts_complete 3)
    ∷ event on_disconnected
    ∷ logging_out false
    ∷ []

steps-Informed_example : Informed new_link (steps life new_link)
steps-Informed_example = steps-Informed life new_link
