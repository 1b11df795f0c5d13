-- ===== src/Wa/Demo.antt =====
-- A client of whatsmeow for the tests: its JIDs are texts, and one contact has a name.
use zchat.Prelude.{String, true, false, [], ◌∷◌, none, some, ◌==◌, if◌then◌else◌}
use zchat.Prelude.Exec.{ok, err, failure}
use zchat.Store.Db.{Db}
use zchat.Wa.Names.{new_name_cache}
use zchat.Wa.Session.{Session}
use zchat.Wa.Content.{null}
use zchat.Wa.Whatsmeow.{Whatsmeow, default_user_server, Contact}

abbrev pub ann : Contact
ann = record { full_name = "Ann"; business_name = ""; push_name = "ann"; first_name = "" }

abbrev pub demo : Whatsmeow
demo = record {
  Jid = String;
  parse_jid = λ t. if t == "" then none else some t;
  to_string = λ j. j;
  to_non_ad = λ j. j;
  user = λ j. j;
  server = λ j. default_user_server;
  is_empty = λ j. j == "";
  new_jid = λ t. t;
  alt_jid = λ j. ok "";
  contact = λ j. ok (if j == "1@s" then some ann else none);
  contacts = some (("1@s", ann) ∷ []);
  group_name = λ j. err (failure "group");
  own_jid = some "me@s";
  push_name = "Me";
  marshal = λ m. some (7 ∷ []);
  unmarshal = λ b. some null;
}

-- A session on some tables; the driver refuses the fourth statement, and the client the second
-- request.
abbrev pub demo_session : Db → Session
demo_session db = record {
  conn = record { db = db; faults = false ∷ false ∷ false ∷ true ∷ [] };
  events = [];
  sent = [];
  has_client = true;
  logged_in = true;
  refusals = false ∷ true ∷ [];
  names = new_name_cache;
}

-- The same client, whose device store answers no lookup.
abbrev pub failing : Whatsmeow
failing = record demo { alt_jid = λ j. err (failure "alt"); contact = λ j. err (failure "contact") }
