-- ===== src/Wa/Connection.antt =====
-- apps/daemon/wa/session.go: the state of the connection, the pairing codes, and what the clients are
-- told of them. Each call of setState is over before the next one begins.
pub mod Attached
use zchat.Prelude.{
  ℕ, suc, String, Bool, true, false, List, [], ◌∷◌, Option, none, some, if◌then◌else◌,
}
use zchat.Prelude.Int.{ℤ, leb_ℤ}
use zchat.Wa.Names.{NameCache, reset_names}
use zchat.Wa.Sync
use zchat.Wa.Sync.{World, begin, contacts_synced, reset}

-- ConnectionStatus
pub data ConnectionStatus : Type 0 where
  unspecified disconnected connecting connected logged_out : ConnectionStatus

-- zchatv1.ConnectionState
pub record ConnectionState : Type 0 where
  pub status : ConnectionStatus
  pub own_jid : String
  pub push_name : String
  pub error : String

-- zchatv1.QRUpdate
pub record QrUpdate : Type 0 where
  pub code : String
  pub expires_at : ℤ

-- The client's store: the id that a paired device has, and its name.
pub record Device : Type 0 where
  pub id : Option String
  pub push_name : String

pub data Notice : Type 0 where
  state_changed : ConnectionState → Notice
  qr_updated : QrUpdate → Notice

-- The fields of Session that these functions use, with the events that it has published, newest
-- first, and the number of restarts that it has set off.
pub record Link : Type 0 where
  pub device : Option Device
  pub state : ConnectionState
  pub qr : Option QrUpdate
  pub published : List Notice
  pub full_sync : World
  pub names : NameCache
  pub restarts : ℕ

abbrev pub jid_text : Option String → String
jid_text none = ""
jid_text (some id) = id

abbrev pub state_from : ConnectionStatus → String → Option Device → ConnectionState
state_from status error none = record {
  status = status;
  own_jid = "";
  push_name = "";
  error = error;
}
state_from status error (some d) = record {
  status = status;
  own_jid = jid_text d.id;
  push_name = d.push_name;
  error = error;
}

abbrev pub enter : ConnectionState → Link → Link
enter state l = record l { state = state; published = state_changed state ∷ l.published }

-- setState
unfoldable pub set_state : ConnectionStatus → String → Link → Link
set_state status error l = enter (state_from status error l.device) l

-- PendingQR, at the time `now`.
abbrev pub pending_from : ℤ → Option QrUpdate → Option QrUpdate
pending_from now none = none
pending_from now (some qr) = if leb_ℤ qr.expires_at now then none else some qr

unfoldable pub pending_qr : ℤ → Link → Option QrUpdate
pending_qr now l = pending_from now l.qr

-- whatsmeow.QRChannelItem, with the expiry for its timeout and the text of its error.
pub data QrItem : Type 0 where
  code_item : QrUpdate → QrItem
  success : QrItem
  error_item : Option String → QrItem
  other_item : String → QrItem

abbrev pub error_text : Option String → String
error_text none = "pairing failed"
error_text (some text) = text

-- The body of the loop of consumeQR.
unfoldable pub consume_qr : QrItem → Link → Link
unfolding set_state
consume_qr (code_item qr) l = record l { qr = some qr; published = qr_updated qr ∷ l.published }
consume_qr success l =
    set_state ConnectionStatus.connecting "" (record l { qr = none; full_sync = begin l.full_sync })
consume_qr (error_item e) l = set_state logged_out (error_text e) l
consume_qr (other_item event) l = set_state logged_out event l

-- What Start meets: the device does not load; or it is there, paired or not, the channel of codes
-- opens or not, and the connection succeeds or not.
pub data Start : Type 0 where
  no_device : Start
  unpaired : Device → Bool → Bool → Start
  paired : Device → Bool → Start

abbrev pub reset_if : Bool → Link → Link
reset_if connects l = if connects then record l { full_sync = reset l.full_sync } else l

-- Start
unfoldable pub start : Start → Link → Link
unfolding set_state
start no_device l = l
start (unpaired d opens connects) l =
    if opens
    then reset_if connects (set_state logged_out "" (record l { device = some d }))
    else record l { device = some d }
start (paired d connects) l =
    set_state ConnectionStatus.connecting ""
      (record l { device = some d; full_sync = begin l.full_sync })

-- The cases of handleEvent for the connection, less the reset of the presence tracker and the repair
-- of the chats, which touch neither the state nor the sync.
pub data Event : Type 0 where
  on_connected : Event
  on_disconnected : Event
  on_logged_out : String → Event
  contacts_complete : ℕ → Event

unfoldable pub handle_connection : Event → Link → Link
unfolding set_state
handle_connection on_connected l =
    let l' = set_state ConnectionStatus.connected "" l in
    record l' { full_sync = Sync.connected l'.full_sync }
handle_connection on_disconnected l = set_state disconnected "" l
handle_connection (on_logged_out reason) l =
    let l' = record l { full_sync = reset l.full_sync; names = reset_names l.names } in
    let l'' = set_state logged_out reason l' in record l'' { restarts = suc l''.restarts }
handle_connection (contacts_complete n) l = record l { full_sync = contacts_synced n l.full_sync }

abbrev pub unlinked : Option Device → Bool → Link → Link
unlinked none refuses l = l
unlinked (some d) true l = l
unlinked (some d) false l = record l {
  full_sync = reset l.full_sync;
  names = reset_names l.names;
  restarts = suc l.restarts;
}

-- Logout, which the client refuses or not.
unfoldable pub logout : Bool → Link → Link
logout refuses l = unlinked l.device refuses l
