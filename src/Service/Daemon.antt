-- ===== src/Service/Daemon.antt =====
-- apps/daemon: what reaches the daemon and may change its session, as one type, and sequences of it:
-- the requests of its clients (service/service.go), the events of WhatsApp (handleEvent of
-- wa/session.go), the pairing codes, and the timers of the full sync. Left out are the profile
-- pictures and the presence of others, which are files and events alone, and the requests that only
-- read the state of the connection and of the sync.
pub mod Serves
pub mod Linked
pub mod Consistent
use zchat.Prelude.{
  String, Bool, true, false, ◌&&◌, List, [], ◌∷◌, Option, none, some, length, if◌then◌else◌,
}
use zchat.Prelude.Int.{ℤ}
use zchat.Prelude.Exec.{Result, ok, err}
use zchat.Store.Types.{Message}
use zchat.Wa.Names.{drop_name}
use zchat.Wa.Session.{Session}
use zchat.Wa.Sync.{World, chunk, finish_begin, finish_store, finish_end}
use zchat.Wa.Connection.{
  Link, Device, QrItem, Start, start, consume_qr, handle_connection, logout, on_connected,
  on_disconnected, on_logged_out, contacts_complete,
}
use zchat.Wa.Presence.{Line, reconnect, set_presence}
use zchat.Wa.Contacts
use zchat.Wa.Contacts.{ContactEntry}
use zchat.Wa.Lookup.{is_group_server}
use zchat.Wa.Content.{WaMessage}
use zchat.Wa.Content.Upload.{UploadResponse}
use zchat.Wa.Whatsmeow.{Whatsmeow}
use zchat.Wa.Actions.{on_delete_for_me, on_app_state_chat}
use zchat.Wa.Receipts.{ReceiptType, on_receipt}
use zchat.Wa.Rows.{MessageInfo, on_message}
use zchat.Wa.History.{Conversation, Synced, process_history_sync}
use zchat.Wa.Reconcile.{reconcile_chats}
use zchat.Wa.Download.{Outside}
use zchat.Wa.Send.{SendResponse}
use zchat.Wa.Send.Files.{Picked}
use zchat.Service.Reply.{Code, Reply, replies, rejects}
use zchat.Service.Reads.{
  serve_get_chats, serve_search_chats, serve_get_chat_info, serve_get_contacts,
  serve_search_messages, serve_get_messages,
}
use zchat.Service.Writes.{
  serve_start_chat, serve_send_message, serve_send_media, serve_forward_message,
  serve_delete_message, serve_update_chat, serve_react_message, serve_retry_message,
  serve_retry_media, serve_download_media,
}

-- The session with its store and its client, its connection, and its own presence. The store and the
-- names are the session's; the connection's functions work on them too.
pub record Daemon : Type 0 where
  pub session : Session
  pub link : Link
  pub line : Line

abbrev pub world : Daemon → World
world d = record d.link.full_sync { conn = d.session.conn }

abbrev pub with_world : World → Daemon → Daemon
with_world w d = record d {
  link = record d.link { full_sync = w };
  session = record d.session { conn = w.conn };
}

abbrev pub is_there : Option Device → Bool
is_there none = false
is_there (some device) = true

-- A function of the connection, on the session's store and names. There is a client from the first
-- Start on that has loaded a device.
abbrev pub after_link : Link → Daemon → Daemon
after_link l d = record d {
  link = l;
  session = record d.session {
    conn = l.full_sync.conn;
    names = l.names;
    has_client = is_there l.device;
  };
}

abbrev pub on_link : (Link → Link) → Daemon → Daemon
on_link f d = after_link (f (record d.link { full_sync = world d; names = d.session.names })) d

module _ (W : Whatsmeow) where
  open W use {Jid, parse_jid, to_string, to_non_ad, server}

  -- The requests, with what the world answers to each.
  pub data Request : Type 0 where
    get_chats : ℤ → ℤ → Bool → Request
    search_chats : String → ℤ → Request
    get_chat_info : String → Request
    get_contacts : Request
    search_messages : String → String → ℤ → Request
    get_messages : String → ℤ → ℤ → Request
    start_chat : String → Request
    send_message : String → String → String → String → ℤ → SendResponse W → Request
    send_media :
        String
        → String
        → Bool
        → Picked
        → String
        → String
        → Option UploadResponse
        → String
        → ℤ
        → SendResponse W
        → Request
    forward_message : String → String → String → ℤ → SendResponse W → Request
    delete_message : String → Bool → Request
    update_chat : String → Option Bool → Option Bool → Option ℤ → Request
    react_message : String → String → Request
    retry_message : String → SendResponse W → Request
    retry_media : String → SendResponse W → Request
    download_media : Outside → String → Request

  -- The code of a rejection.
  abbrev pub code_of : {A : Type 0} → Reply A → Option Code
  code_of (replies a) = none
  code_of (rejects c) = some c

  abbrev pub outcome : {A : Type 0} → Reply A × Session → Option Code × Session
  outcome (r, s) = (code_of r, s)

  -- The code with which a request is rejected, if it is, and the session that it leaves.
  pub serve : Request → Session → Option Code × Session
  serve (get_chats limit offset archived) s = outcome (serve_get_chats limit offset archived s)
  serve (search_chats query limit) s = outcome (serve_search_chats query limit s)
  serve (get_chat_info jid) s = outcome (serve_get_chat_info jid s)
  serve get_contacts s = outcome (serve_get_contacts W s)
  serve (search_messages query jid limit) s = outcome (serve_search_messages W query jid limit s)
  serve (get_messages jid limit before) s = outcome (serve_get_messages W jid limit before s)
  serve (start_chat recipient) s = outcome (serve_start_chat W recipient s)
  serve (send_message jid body quoted id now resp) s =
      outcome (serve_send_message W jid body quoted id now resp s)
  serve (send_media jid path absent f caption quoted up id now resp) s =
      outcome (serve_send_media W jid path absent f caption quoted up id now resp s)
  serve (forward_message id to new now resp) s =
      outcome (serve_forward_message W id to new now resp s)
  serve (delete_message id revoke) s = outcome (serve_delete_message W id revoke s)
  serve (update_chat jid p a m) s = outcome (serve_update_chat W jid p a m s)
  serve (react_message id emoji) s = outcome (serve_react_message W id emoji s)
  serve (retry_message id resp) s = outcome (serve_retry_message W id resp s)
  serve (retry_media id resp) s = outcome (serve_retry_media W id resp s)
  serve (download_media world id) s = outcome (serve_download_media W world id s)

  -- What reaches the daemon: a request, an event of WhatsApp, an item of the channel of pairing codes,
  -- a start of the session, a timer of the full sync, or a change of the client's login. `reconciles`
  -- is the repair that a connection sets off.
  pub data Input : Type 0 where
    requested : Request → Input
    requested_logout : Bool → Input
    requested_presence : String → Bool → Bool → Input
    message : MessageInfo W → Option String → WaMessage → Input
    receipt : ReceiptType → List String → Input
    history : List (Conversation W) → Input
    deleted_for_me : String → String → Input
    app_state : String → Option Bool → Option Bool → Option ℤ → Input
    name_changed : Jid → Input
    came_online went_offline : Input
    logged_out : String → Input
    app_state_complete : Input
    paired : QrItem → Input
    started : Start → Input
    sync_timer : Input
    reconciles : Input
    login_changed : Bool → Input

  -- SetPresence's view of a chat: no JID, a group, or a contact.
  abbrev pub contact_key : Option Jid → Option (Option String)
  contact_key none = none
  contact_key (some jid) =
      if is_group_server (server jid) then some none else some (some (to_string (to_non_ad jid)))

  abbrev pub presence_set : String → Bool → Bool → Daemon → Daemon
  presence_set chat typing is_available d = record d {
    line =
        (set_presence (λ t. contact_key (parse_jid t)) (d.session.has_client && d.session.logged_in)
          chat typing is_available d.line).1;
  }

  abbrev pub report_contacts : Result (List ContactEntry) → Daemon → Daemon
  report_contacts (err e) d = d
  report_contacts (ok entries) d =
      on_link (handle_connection (contacts_complete (length entries))) d

  -- onAppStateSyncComplete
  unfoldable pub on_app_state_complete : Daemon → Daemon
  on_app_state_complete d =
      let (r, s) = Contacts.get_contacts W d.session in report_contacts r (record d { session = s })

  abbrev pub report_chunk : Result (Option Synced) → Daemon → Daemon
  report_chunk (ok (some t)) d =
      on_link (λ l. record l { full_sync = chunk t.chats t.messages l.full_sync }) d
  report_chunk _ d = d

  -- processHistorySync, with the chunk that it reports at its end.
  unfoldable pub on_history : List (Conversation W) → Daemon → Daemon
  on_history cs d =
      let (r, s) = process_history_sync W cs d.session in report_chunk r (record d { session = s })

  abbrev pub finish_rest : Daemon → Daemon
  finish_rest d =
      let d' : Daemon = record d { session = (reconcile_chats W d.session).1 } in
      with_world (finish_end (finish_store (world d'))) d'

  -- finish, which a timer of the full sync calls.
  unfoldable pub on_sync_timer : Daemon → Daemon
  on_sync_timer d =
      let (w, goes_on) = finish_begin (world d) in
      if goes_on then finish_rest (with_world w d) else with_world w d

  -- The handler of an input.
  unfoldable pub handle : Input → Daemon → Daemon
  handle (requested r) d = record d { session = (serve r d.session).1 }
  handle (requested_logout refuses) d = on_link (logout refuses) d
  handle (requested_presence chat typing is_available) d = presence_set chat typing is_available d
  handle (message info revokes msg) d = record d {
    session = (on_message W info revokes msg d.session).1;
  }
  handle (receipt t ids) d = record d { session = on_receipt t ids d.session }
  handle (history cs) d = on_history cs d
  handle (deleted_for_me chat id) d = record d { session = (on_delete_for_me chat id d.session).1 }
  handle (app_state chat p a m) d = record d {
    session = (on_app_state_chat chat p a m d.session).1;
  }
  handle (name_changed jid) d = record d {
    session = record d.session { names = drop_name (to_string (to_non_ad jid)) d.session.names };
  }
  handle came_online d = on_link (handle_connection on_connected) d
  handle went_offline d =
      on_link (handle_connection on_disconnected) (record d { line = reconnect d.line })
  handle (logged_out reason) d = on_link (handle_connection (on_logged_out reason)) d
  handle app_state_complete d = on_app_state_complete d
  handle (paired item) d = on_link (consume_qr item) d
  handle (started how) d = on_link (start how) d
  handle sync_timer d = on_sync_timer d
  handle reconciles d = record d { session = (reconcile_chats W d.session).1 }
  handle (login_changed b) d = record d { session = record d.session { logged_in = b } }

-- An input, with what the library answers while it is handled.
abbrev pub Moment : Type 1
Moment = (W : Whatsmeow) × Input W

-- A run of the daemon; each input is handled to its end.
unfoldable pub run : List Moment → Daemon → Daemon
run [] d = d
run ((W, i) ∷ ms) d = run ms (handle W i d)
