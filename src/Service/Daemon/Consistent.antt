-- ===== src/Service/Daemon/Consistent.antt =====
-- apps/daemon: the tables are consistent throughout a run of the daemon.
use zchat.Prelude.{
  Bool, true, false, not, ◌&&◌, List, [], ◌∷◌, Option, none, some, ◌==◌, if◌then◌else◌,
}
use zchat.Prelude.Exec.{Result, ok, err}
use zchat.Prelude.Text.{trim_space}
use zchat.Store.Consistent.{IsConsistent}
use zchat.Store.ChatQueries.{list_chats, search_chats}
use zchat.Store.MessageQueries.{list_messages, search_messages}
use zchat.Wa.Session.{Session, on_store}
use zchat.Wa.Whatsmeow.{Whatsmeow}
use zchat.Wa.Sync.{finish_begin}
use zchat.Wa.Connection.{on_connected, on_disconnected, on_logged_out, contacts_complete}
use zchat.Wa.Contacts.{ContactEntry, get_contacts}
use zchat.Wa.History.{Synced, process_history_sync}
use zchat.Wa.Reconcile.{reconcile_chats}
use zchat.Wa.Upholds.{Upholds-query, Upholds->>=, Upholds-get_chat}
use zchat.Wa.Upholds.Names.{Upholds-get_contacts, Upholds-start_chat}
use zchat.Wa.Upholds.Sending.{Upholds-send_text, Upholds-retry_text, Upholds-retry_media}
use zchat.Wa.Upholds.Files.{
  Upholds-send_media, Upholds-forward_message, Upholds-react_message, Upholds-download_media,
}
use zchat.Wa.Upholds.Changes.{
  Upholds-on_delete_for_me, Upholds-on_app_state_chat, Upholds-update_chat, Upholds-session_delete,
}
use zchat.Wa.Upholds.Incoming.{Upholds-on_message, Upholds-process_history_sync}
use zchat.Wa.Upholds.Repair.{Upholds-reconcile_chats, on_receipt-IsConsistent}
use zchat.Wa.Download.{download_media}
use zchat.Service.Reply.{page_limit}
use zchat.Service.Reads.{
  serve_get_chats, serve_search_chats, serve_get_chat_info, serve_get_contacts, fill_names,
  serve_search_messages, open_chat, serve_get_messages,
}
use zchat.Service.Writes.{
  serve_start_chat, serve_send_message, serve_send_media, serve_forward_message,
  serve_delete_message, serve_update_chat, serve_react_message, serve_retry_message,
  serve_retry_media, serve_download_media, reads_jid, is_given, some_field,
}
use zchat.Service.Daemon.{
  Request, serve, Daemon, world, with_world, Input, finish_rest, report_contacts, report_chunk,
  on_history, on_sync_timer, on_app_state_complete, handle, Moment, run,
}
use zchat.Service.Daemon.Linked.{
  chunk-IsKept, finish_begin-IsKept, finish_end-IsKept, start-IsKept, consume_qr-IsKept,
  handle_connection-IsKept, logout-IsKept,
}
use zchat.Service.Daemon.Serves.{
  Serves-answer, Serves-checked, Serves-test, Serves-retry, Upholds-fill_names, Upholds-open_chat,
  published-IsConsistent,
}

module _ (W : Whatsmeow) where
  serve-IsConsistent :
      (r : Request W) (s : Session) → IsConsistent s.conn.db → IsConsistent (serve W r s).1.conn.db
  unfolding serve serve_get_chats serve_search_chats serve_get_chat_info serve_get_contacts
      serve_search_messages serve_get_messages serve_start_chat serve_send_message serve_send_media
      serve_forward_message serve_delete_message serve_update_chat serve_react_message
      serve_retry_message serve_retry_media serve_download_media list_chats search_chats
      list_messages search_messages
  serve-IsConsistent (Request.get_chats limit offset archived) s h = (Upholds-query _ _).at s h
  serve-IsConsistent (Request.search_chats query limit) s h =
      (Serves-test (trim_space query == "") _ _ (Serves-answer _ _ _ (Upholds-query _ _))).at s h
  serve-IsConsistent (Request.get_chat_info jid) s h =
      (Serves-checked (not (jid == "")) _ (Serves-answer _ _ _ (Upholds-get_chat jid))).at s h
  serve-IsConsistent Request.get_contacts s h = (Upholds-get_contacts W).at s h
  serve-IsConsistent (Request.search_messages query jid limit) s h =
      (Serves-test (trim_space query == "") _ _ (
          Serves-answer _ _ _
            (Upholds->>= _ (fill_names W) (Upholds-query _ _) (Upholds-fill_names W)))).at
        s h
  serve-IsConsistent (Request.get_messages jid limit before) s h =
      (Serves-checked (not (jid == "")) _ (
          Serves-answer _ _ _ (
            Upholds->>= (on_store (list_messages jid (page_limit limit) before)) _
              (Upholds-query _ _)
              (λ rows.
                Upholds->>= (open_chat W jid before) (λ u. fill_names W rows)
                  (Upholds-open_chat W jid before) (λ u. Upholds-fill_names W rows))))).at
        s h
  serve-IsConsistent (Request.start_chat recipient) s h = (Upholds-start_chat W recipient).at s h
  serve-IsConsistent (Request.send_message jid body quoted id now resp) s h =
      (Serves-checked (is_given jid && is_given (trim_space body)) _
          (Serves-answer _ _ _ (Upholds-send_text W jid body quoted id now resp))).at
        s h
  serve-IsConsistent (Request.send_media jid path absent f caption quoted up id now resp) s h =
      (Serves-checked (is_given jid && is_given path) _
          (Serves-answer _ _ _ (Upholds-send_media W jid f caption quoted up id now resp))).at
        s h
  serve-IsConsistent (Request.forward_message id to new now resp) s h =
      (Serves-checked (is_given id && is_given to) _
          (Serves-answer _ _ _ (Upholds-forward_message W id to new now resp))).at
        s h
  serve-IsConsistent (Request.delete_message id revoke) s h =
      (Serves-checked (is_given id) _
          (Serves-answer _ _ _ (Upholds-session_delete (reads_jid W) id revoke))).at
        s h
  serve-IsConsistent (Request.update_chat jid p a m) s h =
      (Serves-checked (is_given jid && some_field W p a m) _
          (Serves-answer _ _ _ (Upholds-update_chat (reads_jid W) jid p a m))).at
        s h
  serve-IsConsistent (Request.react_message id emoji) s h =
      (Serves-checked (is_given id) _ (Serves-answer _ _ _ (Upholds-react_message W id emoji))).at s
        h
  serve-IsConsistent (Request.retry_message id resp) s h =
      (Serves-checked (is_given id) _ (Serves-retry W _ _ id (λ m. Upholds-retry_text W m resp))).at
        s h
  serve-IsConsistent (Request.retry_media id resp) s h =
      (Serves-checked (is_given id) _
          (Serves-retry W _ _ id (λ m. Upholds-retry_media W m resp))).at
        s h
  serve-IsConsistent (Request.download_media world id) s h =
      (Serves-checked (is_given id) _ (record {
        at = λ t k.
            published-IsConsistent W (download_media W world id t).0 _
              ((Upholds-download_media W world id).at t k);
      })).at
        s h

  finish_rest-IsConsistent :
      (d : Daemon) → IsConsistent d.session.conn.db → IsConsistent (finish_rest W d).session.conn.db
  finish_rest-IsConsistent d h =
      finish_end-IsKept (world (record d { session = (reconcile_chats W d.session).1 }))
        ((Upholds-reconcile_chats W).at d.session h)

  timed :
      (b : Bool) (d : Daemon)
      → IsConsistent d.session.conn.db
      → IsConsistent (if b then finish_rest W d else d).session.conn.db
  timed true d h = finish_rest-IsConsistent d h
  timed false d h = h

  contacts_reported :
      (r : Result (List ContactEntry)) (d : Daemon)
      → IsConsistent d.session.conn.db
      → IsConsistent (report_contacts W r d).session.conn.db
  contacts_reported (err e) d h = h
  contacts_reported (ok entries) d h = handle_connection-IsKept (contacts_complete _) _ h

  chunk_reported :
      (r : Result (Option Synced)) (d : Daemon)
      → IsConsistent d.session.conn.db
      → IsConsistent (report_chunk W r d).session.conn.db
  chunk_reported (err e) d h = h
  chunk_reported (ok none) d h = h
  chunk_reported (ok (some t)) d h = chunk-IsKept t.chats t.messages (world d) h

  handle-IsConsistent :
      (i : Input W) (d : Daemon)
      → IsConsistent d.session.conn.db
      → IsConsistent (handle W i d).session.conn.db
  unfolding handle on_history on_sync_timer on_app_state_complete
  handle-IsConsistent (Input.requested r) d h = serve-IsConsistent r d.session h
  handle-IsConsistent (Input.requested_logout refuses) d h = logout-IsKept refuses _ h
  handle-IsConsistent (Input.requested_presence chat typing is_available) d h = h
  handle-IsConsistent (Input.message info revokes msg) d h =
      (Upholds-on_message W info revokes msg).at d.session h
  handle-IsConsistent (Input.receipt t ids) d h = on_receipt-IsConsistent t ids d.session h
  handle-IsConsistent (Input.history cs) d h =
      let o = process_history_sync W cs d.session in
      chunk_reported o.0 (record d { session = o.1 })
        ((Upholds-process_history_sync W cs).at d.session h)
  handle-IsConsistent (Input.deleted_for_me chat id) d h =
      (Upholds-on_delete_for_me chat id).at d.session h
  handle-IsConsistent (Input.app_state chat p a m) d h =
      (Upholds-on_app_state_chat chat p a m).at d.session h
  handle-IsConsistent (Input.name_changed jid) d h = h
  handle-IsConsistent Input.came_online d h = handle_connection-IsKept on_connected _ h
  handle-IsConsistent Input.went_offline d h = handle_connection-IsKept on_disconnected _ h
  handle-IsConsistent (Input.logged_out reason) d h =
      handle_connection-IsKept (on_logged_out reason) _ h
  handle-IsConsistent Input.app_state_complete d h =
      let o = get_contacts W d.session in
      contacts_reported o.0 (record d { session = o.1 }) ((Upholds-get_contacts W).at d.session h)
  handle-IsConsistent (Input.paired item) d h = consume_qr-IsKept item _ h
  handle-IsConsistent (Input.started how) d h = start-IsKept how _ h
  handle-IsConsistent Input.sync_timer d h =
      let o = finish_begin (world d) in
      timed o.1 (with_world o.0 d) (finish_begin-IsKept (world d) h)
  handle-IsConsistent Input.reconciles d h = (Upholds-reconcile_chats W).at d.session h
  handle-IsConsistent (Input.login_changed b) d h = h

-- From consistent tables, whatever sequence of inputs the daemon handles, each to its end, and
-- whatever the driver, the client and the library answer, which may change from one input to the
-- next, the tables stay consistent. The inputs are the requests that touch the session, the messages,
-- receipts, history, names, app state and connection events of WhatsApp, the pairing, the starts, the
-- logouts, the timers of the full sync and the repair of the chats.
pub run-IsConsistent :
    (ms : List Moment) (d : Daemon)
    → IsConsistent d.session.conn.db
    → IsConsistent (run ms d).session.conn.db
unfolding run
run-IsConsistent [] d h = h
run-IsConsistent ((W, i) ∷ ms) d h =
    run-IsConsistent ms (handle W i d) (handle-IsConsistent W i d h)
