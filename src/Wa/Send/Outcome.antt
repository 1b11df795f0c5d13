-- ===== src/Wa/Send/Outcome.antt =====
-- apps/daemon/wa/session.go, SendText and the other sending operations: how a message ends.
use zchat.Prelude.{
  String, ◌≡◌, refl, sym, ap, ◌∙◌, subst, Bool, true, false, not, ◌&&◌, ◌==◌, eq_iff, Bool-cases,
  inl, inr, List, [], ◌∷◌, ◌++◌, map, if◌then◌else◌,
}
use zchat.Prelude.Int.{ℤ}
use zchat.Prelude.Exec.{failure, Result, ok, err, pure, continue, ◌>>◌}
use zchat.Store.Types.{Chat, Message, status_sent, status_failed}
use zchat.Store.ChatQueries.{get_chat}
use zchat.Store.Messages.{update_message_status, update_message_timestamp, update_message_sender}
use zchat.Wa.Session.{
  Session, Event, message_updated, chat_updated, sends, on_store, emit, quietly, tell, tell_on,
  publish_chat, announce_chat,
}
use zchat.Wa.Quiet.{Returns, Returns-pure, Returns-continue, Returns-from}
use zchat.Wa.Content.{WaMessage}
use zchat.Wa.Whatsmeow.{Whatsmeow}
use zchat.Wa.Lookup.{is_group_server}
use zchat.Wa.Lookup.Settled.{resolve_chat_name-Settles}
use zchat.Wa.Send.{
  with_sender, sent_row, SendResponse, corrects, correct_sender, preview_sent, touch_sent,
  finish_send, concluded, deliver,
}

-- A message with another status and all else as it is.
abbrev pub restated : String → Message → Message
restated status m = record {
  fields = record {
    id = m.id;
    chat_jid = m.chat_jid;
    sender = m.sender;
    sender_name = m.sender_name;
    body = m.body;
    type = m.type;
    timestamp = m.timestamp;
    outgoing = m.outgoing;
    status = status;
    forwarded = m.forwarded;
    reaction = m.reaction;
  };
  media = m.media;
  quoted = m.quoted;
}

-- A message as the server has taken it: sent, at the server's time, by the given sender, and all else
-- as it was recorded.
abbrev pub taken : ℤ → String → Message → Message
taken ts sender m = record {
  fields = record {
    id = m.id;
    chat_jid = m.chat_jid;
    sender = sender;
    sender_name = m.sender_name;
    body = m.body;
    type = m.type;
    timestamp = ts;
    outgoing = m.outgoing;
    status = status_sent;
    forwarded = m.forwarded;
    reaction = m.reaction;
  };
  media = m.media;
  quoted = m.quoted;
}

-- finishSend changes the sender only where it is another.
taken_lem :
    (empty : Bool) (ts : ℤ) (sender : String) (m : Message)
    → (if not empty && not (sender == m.sender)
        then with_sender sender (sent_row ts m)
        else sent_row ts m)
      ≡ taken ts (if empty then m.sender else sender) m
taken_lem true ts sender m = refl
taken_lem false ts sender m = elim (Bool-cases (sender == m.sender)) [
  | inl h ↦ rw h (ap (λ (x : String). taken ts x m) (sym ((eq_iff sender m.sender).0 h)))
  | inr h ↦ rw h refl
]

module _ (W : Whatsmeow) where
  open W use {Jid, to_string, to_non_ad, server, is_empty}

  -- The row as the server's answer leaves it; a sender that the server leaves empty stays as it was.
  abbrev pub final_row : SendResponse W → Message → Message
  final_row resp row =
      let sender = to_non_ad resp.sender in
      taken resp.timestamp (if is_empty sender then row.sender else to_string sender) row

  abbrev answered_row : SendResponse W → Message → Message
  answered_row resp row =
      if corrects W (to_non_ad resp.sender) (sent_row resp.timestamp row)
      then with_sender (to_string (to_non_ad resp.sender)) (sent_row resp.timestamp row)
      else sent_row resp.timestamp row

  answered_row-final :
      (resp : SendResponse W) (row : Message) → answered_row resp row ≡ final_row resp row
  answered_row-final resp row =
      taken_lem (is_empty (to_non_ad resp.sender)) resp.timestamp
        (to_string (to_non_ad resp.sender)) row

  corrected-Returns :
      (b : Bool) (sender : String) (row : Message) (s : Session)
      → Returns (if b then with_sender sender row else row) s (
          (if b
              then (quietly (on_store (update_message_sender row.id sender))
                  >> pure (with_sender sender row))
              else pure row)
            s)
  unfolding on_store
  corrected-Returns true sender row s = record { value = refl; events = refl; sent = refl }
  corrected-Returns false sender row s = Returns-pure row s

  -- finishSend always answers with the row, and publishes and sends nothing.
  finish_send-Returns :
      (row : Message) (jid : Jid) (resp : SendResponse W) (s : Session)
      → Returns (final_row resp row) s (finish_send W row jid resp s)
  unfolding finish_send on_store
  finish_send-Returns row jid resp s =
      let s1 = (on_store (update_message_timestamp row.id resp.timestamp) s).1 in
      let s2 = (on_store (update_message_status row.id status_sent) s1).1 in
      let sender = to_non_ad resp.sender in
      let sent = sent_row resp.timestamp row in
      let o = correct_sender W sender sent s2 in
      subst (λ (m : Message). Returns m s (finish_send W row jid resp s))
        (answered_row-final resp row)
        (Returns-from s2 refl refl (
          Returns-continue (preview_sent W jid)
            (corrected-Returns (corrects W sender sent) (to_string sender) sent s2)
            (Returns-continue (touch_sent W jid (answered_row resp row))
              (resolve_chat_name-Settles W jid (is_group_server (server jid)) o.1).1
              (record { value = refl; events = refl; sent = refl }))))

  -- A chat's publication: at most one update, and no request.
  record Published (s : Session) (o : Result (Unit {0}) × Session) : Type 0 where
    value : o.0 ≡ ok tt
    chats : List Chat
    events : o.1.events ≡ map chat_updated chats ++ s.events
    sent : o.1.sent ≡ s.sent

  announced : (r : Result Chat) (s : Session) → Published s (announce_chat r s)
  announced (ok c) s = record { value = refl; chats = c ∷ []; events = refl; sent = refl }
  announced (err e) s = record { value = refl; chats = []; events = refl; sent = refl }

  publish_chat-Published : (jid : String) (s : Session) → Published s (publish_chat jid s)
  unfolding publish_chat on_store
  publish_chat-Published jid s =
      let h = announced (get_chat jid s.conn).0 (record s { conn = (get_chat jid s.conn).1 }) in
      record { value = h.value; chats = h.chats; events = h.events; sent = h.sent }

  -- How the sending of a row ends: the client refuses it, and it is announced as failed; or the
  -- client takes it once, and it is announced as sent, with the server's time, before its chat.
  pub data Ends (what : String) (row : Message) (jid : Jid) (payload : WaMessage)
      (resp : SendResponse W) (s : Session) (out : Result Message × Session) : Type 0 where
    fails :
        out.0 ≡ err (failure what)
        → out.1.events ≡ message_updated (restated status_failed row) ∷ s.events
        → out.1.sent ≡ s.sent
        → Ends what row jid payload resp s out
    succeeds :
        (chats : List Chat)
        → out.0 ≡ ok (final_row resp row)
        → out.1.events ≡ map chat_updated chats ++ message_updated (final_row resp row) ∷ s.events
        → out.1.sent ≡ sends (to_string jid) row.id payload ∷ s.sent
        → Ends what row jid payload resp s out

  module _ (what : String) (row : Message) (jid : Jid) (payload : WaMessage)
      (resp : SendResponse W) where
    accepted :
        (s s' : Session)
        → s'.events ≡ s.events
        → s'.sent ≡ sends (to_string jid) row.id payload ∷ s.sent
        → Ends what row jid payload resp s (concluded W (ok tt) what row jid resp s')
    accepted s s' e d =
        let h = finish_send-Returns row jid resp s' in
        let m = final_row resp row in
        let t = (finish_send W row jid resp s').1 in
        let p =
          publish_chat-Published m.chat_jid (record t { events = message_updated m ∷ t.events }) in
        subst
          (λ (r : Result Message). Ends what row jid payload resp s (
            continue r
              (λ row'. emit (message_updated row') >> (publish_chat row'.chat_jid >> pure row')) t))
          (sym h.value)
          (subst
            (λ (r : Result (Unit {0})). Ends what row jid payload resp s (
              continue r (λ u. pure m)
                (publish_chat m.chat_jid (record t { events = message_updated m ∷ t.events })).1))
            (sym p.value)
            (succeeds p.chats refl
              (p.events
                ∙ ap (λ (es : List Event). map chat_updated p.chats ++ message_updated m ∷ es)
                    (h.events ∙ e))
              (p.sent ∙ h.sent ∙ d)))

    -- An accepted message is what the operation returns.
    pub concluded-accepted :
        (s : Session) → (concluded W (ok tt) what row jid resp s).0 ≡ ok (final_row resp row)
    concluded-accepted s =
        let h = finish_send-Returns row jid resp s in
        let m = final_row resp row in
        let t = (finish_send W row jid resp s).1 in
        let p =
          publish_chat-Published m.chat_jid (record t { events = message_updated m ∷ t.events }) in
        subst
          (λ (r : Result Message).
            (continue r
              (λ row'. emit (message_updated row') >> (publish_chat row'.chat_jid >> pure row'))
              t).0
            ≡ ok m)
          (sym h.value)
          (subst
            (λ (r : Result (Unit {0})).
              (continue r (λ u. pure m)
                (publish_chat m.chat_jid (record t { events = message_updated m ∷ t.events })).1).0
              ≡ ok m)
            (sym p.value) refl)

    told :
        (bs : List Bool) (s : Session)
        → let o = tell_on bs what (sends (to_string jid) row.id payload) s in
          Ends what row jid payload resp s (concluded W o.0 what row jid resp o.1)
    unfolding on_store
    told [] s = accepted s (record s { sent = _ }) refl refl
    told (true ∷ bs) s = fails refl refl refl
    told (false ∷ bs) s = accepted s (record s { sent = _; refusals = bs }) refl refl

    pub deliver-Ends :
        (s : Session) → Ends what row jid payload resp s (deliver W what row jid payload resp s)
    unfolding deliver tell
    deliver-Ends s = told s.refusals s
