-- ===== src/Wa/Send/Announced.antt =====
-- apps/daemon/wa: SendText, SendMedia, ForwardMessage, RetryText and RetryMedia announce a message as
-- pending, and then as failed or as sent.
use zchat.Prelude.{
  String, ◌≡◌, refl, ap, ◌∙◌, Bool, true, false, List, ◌∷◌, ◌++◌, map, if◌then◌else◌,
}
use zchat.Prelude.Exec.{Error, failure, Exec, Result, ok, err, continue, ◌>>=◌, ◌>>◌}
use zchat.Store.Types.{Chat, Message, status_failed, status_pending}
use zchat.Store.Messages.{insert_message, update_message_status}
use zchat.Wa.Session.{
  Session, Event, message_received, message_updated, chat_updated, Outgoing, sends, on_store, emit,
}
use zchat.Wa.Quiet.{Quiet, Quiet-on_store}
use zchat.Wa.Content.{WaMessage}
use zchat.Wa.Whatsmeow.{Whatsmeow}
use zchat.Wa.Send.{SendResponse, deliver, send_new, resend}
use zchat.Wa.Send.Outcome.{restated, final_row, Ends, fails, succeeds, deliver-Ends}

module _ (W : Whatsmeow) where
  open W use {Jid, parse_jid, to_string, to_non_ad, unmarshal, marshal}

  -- What a sending operation announces, where `opened` is the event of the pending row, `resp` the
  -- server's answer, and `Fits` says which row goes to which JID with which payload. The operation
  -- returns an error and is silent; or it returns an error, and a fitting row is announced as pending
  -- and then as failed; or it returns the row as the server has taken it, which was announced as
  -- pending, was sent by the client once, to the JID, under the row's id and with the payload, and was
  -- announced as it is returned.
  pub data Sends (opened : Message → Event) (resp : SendResponse W)
      (Fits : Message → Jid → WaMessage → Type 0) (s : Session) (out : Result Message × Session)
      : Type 0 where
    silent :
        (e : Error)
        → out.0 ≡ err e
        → out.1.events ≡ s.events
        → out.1.sent ≡ s.sent
        → Sends opened resp Fits s out
    failed :
        (e : Error) (row : Message) (jid : Jid) (payload : WaMessage)
        → Fits row jid payload
        → row.status ≡ status_pending
        → out.0 ≡ err e
        → out.1.events ≡ message_updated (restated status_failed row) ∷ opened row ∷ s.events
        → out.1.sent ≡ s.sent
        → Sends opened resp Fits s out
    sent :
        (row : Message) (jid : Jid) (payload : WaMessage) (chats : List Chat)
        → Fits row jid payload
        → row.status ≡ status_pending
        → out.0 ≡ ok (final_row W resp row)
        → out.1.events
          ≡ map chat_updated chats ++ message_updated (final_row W resp row) ∷ opened row ∷ s.events
        → out.1.sent ≡ sends (to_string jid) row.id payload ∷ s.sent
        → Sends opened resp Fits s out

  module _ (opened : Message → Event) (resp : SendResponse W)
      (Fits : Message → Jid → WaMessage → Type 0) where
    pub Sends-raise : (e : Error) (s : Session) → Sends opened resp Fits s (err e, s)
    Sends-raise e s = silent e refl refl refl

    pub Sends-if :
        (b : Bool) (e : Error) (s : Session) (o : Result Message × Session)
        → Sends opened resp Fits s o
        → Sends opened resp Fits s (if b then (err e, s) else o)
    Sends-if true e s o h = Sends-raise e s
    Sends-if false e s o h = h

    -- From a later state with the same events and requests.
    pub Sends-from :
        (s s' : Session) (out : Result Message × Session)
        → s'.events ≡ s.events
        → s'.sent ≡ s.sent
        → Sends opened resp Fits s' out
        → Sends opened resp Fits s out
    Sends-from s s' out e d (silent x p q r) = silent x p (q ∙ e) (r ∙ d)
    Sends-from s s' out e d (failed x row jid payload fit k p q r) =
        failed x row jid payload fit k p
          (q
            ∙ ap
                (λ (es : List Event).
                  message_updated (restated status_failed row) ∷ opened row ∷ es)
                e)
          (r ∙ d)
    Sends-from s s' out e d (sent row jid payload chats fit k p q r) =
        sent row jid payload chats fit k p
          (q
            ∙ ap
                (λ (es : List Event).
                  map chat_updated chats
                  ++ message_updated (final_row W resp row) ∷ opened row ∷ es)
                e)
          (r ∙ ap (λ (es : List Outgoing). sends (to_string jid) row.id payload ∷ es) d)

    Sends-continue :
        {A : Type 0} (s s' : Session) (r : Result A) (f : A → Exec Session Message)
        → s'.events ≡ s.events
        → s'.sent ≡ s.sent
        → ((a : A) → r ≡ ok a → Sends opened resp Fits s' (f a s'))
        → Sends opened resp Fits s (continue r f s')
    Sends-continue s s' (ok a) f e d h = Sends-from s s' _ e d (h a refl)
    Sends-continue s s' (err x) f e d h = silent x refl e d

    -- A first step that is quiet, and what is done with its value.
    pub Sends->>= :
        {A : Type 0} (m : Exec Session A) (f : A → Exec Session Message) (s : Session)
        → Quiet s (m s)
        → ((a : A) → (m s).0 ≡ ok a → Sends opened resp Fits (m s).1 (f a (m s).1))
        → Sends opened resp Fits s ((m >>= f) s)
    Sends->>= m f s q h = Sends-continue s (m s).1 (m s).0 f q.events q.sent h

    -- The opening event, then the delivery.
    Sends-deliver :
        (what : String) (row : Message) (jid : Jid) (payload : WaMessage) (s : Session)
        → Fits row jid payload
        → row.status ≡ status_pending
        → Sends opened resp Fits s ((emit (opened row) >> deliver W what row jid payload resp) s)
    Sends-deliver what row jid payload s fit k =
        ended
          (deliver-Ends W what row jid payload resp (record s { events = opened row ∷ s.events }))
      where
        ended :
            {out : Result Message × Session}
            → Ends W what row jid payload resp (record s { events = opened row ∷ s.events }) out
            → Sends opened resp Fits s out
        ended (fails p q r) = failed (failure what) row jid payload fit k p q r
        ended (succeeds chats p q r) = sent row jid payload chats fit k p q r

  module _ (resp : SendResponse W) (Fits : Message → Jid → WaMessage → Type 0) where
    pub send_new-Sends :
        (what : String) (row : Message) (jid : Jid) (payload : WaMessage) (s : Session)
        → Fits row jid payload
        → row.status ≡ status_pending
        → Sends message_received resp Fits s (send_new W what row jid payload resp s)
    unfolding send_new
    send_new-Sends what row jid payload s fit k =
        Sends->>= message_received resp Fits (on_store (insert_message row)) _ s
          (Quiet-on_store (insert_message row) s)
          (λ u e. Sends-deliver message_received resp Fits what row jid payload _ fit k)

    pub resend-Sends :
        (what : String) (row : Message) (jid : Jid) (payload : WaMessage) (s : Session)
        → Fits (restated status_pending row) jid payload
        → Sends message_updated resp Fits s (resend W what row jid payload resp s)
    unfolding resend
    resend-Sends what row jid payload s fit =
        Sends->>= message_updated resp Fits (on_store (update_message_status row.id status_pending))
          _ s (Quiet-on_store (update_message_status row.id status_pending) s)
          (λ u e.
            Sends-deliver message_updated resp Fits what (restated status_pending row) jid payload _
              fit refl)
