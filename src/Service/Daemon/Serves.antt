-- ===== src/Service/Daemon/Serves.antt =====
-- apps/daemon/service: rules for handlers that leave consistent tables.
use zchat.Prelude.{String, Bool, true, false, not, ◌&&◌, List, [], ◌∷◌, ◌==◌, if◌then◌else◌}
use zchat.Prelude.Int.{ℤ, pos, ltb_ℤ, eqb_ℤ}
use zchat.Prelude.Exec.{Error, Exec, Result, ok, err, pure, ◌>>=◌}
use zchat.Store.Types.{Chat, Message}
use zchat.Store.Consistent.{IsConsistent}
use zchat.Store.ChatQueries.{get_chat}
use zchat.Store.MessageQueries.{get_message}
use zchat.Store.Calls.{perform, clears_unread}
use zchat.Wa.Session.{Session, on_store, announce_chat, quietly}
use zchat.Wa.Whatsmeow.{Whatsmeow}
use zchat.Wa.Lookup.{display_name}
use zchat.Wa.Upholds.{
  Upholds, Upholds-pure, Upholds-value, Upholds-test, Upholds-call, Upholds->>=, Upholds-then,
  Upholds-quietly, Upholds-get_chat,
}
use zchat.Wa.Upholds.Names.{Upholds-display_name, Upholds-mark_read}
use zchat.Wa.Upholds.Sending.{Upholds-get_message}
use zchat.Service.Reply.{Reply, Handler, answer, checked}
use zchat.Service.Reads.{
  fill_name, fill_names, named, send_receipts, after_clear, clear_chat, clear_found, clear_on_open,
  open_chat,
}
use zchat.Service.Writes.{retry_found, retry_with, publish_download}

-- A handler that leaves consistent tables where it finds such tables.
pub record Serves {A : Type 0} (h : Handler A) : Type 0 where
  pub at : (s : Session) → IsConsistent s.conn.db → IsConsistent (h s).1.conn.db

pub Serves-answer :
    {A B : Type 0} (code : Error → _) (f : A → B) (m : Exec Session A)
    → Upholds m
    → Serves (answer code f m)
Serves-answer code f m hm = record { at = hm.at }

pub Serves-checked : {A : Type 0} (b : Bool) (h : Handler A) → Serves h → Serves (checked b h)
Serves-checked true h hh = record { at = hh.at }
Serves-checked false h hh = record { at = λ s k. k }

pub Serves-test :
    {A : Type 0} (b : Bool) (r : Reply A) (h : Handler A)
    → Serves h
    → Serves (λ s. if b then (r, s) else h s)
Serves-test true r h hh = record { at = λ s k. k }
Serves-test false r h hh = record { at = hh.at }

module _ (W : Whatsmeow) where
  Upholds-fill_name : (m : Message) → Upholds (fill_name W m)
  Upholds-fill_name m =
      Upholds-value (m.sender_name == "" && not m.outgoing) _ (pure m)
        (Upholds->>= (display_name W m.sender) (λ name. pure (named W name m))
          (Upholds-display_name W m.sender) (λ name. Upholds-pure _))
        (Upholds-pure m)

  pub Upholds-fill_names : (ms : List Message) → Upholds (fill_names W ms)
  unfolding fill_names
  Upholds-fill_names [] = record { at = λ s h. h }
  Upholds-fill_names (m ∷ ms) = record {
    at =
        (Upholds->>= (fill_name W m) (λ out. fill_names W ms >>= λ outs. pure (out ∷ outs))
          (Upholds-fill_name m)
          (λ out.
            Upholds->>= (fill_names W ms) (λ outs. pure (out ∷ outs)) (Upholds-fill_names ms)
              (λ outs. Upholds-pure _))).at;
  }

  Upholds-announce : (r : Result Chat) → Upholds (announce_chat r)
  Upholds-announce (ok c) = record { at = λ s h. h }
  Upholds-announce (err e) = record { at = λ s h. h }

  Upholds-after_clear : (r : Result (Unit {0})) (jid : String) → Upholds (after_clear W r jid)
  Upholds-after_clear (err e) jid = record { at = λ s h. h }
  Upholds-after_clear (ok t) jid =
      Upholds-then (on_store (get_chat jid)) announce_chat (Upholds-get_chat jid) Upholds-announce

  Upholds-clear_found : (r : Result Chat) (jid : String) → Upholds (clear_found W r jid)
  unfolding perform
  Upholds-clear_found (err e) jid = record { at = λ s h. h }
  Upholds-clear_found (ok chat) jid =
      Upholds-test (λ s. ltb_ℤ (pos 0) chat.unread) (clear_chat W jid chat) (pure tt)
        (Upholds-then (on_store (perform (clears_unread jid)))
          (λ r s. quietly (send_receipts W jid chat.unread) (after_clear W r jid s).1)
          (Upholds-call (clears_unread jid))
          (λ r.
            Upholds-then (after_clear W r jid) (λ t. quietly (send_receipts W jid chat.unread))
              (Upholds-after_clear r jid)
              (λ t. Upholds-quietly _ (Upholds-mark_read _ _ jid chat.unread))))
        (Upholds-pure tt)

  pub Upholds-open_chat : (jid : String) (before : ℤ) → Upholds (open_chat W jid before)
  unfolding clear_on_open
  Upholds-open_chat jid before =
      Upholds-value (eqb_ℤ before (pos 0)) (clear_on_open W jid) (pure tt)
        (Upholds-then (on_store (get_chat jid)) (λ r. clear_found W r jid) (Upholds-get_chat jid)
          (λ r. Upholds-clear_found r jid))
        (Upholds-pure tt)

  pub Serves-retry :
      (fit : Message → Bool) (retry : Message → Exec Session Message) (id : String)
      → ((m : Message) → Upholds (retry m))
      → Serves (retry_with W fit retry id)
  Serves-retry fit retry id k = record {
    at = λ s h. found (on_store (get_message id) s).0 _ ((Upholds-get_message id).at s h);
  }
    where
      found :
          (r : Result Message) (t : Session)
          → IsConsistent t.conn.db
          → IsConsistent (retry_found W fit retry r t).1.conn.db
      found (err e) t h = h
      found (ok m) t h =
          (Serves-checked (fit m) (answer _ (λ out. out) (retry m))
              (Serves-answer _ (λ out. out) (retry m) (k m))).at
            t h

  pub published-IsConsistent :
      (r : Result Message) (t : Session)
      → IsConsistent t.conn.db
      → IsConsistent (publish_download W r t).1.conn.db
  published-IsConsistent (err e) t h = h
  published-IsConsistent (ok m) t h = h
