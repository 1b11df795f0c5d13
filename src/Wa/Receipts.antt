-- ===== src/Wa/Receipts.antt =====
-- apps/daemon/wa/session.go, onReceipt: delivery receipts update the stored messages.
use native.Mathlib.Nat.{le_refl, le_trans}
use zchat.Prelude.{
  ℕ, ◌≤◌, String, ◌≡◌, refl, sym, ap, ◌∙◌, subst, List, [], ◌∷◌, Option, none, some,
}
use zchat.Prelude.Exec.{Result, ok, err}
use zchat.Store.Types.{Message, status_rank, status_delivered, status_read}
use zchat.Store.Db.{Db, Conn}
use zchat.Store.Messages.{update_message_status}
use zchat.Store.MessageQueries.{get_message}
use zchat.Store.Status.Receipts.{stored_rank, stored_rank-le}
use zchat.Wa.Session.{Session, message_updated, on_store, emit}
use zchat.Wa.Actions.Deletion.{get_message-db}

-- types.ReceiptType, as onReceipt tells them apart.
pub data ReceiptType : Type 0 where
  delivered read read_self other : ReceiptType

unfoldable pub receipt_status : ReceiptType → Option String
receipt_status delivered = some status_delivered
receipt_status read = some status_read
receipt_status read_self = some status_read
receipt_status other = none

abbrev pub announce_message : Result Message → Session → Session
announce_message (ok m) s = (emit (message_updated m) s).1
announce_message (err e) s = s

abbrev pub after_update : Result (Unit {0}) → String → Session → Session
after_update (ok t) id s = let (r, s') = on_store (get_message id) s in announce_message r s'
after_update (err e) id s = s

-- One round of the loop; its errors are only logged.
unfoldable pub receive_one : String → String → Session → Session
receive_one status id s =
    let (r, s') = on_store (update_message_status id status) s in after_update r id s'

abbrev pub receive_all : String → List String → Session → Session
receive_all status [] s = s
receive_all status (id ∷ ids) s = receive_all status ids (receive_one status id s)

abbrev pub receive : Option String → List String → Session → Session
receive none ids s = s
receive (some status) ids s = receive_all status ids s

-- onReceipt
unfoldable pub on_receipt : ReceiptType → List String → Session → Session
on_receipt t ids s = receive (receipt_status t) ids s

announce_message-conn : (r : Result Message) (s : Session) → (announce_message r s).conn ≡ s.conn
announce_message-conn (ok m) s = refl
announce_message-conn (err e) s = refl

after_update-db :
    (r : Result (Unit {0})) (id : String) (s : Session) → (after_update r id s).conn.db ≡ s.conn.db
unfolding on_store
after_update-db (ok t) id s =
    ap (λ (c : Conn). c.db) (announce_message-conn (get_message id s.conn).0 _)
    ∙ get_message-db id s.conn
after_update-db (err e) id s = refl

receive_one-le :
    (status id k : String) (rank : ℕ) (s : Session)
    → status_rank status ≡ some rank
    → stored_rank k s.conn.db ≤ stored_rank k (receive_one status id s).conn.db
unfolding receive_one on_store
receive_one-le status id k rank s p =
    let o = update_message_status id status s.conn in
    subst (λ (d : Db). stored_rank k s.conn.db ≤ stored_rank k d)
      (sym (after_update-db o.0 id (record s { conn = o.1 })))
      (stored_rank-le id status k rank s.conn p)

receive_all-le :
    (status k : String) (rank : ℕ) (ids : List String) (s : Session)
    → status_rank status ≡ some rank
    → stored_rank k s.conn.db ≤ stored_rank k (receive_all status ids s).conn.db
receive_all-le status k rank [] s p = le_refl (stored_rank k s.conn.db)
receive_all-le status k rank (id ∷ ids) s p =
    le_trans (receive_one-le status id k rank s p)
      (receive_all-le status k rank ids (receive_one status id s) p)

-- No receipt lowers the rank of any message's status, whatever its type and the messages that it
-- names, and whichever statements the driver refuses.
pub on_receipt-le :
    (t : ReceiptType) (ids : List String) (k : String) (s : Session)
    → stored_rank k s.conn.db ≤ stored_rank k (on_receipt t ids s).conn.db
unfolding on_receipt receipt_status status_rank
on_receipt-le delivered ids k s = receive_all-le status_delivered k 3 ids s refl
on_receipt-le read ids k s = receive_all-le status_read k 4 ids s refl
on_receipt-le read_self ids k s = receive_all-le status_read k 4 ids s refl
on_receipt-le other ids k s = le_refl (stored_rank k s.conn.db)
