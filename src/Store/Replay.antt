-- ===== src/Store/Replay.antt =====
-- apps/daemon/store/store.go, InsertMessages: a replay changes nothing.
use zchat.Prelude.{
  String, ◌≡◌, refl, sym, ap, subst, ◌∙◌, Bool, true, List, [], ◌∷◌, Option, none, some, arith,
  eq_iff, All, is_some, eq_refl,
}
use zchat.Prelude.Exec.{ok, Result, for_each}
use zchat.Store.Db.Atomic.{AllOrNothing, nothing, everything}
use zchat.Prelude.Rows.{find, upsert, find-upsert}
use zchat.Store.Types.{Message, MessageRow, Media}
use zchat.Store.Db.{Db, Conn, exec, transaction}
use zchat.Store.Atomic.{insert_messages-AllOrNothing, insert_rows, insert_all, insert_media_rows}
use zchat.Store.Messages.{
  insert_messages, message_id, media_id, message_row, media_row, add_message_rows, add_media_rows,
  insert_message_tx,
}
use zchat.Store.Status.{calm}
use zchat.Store.Inserted.{messages_inserted}

-- The message and the attachment that it brings are stored.
abbrev media_stored : Message → Option Media → Db → Bool
media_stored m none db = true
media_stored m (some md) db = is_some (find media_id m.id db.media)

abbrev IsStored : Message → Db → Type 0
IsStored m db =
    (is_some (find message_id m.id db.messages) ≡ true) × (media_stored m m.media db ≡ true)

upsert_present :
    {A : Type 0} (key : A → String) (r : A) (xs : List A)
    → is_some (find key (key r) xs) ≡ true
    → upsert key r (λ x. x) xs ≡ xs
unfolding find upsert
upsert_present key r [] h = cc
upsert_present key r (x ∷ xs) h = ground (arith, upsert_present key r xs)

upsert_grows :
    {A : Type 0} (key : A → String) (r : A) (k : String) (xs : List A)
    → is_some (find key k xs) ≡ true
    → is_some (find key k (upsert key r (λ x. x) xs)) ≡ true
upsert_grows key r k xs h = ground (arith, find-upsert key (λ x. x) (λ x. refl) k r xs)

upsert_self :
    {A : Type 0} (key : A → String) (r : A) (xs : List A)
    → is_some (find key (key r) (upsert key r (λ x. x) xs)) ≡ true
upsert_self key r xs =
    ground (arith, find-upsert key (λ x. x) (λ x. refl) (key r) r xs, eq_refl (key r))

-- Inserting a message that is stored changes nothing.
insert_stored :
    (m : Message) (o : Option Media) (db : Db)
    → (is_some (find message_id m.id db.messages) ≡ true)
    → media_stored m o db ≡ true
    → insert_media_rows m o (add_message_rows m db) ≡ db
unfolding add_message_rows add_media_rows message_row
insert_stored m none db h k =
    λ i. record db { messages = upsert_present message_id (message_row m) db.messages h i }
insert_stored m (some md) db h k = λ i. record db {
  messages = upsert_present message_id (message_row m) db.messages h i;
  media = upsert_present media_id (media_row m md) db.media k i;
}

stored_after :
    (m : Message) (o : Option Media) (db : Db)
    → (is_some (find message_id m.id (insert_media_rows m o (add_message_rows m db)).messages)
        ≡ true)
      × (media_stored m o (insert_media_rows m o (add_message_rows m db)) ≡ true)
unfolding add_message_rows add_media_rows message_row
stored_after m none db = (upsert_self message_id (message_row m) db.messages, refl)
stored_after m (some md) db = (
  upsert_self message_id (message_row m) db.messages,
  upsert_self media_id (media_row m md) db.media,
)

stays_stored :
    (m n : Message) (o p : Option Media) (db : Db)
    → (is_some (find message_id m.id db.messages) ≡ true) × (media_stored m o db ≡ true)
    → (is_some (find message_id m.id (insert_media_rows n p (add_message_rows n db)).messages)
        ≡ true)
      × (media_stored m o (insert_media_rows n p (add_message_rows n db)) ≡ true)
unfolding add_message_rows add_media_rows message_row
stays_stored m n none none db h =
    (upsert_grows message_id (message_row n) m.id db.messages h.0, refl)
stays_stored m n none (some q) db h =
    (upsert_grows message_id (message_row n) m.id db.messages h.0, refl)
stays_stored m n (some md) none db h =
    (upsert_grows message_id (message_row n) m.id db.messages h.0, h.1)
stays_stored m n (some md) (some q) db h = (
  upsert_grows message_id (message_row n) m.id db.messages h.0,
  upsert_grows media_id (media_row n q) m.id db.media h.1,
)

batch_keeps :
    (m : Message) (ms : List Message) (db : Db) → IsStored m db → IsStored m (insert_all ms db)
batch_keeps m [] db h = h
batch_keeps m (n ∷ ns) db h =
    batch_keeps m ns (insert_rows n db) (stays_stored m n m.media n.media db h)

All-keeps :
    (xs ms : List Message) (db : Db)
    → All (λ m. IsStored m db) xs
    → All (λ m. IsStored m (insert_all ms db)) xs
All-keeps [] ms db h = tt
All-keeps (x ∷ xs) ms db h = (batch_keeps x ms db h.0, All-keeps xs ms db h.1)

batch-IsStored : (ms : List Message) (db : Db) → All (λ m. IsStored m (insert_all ms db)) ms
batch-IsStored [] db = tt
batch-IsStored (m ∷ ms) db = (
  batch_keeps m ms (insert_rows m db) (stored_after m m.media db),
  batch-IsStored ms (insert_rows m db),
)

insert_all_stored :
    (ms : List Message) (db : Db) → All (λ m. IsStored m db) ms → insert_all ms db ≡ db
insert_all_stored [] db h = refl
insert_all_stored (m ∷ ms) db h =
    rw (insert_stored m m.media db h.0.0 h.0.1) (insert_all_stored ms db h.1)

insert_all_idem :
    (ms : List Message) (db : Db) → insert_all ms (insert_all ms db) ≡ insert_all ms db
insert_all_idem ms db = insert_all_stored ms (insert_all ms db) (batch-IsStored ms db)

upsert_taken :
    {A : Type 0} (key : A → String) (x : A) (k : String) (xs : List A) (r : A)
    → find key k xs ≡ some r
    → find key k (upsert key x (λ y. y) xs) ≡ some r
upsert_taken key x k xs r h =
    ground (arith, find-upsert key (λ y. y) (λ y. refl) k x xs, eq_iff (key x) k)

find-insert_all :
    (ms : List Message) (db : Db) (k : String) (r : MessageRow)
    → find message_id k db.messages ≡ some r
    → find message_id k (insert_all ms db).messages ≡ some r
find-insert_all [] db k r h = h
find-insert_all (m ∷ ms) db k r h = find-insert_all ms (insert_rows m db) k r (
    rw (messages_inserted m m.media db) (upsert_taken message_id (message_row m) k db.messages r h))

insert_message_tx-calm :
    (m : Message) (o : Option Media) (db : Db)
    → m.media ≡ o
    → insert_message_tx m (calm db) ≡ (ok tt, calm (insert_rows m db))
unfolding insert_message_tx exec
insert_message_tx-calm m none db e = rw e
insert_message_tx-calm m (some md) db e = rw e

for_each-calm :
    (ms : List Message) (db : Db)
    → for_each ms insert_message_tx (calm db) ≡ (ok tt, calm (insert_all ms db))
for_each-calm [] db = refl
for_each-calm (m ∷ ms) db =
    rw (insert_message_tx-calm m m.media db refl) (for_each-calm ms (insert_rows m db))

insert_messages-calm :
    (ms : List Message) (db : Db) → insert_messages ms (calm db) ≡ (ok tt, calm (insert_all ms db))
unfolding insert_messages transaction
insert_messages-calm [] db = refl
insert_messages-calm (m ∷ ms) db = rw (for_each-calm (m ∷ ms) db)

-- History sync may deliver a batch again: where the driver refuses nothing, the second InsertMessages
-- succeeds and changes no table.
pub insert_messages_idem :
    (ms : List Message) (db : Db)
    → insert_messages ms (insert_messages ms (calm db)).1
      ≡ (ok tt, (insert_messages ms (calm db)).1)
insert_messages_idem ms db =
    subst (λ (c : Conn). insert_messages ms c ≡ (ok tt, c))
      (sym (ap (λ (o : Result (Unit {0}) × Conn). o.1) (insert_messages-calm ms db)))
      (insert_messages-calm ms (insert_all ms db)
        ∙ ap (λ (d : Db). (ok tt, calm d)) (insert_all_idem ms db))

-- A batch changes no message that is stored already, whatever statements the driver refuses: an id
-- that is taken keeps its row.
pub insert_messages_keeps :
    (ms : List Message) (c : Conn) (k : String) (r : MessageRow)
    → find message_id k c.db.messages ≡ some r
    → find message_id k (insert_messages ms c).1.db.messages ≡ some r
insert_messages_keeps ms c k r h = kept (insert_messages-AllOrNothing ms c)
  where
    kept :
        AllOrNothing (insert_all ms) c.db (insert_messages ms c)
        → find message_id k (insert_messages ms c).1.db.messages ≡ some r
    kept (nothing e p d) = rw d h
    kept (everything a p d) = rw d (find-insert_all ms c.db k r h)
