-- ===== src/Store/Inserted.antt =====
-- apps/daemon/store/store.go: a row right after its insertion, and after an update by its key.
use mathlib.Core.Option
use zchat.Prelude.{
  String, ◌≡◌, refl, sym, ap, ◌∙◌, subst, Bool, true, List, Option, none, some, eq_refl, eq_iff,
  arith, if◌then◌else◌,
}
use zchat.Prelude.Rows.{
  find, update, upsert, key-find, find-update, find-upsert, IsUnique, upsert-IsUnique,
}
use zchat.Store.Types.{Media, Message, MessageRow}
use zchat.Store.Db.{Db, exec, transaction}
use zchat.Store.Messages.{
  message_id, has_id, message_row, add_message_rows, add_media_rows, insert_message,
  insert_message_tx,
}
use zchat.Store.Atomic.{insert_rows, insert_media_rows}
use zchat.Prelude.Exec.{ok}
use zchat.Store.Status.{calm}

-- The row of a key after an update by that key.
pub find_changed :
    (id : String) (g : MessageRow → MessageRow) (ms : List MessageRow) (r : MessageRow)
    → ((m : MessageRow) → message_id (g m) ≡ message_id m)
    → find message_id id ms ≡ some r
    → find message_id id (update (has_id id) g ms) ≡ some (g r)
find_changed id g ms r keep f =
    find-update message_id g keep (has_id id) id ms
    ∙ ap (Option.map (λ x. if has_id id x then g x else x)) f
    ∙ ap (λ (b : Bool). some (if b then g r else r)) (same (key-find message_id id ms r f))
  where
    same : message_id r ≡ id → has_id id r ≡ true
    same e = ground (arith, eq_iff (message_id r) id, e)

pub insert_message-calm :
    (m : Message) (o : Option Media) (db : Db)
    → m.media ≡ o
    → insert_message m (calm db) ≡ (ok tt, calm (insert_rows m db))
unfolding insert_message insert_message_tx transaction exec
insert_message-calm m none db e = rw e
insert_message-calm m (some md) db e = rw e

pub messages_inserted :
    (m : Message) (o : Option Media) (db : Db)
    → (insert_media_rows m o (add_message_rows m db)).messages
      ≡ upsert message_id (message_row m) (λ r. r) db.messages
unfolding add_message_rows add_media_rows
messages_inserted m none db = refl
messages_inserted m (some md) db = refl

pub found_inserted :
    (m : Message) (db : Db)
    → find message_id m.id db.messages ≡ none
    → find message_id m.id (insert_rows m db).messages ≡ some (message_row m)
found_inserted m db f =
    rw
      (
        messages_inserted m m.media db,
        find-upsert message_id (λ r. r) (λ r. refl) m.id (message_row m) db.messages,
      )
      (unfold message_row in rw (eq_refl, f))

pub inserted-IsUnique :
    (m : Message) (db : Db)
    → IsUnique message_id db.messages
    → IsUnique message_id (insert_rows m db).messages
inserted-IsUnique m db u =
    subst (IsUnique message_id) (sym (messages_inserted m m.media db))
      (upsert-IsUnique message_id (λ r. r) (λ r. refl) (message_row m) db.messages u)
