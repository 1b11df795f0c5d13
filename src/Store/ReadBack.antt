-- ===== src/Store/ReadBack.antt =====
-- apps/daemon/store/store.go, InsertMessage and GetMessage: what is stored is read back.
use zchat.Prelude.{◌≡◌, refl, sym, ap, subst, [], Option, none, some, ◌==◌, if◌then◌else◌, eq_refl}
use zchat.Prelude.Exec.{ok, Result}
use zchat.Prelude.Rows.{find, find-upsert}
use zchat.Store.Types.{Message, Media, Quoted}
use zchat.Store.Db.{Db, Conn, query}
use zchat.Store.Consistent.{IsConsistent}
use zchat.Store.Atomic.{insert_rows, insert_media_rows}
use zchat.Store.Messages.{
  message_id, media_id, message_row, media_row, add_message_rows, add_media_rows, insert_message,
  quote_or_empty,
}
use zchat.Store.MessageQueries.{get_message, scan_message, scan_media, scan_quoted}
use zchat.Store.Status.{calm}
use zchat.Store.Inserted.{insert_message-calm, found_inserted}

-- What a reader sees of a stored message: the media row under the message's id and without its
-- payload, and no quote where the quoted id is empty.
abbrev pub read_media : Message → Option Media → Option Media
read_media m none = none
read_media m (some md) = some (record md { message_id = m.id; payload = [] })

abbrev pub read_quoted : Option Quoted → Option Quoted
read_quoted none = none
read_quoted (some q) = if q.id == "" then none else some q

abbrev pub as_read : Message → Message
as_read m = record m { media = read_media m m.media; quoted = read_quoted m.quoted }

quoted_read : (q : Option Quoted) → scan_quoted (quote_or_empty q) ≡ read_quoted q
unfolding scan_quoted
quoted_read none = refl
quoted_read (some q) = refl

media_read :
    (m : Message) (o : Option Media) (db : Db)
    → find media_id m.id db.media ≡ none
    → scan_media
        (message_row m)
        (find media_id m.id (insert_media_rows m o (add_message_rows m db)).media)
      ≡ read_media m o
unfolding add_message_rows add_media_rows scan_media message_row
media_read m none db f = rw f
media_read m (some md) db f =
    rw (find-upsert media_id (λ r. r) (λ r. refl) m.id (media_row m md) db.media, eq_refl, f)

scan_inserted :
    (m : Message) (db : Db)
    → find media_id m.id db.media ≡ none
    → scan_message (insert_rows m db).media (message_row m) ≡ as_read m
unfolding scan_message message_row
scan_inserted m db f = λ i. record {
  fields = m.fields;
  media = media_read m m.media db f i;
  quoted = quoted_read m.quoted i;
}

get_inserted :
    (m : Message) (db : Db)
    → IsConsistent db
    → find message_id m.id db.messages ≡ none
    → get_message m.id (calm (insert_rows m db)) ≡ (ok (as_read m), calm (insert_rows m db))
unfolding get_message query
get_inserted m db h f =
    rw (found_inserted m db f)
      (ap (λ (x : Message). (ok x, calm (insert_rows m db))) (scan_inserted m db (h.owned m.id f)))

-- Where the tables are consistent and the driver refuses no statement, a message with a new id is read
-- back as it was stored: with its fields, its attachment but for the payload, and its quote if that
-- has an id.
pub get-insert_message :
    (m : Message) (db : Db)
    → IsConsistent db
    → find message_id m.id db.messages ≡ none
    → get_message m.id (insert_message m (calm db)).1
      ≡ (ok (as_read m), (insert_message m (calm db)).1)
get-insert_message m db h f =
    subst (λ (c : Conn). get_message m.id c ≡ (ok (as_read m), c))
      (sym (ap (λ (o : Result (Unit {0}) × Conn). o.1) (insert_message-calm m m.media db refl)))
      (get_inserted m db h f)
