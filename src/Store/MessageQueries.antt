-- ===== src/Store/MessageQueries.antt =====
-- apps/daemon/store/store.go: the queries on the `messages` and `media` tables.
use zchat.Prelude.{
  ℕ, String, Bool, ◌&&◌, ◌||◌, not, List, [], Option, none, some, ◌==◌, if◌then◌else◌, map, reverse,
  select,
}
use zchat.Prelude.Int.{ℤ, pos, ltb_ℤ, eqb_ℤ}
use zchat.Prelude.Exec.{not_found, ok, err}
use zchat.Prelude.Rows.{find}
use zchat.Prelude.Sort.{sort}
use zchat.Store.Types.{Quoted, Media, Message, MessageRow, MediaRow, MessageRef}
use zchat.Store.Db.{Sql, query}
use zchat.Store.Like.{is_like_escaped, search_pattern}
use zchat.Store.Chats.{in_chat}
use zchat.Store.ChatQueries.{limited}
use zchat.Store.Messages.{message_id, media_id, newer}

-- scanMessage: the columns of messageColumns do not include the payload.
unfoldable pub scan_media : MessageRow → Option MediaRow → Option Media
scan_media m none = none
scan_media m (some md) = some (record md.media { message_id = m.id; payload = [] })

unfoldable pub scan_quoted : Quoted → Option Quoted
scan_quoted q = if q.id == "" then none else some q

-- One row of messageColumns, joined with its media row and scanned.
unfoldable pub scan_message : List MediaRow → MessageRow → Message
unfolding find scan_media scan_quoted
scan_message media m = record {
  fields = m.fields;
  media = scan_media m (find media_id m.id media);
  quoted = scan_quoted m.quote;
}

-- The `WHERE` of ListMessages.
unfoldable pub page_matches : String → ℤ → MessageRow → Bool
page_matches jid before m = in_chat jid m && (eqb_ℤ before (pos 0) || ltb_ℤ m.timestamp before)

unfoldable pub page_rows : String → ℤ → ℤ → List MessageRow → List MessageRow
page_rows jid limit before ms = limited limit (sort newer (select (page_matches jid before) ms))

-- ListMessages: the page is read newest first and reversed in place.
unfoldable pub list_messages : String → ℤ → ℤ → Sql (List Message)
list_messages jid limit before =
    query "list messages"
      λ db. ok (reverse (map (scan_message db.media) (page_rows jid limit before db.messages)))

-- GetMessage
unfoldable pub get_message : String → Sql Message
get_message id = query "get message" λ db. elim (find message_id id db.messages) [
  | none ↦ err not_found
  | some m ↦ ok (scan_message db.media m)
]

-- MediaPayload
unfoldable pub media_payload : String → Sql (List ℕ × String)
media_payload id = query "read media payload" λ db. elim (find media_id id db.media) [
  | none ↦ err not_found
  | some m ↦ ok (m.media.payload, m.media.path)
]

-- RecentIncoming
unfoldable pub recent_incoming : String → ℤ → Sql (List MessageRef)
recent_incoming jid limit = query "list incoming" λ db. ok (
    map (λ m. record { id = m.id; sender = m.sender })
      (limited limit (sort newer (select (λ m. in_chat jid m && not m.outgoing) db.messages))))

-- The `WHERE` of SearchMessages.
unfoldable pub message_matches : String → String → MessageRow → Bool
unfolding is_like_escaped search_pattern
message_matches q jid m = (jid == "" || in_chat jid m) && is_like_escaped (search_pattern q) m.body

-- SearchMessages
unfoldable pub search_messages : String → String → ℤ → Sql (List Message)
search_messages q jid limit = query "search messages" λ db. ok (
    map (scan_message db.media)
      (limited limit (sort newer (select (message_matches q jid) db.messages))))
