-- ===== src/Wa/Session.antt =====
-- apps/daemon/wa/session.go: what the session's handlers work on, and the publication of a chat.
use zchat.Prelude.{String, Bool, true, false, List, [], ◌∷◌, Option, none, some}
use zchat.Prelude.Int.{ℤ}
use zchat.Prelude.Exec.{Exec, Result, ok, err, failure}
use zchat.Store.Types.{Chat, Message}
use zchat.Store.Db.{Conn, Sql}
use zchat.Store.ChatQueries.{get_chat}
use zchat.Wa.Names.{NameCache}
use zchat.Wa.Content.{WaMessage}

-- The events that the handlers publish; a row stands for its protocol message.
pub data Event : Type 0 where
  chat_updated : Chat → Event
  message_received : Message → Event
  message_updated : Message → Event
  message_deleted : String → String → Event
  chat_deleted : String → Event

-- What the whatsmeow client is asked to send: a revocation in a chat, a patch of the app state, a
-- receipt for a sender's messages, a message with its id, or a reaction to a sender's message.
pub data Outgoing : Type 0 where
  revokes : String → String → Outgoing
  pins : String → Bool → Outgoing
  archives : String → Bool → ℤ → Outgoing
  mutes : String → Bool → Option ℤ → Outgoing
  marks_read : String → String → List String → Outgoing
  sends : String → String → WaMessage → Outgoing
  reacts : String → String → String → String → Outgoing

-- The store, the published events and the accepted requests, newest first, and the client: whether
-- there is one, whether it is logged in, and which coming requests it refuses; and the name cache.
pub record Session : Type 0 where
  pub conn : Conn
  pub events : List Event
  pub sent : List Outgoing
  pub has_client : Bool
  pub logged_in : Bool
  pub refusals : List Bool
  pub names : NameCache

unfoldable pub on_store : {A : Type 0} → Sql A → Exec Session A
on_store m s = let (r, c) = m s.conn in (r, record s { conn = c })

abbrev pub emit : Event → Exec Session (Unit {0})
emit e s = (ok tt, record s { events = e ∷ s.events })

abbrev pub tell_on : List Bool → String → Outgoing → Exec Session (Unit {0})
tell_on [] what r s = (ok tt, record s { sent = r ∷ s.sent })
tell_on (true ∷ bs) what r s = (err (failure what), record s { refusals = bs })
tell_on (false ∷ bs) what r s = (ok tt, record s { sent = r ∷ s.sent; refusals = bs })

-- A request to the client; `what` is the error's text.
unfoldable pub tell : String → Outgoing → Exec Session (Unit {0})
tell what r s = tell_on s.refusals what r s

-- An error that is only logged.
abbrev pub quietly : {A : Type 0} → Exec Session A → Exec Session (Unit {0})
quietly m s = let (r, s') = m s in (ok tt, s')

abbrev pub to_option : {A : Type 0} → Result A → Option A
to_option (ok a) = some a
to_option (err e) = none

-- A value that an error leaves out.
abbrev pub attempt : {A : Type 0} → Exec Session A → Exec Session (Option A)
attempt m s = let (r, s') = m s in (ok (to_option r), s')

abbrev pub announce_chat : Result Chat → Exec Session (Unit {0})
announce_chat (ok chat) s = emit (chat_updated chat) s
announce_chat (err e) s = (ok tt, s)

-- publishChat
unfoldable pub publish_chat : String → Exec Session (Unit {0})
publish_chat jid s = let (r, s') = on_store (get_chat jid) s in announce_chat r s'
