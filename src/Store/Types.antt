-- ===== src/Store/Types.antt =====
-- apps/daemon/store/store.go: the rows, as the Go structs and as the tables of the schema hold
-- them, and the delivery statuses.
use zchat.Prelude.{ℕ, String, Bool, Option, none, some, List, ◌==◌, if◌then◌else◌}
use zchat.Prelude.Int.{ℤ}

-- StatusPending and the other persisted values.
abbrev pub status_pending : String
status_pending = "pending"

abbrev pub status_sent : String
status_sent = "sent"

abbrev pub status_delivered : String
status_delivered = "delivered"

abbrev pub status_read : String
status_read = "read"

abbrev pub status_failed : String
status_failed = "failed"

-- The map `statusRank`: none for a value that is not a key of it.
unfoldable pub status_rank : String → Option ℕ
status_rank s =
    if s == status_pending
    then some 1
    else if s == status_sent
    then some 2
    else if s == status_delivered
    then some 3
    else if s == status_read
    then some 4
    else none

-- A row of `chats`, and the Go struct `Chat`.
pub record Chat : Type 0 where
  pub jid : String
  pub name : String
  pub unread : ℤ
  pub archived : Bool
  pub pinned : Bool
  pub last_message : String
  pub updated_at : ℤ
  pub is_group : Bool
  pub muted_until : ℤ

pub record Quoted : Type 0 where
  pub id : String
  pub sender : String
  pub sender_name : String
  pub body : String
  pub type : String

-- The Go struct `Media`; byte strings are lists of numbers.
pub record Media : Type 0 where
  pub message_id : String
  pub path : String
  pub mime : String
  pub size : ℤ
  pub filename : String
  pub caption : String
  pub thumbnail : List ℕ
  pub width : ℤ
  pub height : ℤ
  pub duration : ℤ
  pub payload : List ℕ

-- The columns of a message that need no join.
pub record Fields : Type 0 where
  pub id : String
  pub chat_jid : String
  pub sender : String
  pub sender_name : String
  pub body : String
  pub type : String
  pub timestamp : ℤ
  pub outgoing : Bool
  pub status : String
  pub forwarded : Bool
  pub reaction : String

-- The Go struct `Message`.
pub record Message : Type 0 where
  pub fields : Fields
  pub open fields use *
  pub media : Option Media
  pub quoted : Option Quoted

-- A row of `messages`: the quoted columns are always written.
pub record MessageRow : Type 0 where
  pub fields : Fields
  pub open fields use *
  pub quote : Quoted

-- A row of `media`, keyed by the id of its message.
pub record MediaRow : Type 0 where
  pub id : String
  pub media : Media

-- `MessageRef`
pub record MessageRef : Type 0 where
  pub id : String
  pub sender : String
