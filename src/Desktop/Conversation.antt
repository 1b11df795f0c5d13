-- ===== src/Desktop/Conversation.antt =====
-- apps/desktop/window.go: the messages of the open chat and the paging of older ones. Scrolling and
-- the redrawing of rows are the toolkit's.
pub mod Located
pub mod Map
pub mod Paging
use zchat.Prelude.{
  ℕ, zero, suc, String, Bool, true, false, not, ◌||◌, ◌&&◌, List, [], ◌∷◌, ◌++◌, Option, none, some,
  ◌==◌, if◌then◌else◌,
}
use zchat.Prelude.Int.{ℤ, pos, eqb_ℤ}
use zchat.Store.Types.{Chat}
use zchat.Wa.Proto.{ProtoMessage}

-- The fields of window that these functions use; `asked` lists the calls of GetMessages, the newest
-- first.
pub record Window : Type 0 where
  pub active : String
  pub active_group : Bool
  pub has_client : Bool
  pub messages : List ProtoMessage
  pub has_older : Bool
  pub loading_older : Bool
  pub asked : List (String × ℤ)

-- A step of findMessage, which walks from the newest message: what the newer ones answered comes
-- first.
abbrev pub found_newer : Option ℕ → Bool → Option ℕ
found_newer (some i) b = some (suc i)
found_newer none true = some 0
found_newer none false = none

-- The index that findMessage returns; none stands for -1.
unfoldable pub find_message : String → List ProtoMessage → Option ℕ
find_message id [] = none
find_message id (m ∷ ms) = found_newer (find_message id ms) (m.id == id)

abbrev pub modify_at : (ProtoMessage → ProtoMessage) → ℕ → List ProtoMessage → List ProtoMessage
modify_at f i [] = []
modify_at f zero (m ∷ ms) = f m ∷ ms
modify_at f (suc i) (m ∷ ms) = m ∷ modify_at f i ms

abbrev pub delete_at : ℕ → List ProtoMessage → List ProtoMessage
delete_at i [] = []
delete_at zero (m ∷ ms) = ms
delete_at (suc i) (m ∷ ms) = m ∷ delete_at i ms

-- The fields that onMessage copies into a message that is shown.
unfoldable pub refreshed : ProtoMessage → ProtoMessage → ProtoMessage
refreshed msg existing = record existing {
  body = msg.body;
  sender_name = msg.sender_name;
  timestamp = msg.timestamp;
  status = msg.status;
  media = msg.media;
}

abbrev pub placed : Option ℕ → ProtoMessage → Bool → List ProtoMessage → List ProtoMessage
placed (some i) msg is_update ms = modify_at (refreshed msg) i ms
placed none msg true ms = ms
placed none msg false ms = ms ++ msg ∷ []

-- onMessage
unfoldable pub show_message : ProtoMessage → Bool → Window → Window
show_message msg is_update w =
    if not (msg.chat_jid == w.active)
    then w
    else record w { messages = placed (find_message msg.id w.messages) msg is_update w.messages }

abbrev pub dropped : Option ℕ → List ProtoMessage → List ProtoMessage
dropped none ms = ms
dropped (some i) ms = delete_at i ms

-- onMessageDeleted
unfoldable pub drop_message : String → String → Window → Window
drop_message chat_jid id w =
    if not (chat_jid == w.active)
    then w
    else record w { messages = dropped (find_message id w.messages) w.messages }

-- openChat
unfoldable pub open_chat : Chat → Window → Window
open_chat chat w =
    let cleared : Window = record w {
      active = chat.jid;
      active_group = chat.is_group;
      messages = [];
    } in
    if not w.has_client then cleared else record cleared {
      has_older = true;
      loading_older = false;
      asked = (chat.jid, pos 0) ∷ w.asked;
    }

-- The callback of openChat; none is an error.
unfoldable pub chat_opened : String → Option (List ProtoMessage) → Window → Window
chat_opened chat_jid none w = w
chat_opened chat_jid (some msgs) w =
    if chat_jid == w.active then record w { messages = msgs } else w

-- loadOlderMessages
unfoldable pub load_older : Window → Window
load_older w =
    if not w.has_client || w.active == "" || w.loading_older || not w.has_older
    then w
    else elim w.messages [
      | [] ↦ w
      | m ∷ ms ↦
          if eqb_ℤ m.timestamp (pos 0)
          then w
          else record w { loading_older = true; asked = (w.active, m.timestamp) ∷ w.asked }
    ]

-- What the callbacks of loadOlderMessages and scrollToMessage do with a page; an error comes without
-- messages.
abbrev pub page_added : String → Option (List ProtoMessage) → Window → Window
page_added chat_jid none w = record w { has_older = false }
page_added chat_jid (some []) w = record w { has_older = false }
page_added chat_jid (some (m ∷ ms)) w =
    if chat_jid == w.active then record w { messages = (m ∷ ms) ++ w.messages } else w

-- The callback of loadOlderMessages.
unfoldable pub older_loaded : String → Option (List ProtoMessage) → Window → Window
older_loaded chat_jid reply w = record (page_added chat_jid reply w) { loading_older = false }
