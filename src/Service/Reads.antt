-- ===== src/Service/Reads.antt =====
-- apps/daemon/service/service.go: the handlers that list chats and messages.
use zchat.Prelude.{
  String, Bool, true, false, not, ◌&&◌, List, [], ◌∷◌, Option, none, some, ◌==◌, if◌then◌else◌,
}
use zchat.Prelude.Int.{ℤ, pos, ltb_ℤ, eqb_ℤ}
use zchat.Prelude.Text.{trim_space}
use zchat.Prelude.Exec.{Exec, Result, ok, err, pure, ◌>>=◌, ◌>>◌}
use zchat.Store.Types.{Chat, Message}
use zchat.Store.Chats.{clear_unread}
use zchat.Store.ChatQueries.{list_chats, search_chats, get_chat}
use zchat.Store.MessageQueries.{list_messages, search_messages}
use zchat.Wa.Session.{Session, on_store, quietly, announce_chat}
use zchat.Wa.MarkRead.{mark_read}
use zchat.Wa.Whatsmeow.{Whatsmeow}
use zchat.Wa.Lookup.{display_name}
use zchat.Wa.Contacts.{ContactEntry, get_contacts}
use zchat.Service.Reply.{
  internal, unavailable, missing, replies, Handler, answer, checked, page_limit, page_offset,
}

-- A chat stands for its protocol message, which has the same fields.
-- GetChats
unfoldable pub serve_get_chats : ℤ → ℤ → Bool → Handler (List Chat)
serve_get_chats limit offset archived =
    answer (λ e. internal) (λ chats. chats)
      (on_store (list_chats (page_limit limit) (page_offset offset) archived))

-- SearchChats
unfoldable pub serve_search_chats : String → ℤ → Handler (List Chat)
serve_search_chats query limit s =
    if trim_space query == ""
    then (replies [], s)
    else answer (λ e. internal) (λ chats. chats)
        (on_store (search_chats (trim_space query) (page_limit limit))) s

-- GetChatInfo
unfoldable pub serve_get_chat_info : String → Handler Chat
serve_get_chat_info jid =
    checked (not (jid == "")) (answer (λ e. missing) (λ chat. chat) (on_store (get_chat jid)))

module _ (W : Whatsmeow) where
  open W use {parse_jid, to_string, to_non_ad}

  -- GetContacts
  unfoldable pub serve_get_contacts : Handler (List ContactEntry)
  serve_get_contacts = answer (λ e. unavailable) (λ contacts. contacts) (get_contacts W)

  abbrev pub named : String → Message → Message
  named name m = record m { fields = record m.fields { sender_name = name } }

  -- A message on its way out: the name of a sender who had none when it was stored is looked up.
  abbrev pub fill_name : Message → Exec Session Message
  fill_name m =
      if m.sender_name == "" && not m.outgoing
      then (display_name W m.sender >>= λ name. pure (named name m))
      else pure m

  -- The loop over the rows of a page.
  unfoldable pub fill_names : List Message → Exec Session (List Message)
  fill_names [] s = (ok [], s)
  fill_names (m ∷ ms) s = (do out ← fill_name m; outs ← fill_names ms; pure (out ∷ outs)) s

  -- SearchMessages
  unfoldable pub serve_search_messages : String → String → ℤ → Handler (List Message)
  unfolding fill_names
  serve_search_messages query chat_jid limit s =
      if trim_space query == ""
      then (replies [], s)
      else answer (λ e. internal) (λ ms. ms)
          (on_store (search_messages (trim_space query) chat_jid (page_limit limit)) >>= fill_names)
          s

  abbrev pub is_some_jid : Option W.Jid → Bool
  is_some_jid none = false
  is_some_jid (some j) = true

  abbrev pub key_of : Option W.Jid → Option String
  key_of none = none
  key_of (some j) = some (to_string (to_non_ad j))

  -- MarkRead of the session, where whatsmeow reads the JIDs.
  abbrev pub send_receipts : String → ℤ → Exec Session (Unit {0})
  send_receipts = mark_read (λ j. key_of (parse_jid j)) (λ j. is_some_jid (parse_jid j))

  abbrev pub after_clear : Result (Unit {0}) → String → Exec Session (Unit {0})
  after_clear (err e) jid s = (ok tt, s)
  after_clear (ok t) jid s = let (r, s') = on_store (get_chat jid) s in announce_chat r s'

  -- An unread chat is cleared, here and on the user's phone; errors are only logged.
  abbrev pub clear_chat : String → Chat → Exec Session (Unit {0})
  clear_chat jid chat s =
      let (r, s1) = on_store (clear_unread jid) s in
      let (t, s2) = after_clear r jid s1 in quietly (send_receipts jid chat.unread) s2

  abbrev pub clear_found : Result Chat → String → Exec Session (Unit {0})
  clear_found (err e) jid s = (ok tt, s)
  clear_found (ok chat) jid s =
      if ltb_ℤ (pos 0) chat.unread then clear_chat jid chat s else (ok tt, s)

  -- The part of GetMessages for the newest page.
  unfoldable pub clear_on_open : String → Exec Session (Unit {0})
  clear_on_open jid s = let (r, s') = on_store (get_chat jid) s in clear_found r jid s'

  abbrev pub open_chat : String → ℤ → Exec Session (Unit {0})
  open_chat jid before = if eqb_ℤ before (pos 0) then clear_on_open jid else pure tt

  -- GetMessages
  unfoldable pub serve_get_messages : String → ℤ → ℤ → Handler (List Message)
  unfolding fill_names
  serve_get_messages jid limit before = checked (not (jid == "")) (
      answer (λ e. internal) (λ ms. ms)
        (do
          rows ← on_store (list_messages jid (page_limit limit) before)
          open_chat jid before
          fill_names rows))
