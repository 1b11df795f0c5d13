-- ===== src/Wa/Contacts.antt =====
-- apps/daemon/wa/session.go, GetContacts and StartChat.
use Prim.Native.Char.{code}
use zchat.Prelude.{
  String, Bool, true, false, not, ◌||◌, ◌&&◌, List, [], ◌∷◌, Option, none, some, ◌==◌, leb,
  if◌then◌else◌,
}
use zchat.Prelude.Int.{pos}
use zchat.Prelude.Text.{trim_space}
use zchat.Prelude.Exec.{Exec, Result, ok, err, raise, failure, ◌>>=◌, ◌>>◌}
use zchat.Store.Types.{Chat}
use zchat.Store.Chats.{upsert_chat}
use zchat.Store.ChatQueries.{get_chat}
use zchat.Wa.Session.{Session, on_store}
use zchat.Wa.Whatsmeow.{
  Whatsmeow, Server, default_user_server, legacy_user_server, broadcast_server, Contact,
}
use zchat.Wa.Lookup.{canonical_chat_jid, contact_name, is_group_server}

-- zchatv1.Contact
pub record ContactEntry : Type 0 where
  pub jid : String
  pub name : String
  pub phone_number : String

abbrev pub is_phone : Server → Bool
is_phone default_user_server = true
is_phone legacy_user_server = true
is_phone _ = false

abbrev pub is_broadcast : Server → Bool
is_broadcast broadcast_server = true
is_broadcast _ = false

abbrev pub first_text : String → String → String
first_text a b = if a == "" then b else a

-- `strings.TrimPrefix(s, "+")`
abbrev pub without_plus : String → String
without_plus String.[] = ""
without_plus (String.◌∷◌ c s) = if leb (code c) b'+' && leb b'+' (code c) then s else String.◌∷◌ c s

-- Each rune is an ASCII digit.
abbrev pub all_digits : String → Bool
all_digits String.[] = true
all_digits (String.◌∷◌ c s) = (leb b'0' (code c) && leb (code c) b'9') && all_digits s

module _ (W : Whatsmeow) where
  open W use {Jid, parse_jid, to_string, to_non_ad, user, server, new_jid, contacts}

  -- The loop of GetContacts.
  abbrev pub contact_entries : List (Jid × Contact) → List ContactEntry
  contact_entries [] = []
  contact_entries ((jid, c) ∷ cs) =
      let rest = contact_entries cs in
      if is_phone (server jid)
      then record {
        jid = to_string (to_non_ad jid);
        name =
            first_text c.full_name
              (first_text c.business_name (first_text c.push_name c.first_name));
        phone_number = user jid;
      }
        ∷ rest
      else rest

  abbrev pub listed_contacts : Option (List (Jid × Contact)) → Result (List ContactEntry)
  listed_contacts none = err (failure "get all contacts")
  listed_contacts (some cs) = ok (contact_entries cs)

  -- GetContacts
  unfoldable pub get_contacts : Exec Session (List ContactEntry)
  get_contacts s =
      if not s.has_client
      then (err (failure "session not started"), s)
      else (listed_contacts contacts, s)

  -- The recipient that StartChat reads: a JID, or else a phone number.
  unfoldable pub recipient_jid : String → Option Jid → Option Jid
  recipient_jid text (some jid) = some jid
  recipient_jid text none =
      let clean = without_plus text in
      if clean == "" || not (all_digits clean) then none else some (new_jid clean)

  -- The row of a chat that is started.
  abbrev pub empty_chat : String → String → Chat
  empty_chat jid name = record {
    jid = jid;
    name = name;
    unread = pos 0;
    archived = false;
    pinned = false;
    last_message = "";
    updated_at = pos 0;
    is_group = false;
    muted_until = pos 0;
  }

  abbrev pub chat_or_new : Result Chat → Jid → String → Exec Session Chat
  chat_or_new (ok chat) jid chat_jid s = (ok chat, s)
  chat_or_new (err e) jid chat_jid s =
      (do
        name ← contact_name W jid
        on_store (upsert_chat (empty_chat chat_jid name))
        on_store (get_chat chat_jid))
        s

  abbrev pub start_direct : Jid → Exec Session Chat
  start_direct jid s =
      let chat_jid = canonical_chat_jid W jid s in
      let (r, s') = on_store (get_chat chat_jid) s in chat_or_new r jid chat_jid s'

  abbrev pub is_direct : Jid → Bool
  is_direct jid = not (is_group_server (server jid) || is_broadcast (server jid) || user jid == "")

  abbrev pub start_with : Option Jid → Exec Session Chat
  start_with none = raise (failure "invalid recipient")
  start_with (some jid) =
      if is_direct (to_non_ad jid)
      then start_direct (to_non_ad jid)
      else raise (failure "recipient must be a direct contact")

  -- StartChat
  unfoldable pub start_chat : String → Exec Session Chat
  unfolding trim_space recipient_jid
  start_chat recipient =
      let text = trim_space recipient in
      if text == ""
      then raise (failure "recipient is required")
      else start_with (recipient_jid text (parse_jid text))
