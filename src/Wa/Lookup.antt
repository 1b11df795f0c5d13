-- ===== src/Wa/Lookup.antt =====
-- apps/daemon/wa/session.go: the names and the canonical JIDs of chats and contacts.
pub mod Remembered
pub mod Settled
use zchat.Prelude.{
  ℕ, String, Bool, true, false, not, ◌||◌, ◌&&◌, List, [], ◌∷◌, Option, none, some, ◌==◌,
  if◌then◌else◌,
}
use zchat.Prelude.Exec.{Exec, Result, ok, err, pure, raise, failure, ◌>>=◌, ◌>>◌}
use zchat.Store.ChatQueries.{chat_name}
use zchat.Wa.Names.{put_name, put_number}
use zchat.Wa.Session.{Session, on_store, attempt}
use zchat.Wa.Whatsmeow.{
  Whatsmeow, Server, group_server, default_user_server, legacy_user_server, hidden_user_server,
  broadcast_server, other_server, Contact,
}

abbrev pub is_group_server : Server → Bool
is_group_server group_server = true
is_group_server _ = false

abbrev pub is_hidden : Server → Bool
is_hidden hidden_user_server = true
is_hidden _ = false

-- The name that the loop over a contact's names takes.
unfoldable pub contact_text : Contact → String
contact_text c =
    if not (c.full_name == "")
    then c.full_name
    else if not (c.business_name == "")
    then c.business_name
    else c.push_name

module _ (W : Whatsmeow) where
  open W use {
    Jid, parse_jid, to_string, to_non_ad, user, server, is_empty, alt_jid, contact, group_name,
  }

  -- supportedChat
  unfoldable pub supported_chat : Jid → Bool
  supported_chat jid = elim (server jid) [
    | group_server ↦ not (user jid == "status")
    | default_user_server ↦ not (user jid == "status")
    | legacy_user_server ↦ not (user jid == "status")
    | hidden_user_server ↦ not (user jid == "status")
    | broadcast_server ↦ false
    | other_server ↦ false
  ]

  -- `err == nil && !alt.IsEmpty()`
  abbrev pub given_alt : Result Jid → Option Jid
  given_alt (err e) = none
  given_alt (ok alt) = if is_empty alt then none else some alt

  -- The client's answer to GetAltJID, where there is a client.
  abbrev pub alt_of : Bool → Jid → Option Jid
  alt_of false jid = none
  alt_of true jid = given_alt (alt_jid jid)

  abbrev pub or_alt : Option Jid → Jid → Jid
  or_alt none jid = jid
  or_alt (some alt) jid = to_non_ad alt

  -- canonicalChatJID
  unfoldable pub canonical_chat_jid : Jid → Session → String
  canonical_chat_jid jid s =
      if not (is_hidden (server (to_non_ad jid)))
      then to_string (to_non_ad jid)
      else to_string (or_alt (alt_of s.has_client (to_non_ad jid)) (to_non_ad jid))

  -- The names of a contact that is found; the loop passes over one on an error.
  abbrev pub text_of : Result (Option Contact) → String
  text_of (err e) = ""
  text_of (ok none) = ""
  text_of (ok (some c)) = contact_text c

  -- The loop over the candidates: the first name that is not empty.
  abbrev pub found_name : List Jid → String
  found_name [] = ""
  found_name (c ∷ cs) = if text_of (contact c) == "" then found_name cs else text_of (contact c)

  abbrev pub candidates : Jid → Option Jid → List Jid
  candidates jid none = jid ∷ []
  candidates jid (some alt) = jid ∷ to_non_ad alt ∷ []

  -- What contactName looks up where the cache has no entry; it is empty also where each lookup failed.
  unfoldable pub resolved_name : Jid → String
  resolved_name jid = found_name (candidates (to_non_ad jid) (alt_of true (to_non_ad jid)))

  -- The answer of the cache, or the one that is looked up now, which the cache takes, empty or not.
  abbrev pub cached_name : Option String → Jid → Exec Session String
  cached_name (some name) jid s = (ok name, s)
  cached_name none jid s = (
    ok (resolved_name jid),
    record s { names = put_name (to_string (to_non_ad jid)) (resolved_name jid) s.names },
  )

  -- contactName
  unfoldable pub contact_name : Jid → Exec Session String
  contact_name jid s =
      if not s.has_client
      then (ok "", s)
      else cached_name (s.names.names (to_string (to_non_ad jid))) jid s

  abbrev pub user_of : Option Jid → Jid → String
  user_of none jid = user jid
  user_of (some pn) jid = if user pn == "" then user jid else user pn

  abbrev pub cached_number : Option String → Jid → Exec Session String
  cached_number (some number) jid s = (ok number, s)
  cached_number none jid s =
      let number = user_of (alt_of s.has_client (to_non_ad jid)) jid in
      (ok number, record s { names = put_number (to_string (to_non_ad jid)) number s.names })

  -- displayNumber
  unfoldable pub display_number : Jid → Exec Session String
  display_number jid s =
      if not (is_hidden (server jid))
      then (ok (user jid), s)
      else cached_number (s.names.numbers (to_string (to_non_ad jid))) jid s

  -- contactName, or else displayNumber.
  abbrev pub name_or_number : Jid → Exec Session String
  name_or_number jid = do
    name ← contact_name jid
    if name == "" then display_number jid else pure name

  abbrev pub display_parsed : Option Jid → Exec Session String
  display_parsed none = pure ""
  display_parsed (some jid) = name_or_number jid

  -- DisplayName
  unfoldable pub display_name : String → Exec Session String
  unfolding contact_name display_number
  display_name raw = display_parsed (parse_jid raw)

  -- The name of a group that the client knows, or the JID's user.
  abbrev pub group_text : Bool → Result String → Jid → String
  group_text true (ok name) jid = if name == "" then user jid else name
  group_text _ _ jid = user jid

  abbrev pub is_good_name : Option String → Jid → Bool
  is_good_name none jid = false
  is_good_name (some name) jid = not (name == "") && not (name == user jid)

  abbrev pub or_empty : Option String → String
  or_empty none = ""
  or_empty (some x) = x

  -- The names that resolveChatName falls back on.
  abbrev pub fallback_name : Jid → Bool → Exec Session String
  fallback_name jid true s = (ok (group_text s.has_client (group_name (to_non_ad jid)) jid), s)
  fallback_name jid false s = name_or_number jid s

  -- resolveChatName
  unfoldable pub resolve_chat_name : Jid → Bool → Exec Session String
  unfolding contact_name display_number
  resolve_chat_name jid is_group = do
    stored ← λ s. attempt (on_store (chat_name (canonical_chat_jid jid s))) s
    if is_good_name stored jid then pure (or_empty stored) else fallback_name jid is_group
