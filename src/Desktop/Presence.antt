-- ===== src/Desktop/Presence.antt =====
-- apps/desktop/presence.go: who is online and who is typing. The toolkit's timers are the `timers` that
-- run; a row of the header is drawn from what the functions keep.
pub mod Expiry
use Prim.Native.Char.{code}
use zchat.Prelude.{
  ℕ, String, Bool, true, false, not, ◌&&◌, ◌||◌, List, [], ◌∷◌, Option, none, some, ◌==◌, suc,
  length, eqb, if◌then◌else◌,
}
use zchat.Prelude.Int.{ℤ, pos, ltb_ℤ}
use zchat.Prelude.Rows.{upsert, delete}

-- A map from the JIDs of the users who type to their names.
abbrev pub Typists : Type 0
Typists = List (String × String)

abbrev pub jid_of : String × String → String
jid_of (jid, name) = jid

-- chatPresence
pub record ChatPresence : Type 0 where
  pub typists : Typists
  pub online : Bool
  pub last_seen : ℤ

-- zchatv1.PresenceUpdate
pub record PresenceUpdate : Type 0 where
  pub chat_jid : String
  pub user_jid : String
  pub user_name : String
  pub online : Bool
  pub typing : Bool
  pub recording : Bool
  pub last_seen : ℤ

-- The presence and typingTimers of window; a timer is known by the chat and the user in its key.
pub record Shown : Type 0 where
  pub presence : String → Option ChatPresence
  pub timers : String → String → Bool

abbrev pub no_presence : ChatPresence
no_presence = record { typists = []; online = false; last_seen = pos 0 }

abbrev pub or_new : Option ChatPresence → ChatPresence
or_new none = no_presence
or_new (some p) = p

abbrev pub put_typist : String → String → Typists → Typists
put_typist jid name ts = upsert jid_of (jid, name) (λ t. (jid_of t, name)) ts

abbrev pub drop_typist : String → Typists → Typists
drop_typist jid ts = delete (λ t. jid_of t == jid) ts

abbrev pub is_active : PresenceUpdate → Bool
is_active u = u.typing || u.recording

-- The typists after an update, before a contact who went offline is heard of.
abbrev pub typed : String → PresenceUpdate → Typists → Typists
typed name u ts = if is_active u then put_typist u.user_jid name ts else drop_typist u.user_jid ts

-- The part of onPresence for direct chats.
abbrev pub transition : PresenceUpdate → ChatPresence → ChatPresence
transition u p = record {
  typists = if u.online then p.typists else [];
  online = u.online;
  last_seen = if ltb_ℤ (pos 0) u.last_seen then u.last_seen else p.last_seen;
}

abbrev pub updated : String → PresenceUpdate → ChatPresence → ChatPresence
updated name u p =
    let q : ChatPresence = record p { typists = typed name u p.typists } in
    if u.user_jid == u.chat_jid then transition u q else q

abbrev pub point :
    String → ChatPresence → (String → Option ChatPresence) → String → Option ChatPresence
point jid p presence k = if jid == k then some p else presence k

abbrev pub arm : String → String → Bool → (String → String → Bool) → String → String → Bool
arm chat user b timers c u = if chat == c && user == u then b else timers c u

-- scheduleTypingExpiry, for a user who types.
abbrev pub schedule : PresenceUpdate → (String → String → Bool) → String → String → Bool
schedule u timers c v =
    if is_active u then arm u.chat_jid u.user_jid true timers c v else timers c v

-- jidUser: what stands before the first `@`, if something does.
abbrev pub before_at : String → Option String
before_at String.[] = none
before_at (String.◌∷◌ c s) =
    if eqb (code c) b'@'
    then some String.[]
    else elim (before_at s) [ none ↦ none | some t ↦ some (String.◌∷◌ c t) ]

abbrev pub cut : Option String → String → String
cut none jid = jid
cut (some String.[]) jid = jid
cut (some (String.◌∷◌ c s)) jid = String.◌∷◌ c s

unfoldable pub jid_user : String → String
jid_user jid = cut (before_at jid) jid

-- presenceName
unfoldable pub presence_name : PresenceUpdate → String
presence_name u = if not (u.user_name == "") then u.user_name else jid_user u.user_jid

-- onPresence
unfoldable pub on_presence : PresenceUpdate → Shown → Shown
on_presence u s = record {
  presence =
      point u.chat_jid (updated (presence_name u) u (or_new (s.presence u.chat_jid))) s.presence;
  timers = schedule u s.timers;
}

abbrev pub without : String → Option ChatPresence → Option ChatPresence
without user none = none
without user (some p) = some (record p { typists = drop_typist user p.typists })

abbrev pub repoint :
    String → Option ChatPresence → (String → Option ChatPresence) → String → Option ChatPresence
repoint jid o presence k = if jid == k then o else presence k

abbrev pub expired : String → String → Shown → Shown
expired chat user s = record {
  presence = repoint chat (without user (s.presence chat)) s.presence;
  timers = arm chat user false s.timers;
}

-- The callback of a timer of scheduleTypingExpiry, which runs if the timer does.
unfoldable pub expire : String → String → Shown → Shown
expire chat user s = if s.timers chat user then expired chat user s else s

-- What subtitleFor shows.
pub data Subtitle : Type 0 where
  nothing : Subtitle
  typing : Subtitle
  typing_one : String → Subtitle
  typing_many : ℕ → Subtitle
  is_online : Subtitle
  seen : ℤ → Subtitle

abbrev pub typing_line : Bool → Typists → Subtitle → Subtitle
typing_line group [] rest = rest
typing_line false (t ∷ ts) rest = typing
typing_line true ((jid, name) ∷ []) rest = typing_one name
typing_line true (t ∷ u ∷ ts) rest = typing_many (suc (suc (length ts)))

abbrev pub idle_line : Bool → ChatPresence → Subtitle
idle_line true p = nothing
idle_line false p =
    if p.online then is_online else if ltb_ℤ (pos 0) p.last_seen then seen p.last_seen else nothing

abbrev pub line_of : Bool → Option ChatPresence → Subtitle
line_of group none = nothing
line_of group (some p) = typing_line group p.typists (idle_line group p)

-- subtitleFor, for a chat that is a group or not.
unfoldable pub subtitle_for : String → Bool → Shown → Subtitle
subtitle_for chat group s = line_of group (s.presence chat)

-- What happens to the window: an update, and the end of a timer.
pub data Happening : Type 0 where
  update : PresenceUpdate → Happening
  expiry : String → String → Happening

unfoldable pub happen : Happening → Shown → Shown
unfolding on_presence expire
happen (update u) s = on_presence u s
happen (expiry chat user) s = expire chat user s

unfoldable pub happen_all : List Happening → Shown → Shown
unfolding happen
happen_all [] s = s
happen_all (h ∷ hs) s = happen_all hs (happen h s)
