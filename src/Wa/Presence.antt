-- ===== src/Wa/Presence.antt =====
-- apps/daemon/wa/presence.go: what the user's own presence makes the session send.
pub mod Told
pub mod Forgotten
use zchat.Prelude.{
  String, Bool, true, false, not, ◌&&◌, ◌||◌, List, [], ◌∷◌, Option, none, some, ◌==◌, same_bool,
  if◌then◌else◌,
}

-- What the session asks of the server; a chat and a contact are named as the tracker's keys are.
pub data Request : Type 0 where
  available : Request
  subscribes : String → Request
  typing_state : String → Bool → Request

-- presenceTracker: a Go map to bool is false at a missing key.
pub record PresenceTracker : Type 0 where
  pub typing : String → Bool
  pub subscribed : String → Bool
  pub is_available : Bool

-- The tracker, the requests that the server has accepted on this connection, newest first, and
-- whether the client will refuse each coming request; no further entry is no further refusal.
pub record Line : Type 0 where
  pub tracker : PresenceTracker
  pub open tracker use *
  pub told : List Request
  pub refusals : List Bool

-- newPresenceTracker, and what reset leaves.
abbrev pub empty_tracker : PresenceTracker
empty_tracker = record { typing = λ c. false; subscribed = λ c. false; is_available = false }

-- A new connection: the server knows nothing yet, and reset forgets what the old one was told.
unfoldable pub reconnect : Line → Line
reconnect l = record l { tracker = empty_tracker; told = [] }

abbrev pub put : String → Bool → (String → Bool) → String → Bool
put k v f x = if x == k then v else f x

abbrev pub request_on : List Bool → Request → Line → Bool × Line
request_on [] r l = (true, record l { told = r ∷ l.told })
request_on (true ∷ bs) r l = (false, record l { refusals = bs })
request_on (false ∷ bs) r l = (true, record l { told = r ∷ l.told; refusals = bs })

-- A request to the client: whether it succeeds, and what it changes.
unfoldable pub request : Request → Line → Bool × Line
request r l = request_on l.refusals r l

-- The outcome of SetPresence.
pub data Outcome : Type 0 where
  done presence_failed bad_jid typing_failed : Outcome

abbrev pub with_subscribed : String → Bool → Line → Line
with_subscribed key b l = record l {
  tracker = record l.tracker { subscribed = put key b l.subscribed };
}

-- A refused subscription is forgotten again.
abbrev pub after_subscription : String → Bool × Line → Line
after_subscription key (true, l) = l
after_subscription key (false, l) = with_subscribed key false l

-- subscribePresence, for the contact's key.
unfoldable pub subscribe_presence : String → Line → Line
subscribe_presence key l =
    if l.subscribed key
    then with_subscribed key true l
    else after_subscription key (request (subscribes key) (with_subscribed key true l))

abbrev pub with_typing : String → Bool → Line → Line
with_typing chat b l = record l { tracker = record l.tracker { typing = put chat b l.typing } }

abbrev pub after_typing : Bool × Line → Outcome × Line
after_typing (true, l) = (done, l)
after_typing (false, l) = (typing_failed, l)

-- The part of SetPresence on the chat's typing state.
unfoldable pub set_typing : String → Bool → Line → Outcome × Line
set_typing chat b l =
    if same_bool (l.typing chat) b
    then (done, with_typing chat b l)
    else after_typing (request (typing_state chat b) (with_typing chat b l))

abbrev pub with_available : Line → Line
with_available l = record l { tracker = record l.tracker { is_available = true } }

-- The part on the user's own availability, and whether SetPresence goes on.
unfoldable pub set_available : Line → Bool × Line
set_available l =
    if l.is_available then (true, with_available l) else request available (with_available l)

-- SetPresence for what is known of the chat's JID: none for a text that is no JID, `some none` for a
-- group, and else the key of the contact.
unfoldable pub presence_of : Option (Option String) → String → Bool → Bool → Line → Outcome × Line
presence_of none chat b is_available l = (bad_jid, l)
presence_of (some none) chat b is_available l = set_typing chat b l
presence_of (some (some key)) chat b true l = set_typing chat b (subscribe_presence key l)
presence_of (some (some key)) chat b false l = set_typing chat b l

-- `contact` is ParseJID of whatsmeow, with the server and the ToNonAD of the JID that it reads.
module _ (contact : String → Option (Option String)) where
  -- The part of SetPresence behind the user's availability.
  unfoldable pub set_chat_presence : String → Bool → Bool → Line → Outcome × Line
  set_chat_presence chat b is_available l =
      if chat == "" then (done, l) else presence_of (contact chat) chat b is_available l

  abbrev pub after_available : String → Bool → Bool → Bool × Line → Outcome × Line
  after_available chat b is_available (true, l) = set_chat_presence chat b is_available l
  after_available chat b is_available (false, l) = (presence_failed, l)

  -- SetPresence; `logged_in` tells whether there is a client that is logged in.
  unfoldable pub set_presence : Bool → String → Bool → Bool → Line → Outcome × Line
  set_presence logged_in chat b is_available l =
      if not logged_in
      then (done, l)
      else after_available chat b is_available (if is_available then set_available l else (true, l))
