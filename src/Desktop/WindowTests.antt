-- ===== src/Desktop/WindowTests.antt =====
-- The theorems on the window of the desktop client at concrete inputs.
use zchat.Prelude.{String, refl, true, false, List, [], ◌∷◌, Option, none, some}
use zchat.Prelude.Int.{ℤ, pos}
use zchat.Prelude.Rows.{find}
use zchat.Wa.Proto.{ProtoMessage, sent, delivered}
use zchat.Wa.Connection.{ConnectionStatus}
use zchat.Wa.Sync.{history, done}
use zchat.Desktop.Conversation.{Window}
use zchat.Desktop.Conversation.Map.{
  Change, received, updated, deleted, react_all, effects, shown, Agrees, react_all-Agrees,
}
use zchat.Desktop.Conversation.Paging.{
  find_page_limit, scroll_to_message, Walked, scroll_to_message-Walked,
}
use zchat.Desktop.Screen.{
  new_screen, Signal, connection, stage_changed, code, attached, signalled_all, IsBlocked,
  signalled_all-IsBlocked,
}
use zchat.Desktop.Presence.{PresenceUpdate, Shown, Happening, update, expiry, happen_all}
use zchat.Desktop.Presence.Expiry.{IsTimed, happen_all-IsTimed}

abbrev message_at : String → ℤ → ProtoMessage
message_at id timestamp = record {
  id = id;
  chat_jid = "1@s";
  sender = "1@s";
  sender_name = "";
  body = id;
  type = "text";
  timestamp = timestamp;
  outgoing = false;
  status = sent;
  forwarded = false;
  reaction = "";
  media = none;
  quoted = none;
}

abbrev opened : Window
opened = record {
  active = "1@s";
  active_group = false;
  has_client = true;
  messages = message_at "a" (pos 8) ∷ message_at "b" (pos 9) ∷ [];
  has_older = true;
  loading_older = false;
  asked = [];
}

opened-Agrees : Agrees opened.messages (shown opened.messages)
unfolding find
opened-Agrees = record { unique = (refl, (refl, tt)); same = λ k. refl }

abbrev changes : List Change
changes =
    received (message_at "c" (pos 10))
    ∷ updated (record (message_at "b" (pos 9)) { status = delivered })
    ∷ deleted "1@s" "a"
    ∷ deleted "2@s" "c"
    ∷ []

react_all-Agrees_example :
    Agrees (react_all changes opened).messages (effects "1@s" changes (shown opened.messages))
react_all-Agrees_example = react_all-Agrees changes opened (shown opened.messages) opened-Agrees

-- A daemon with one older message.
abbrev one_page : String → ℤ → Option (List ProtoMessage)
one_page chat before = some (message_at "z" (pos 7) ∷ [])

scroll_to_message-Walked_example :
    Walked one_page find_page_limit "z" opened
      (scroll_to_message one_page find_page_limit "z" opened)
scroll_to_message-Walked_example = scroll_to_message-Walked one_page find_page_limit "z" opened

abbrev signals : List Signal
signals =
    attached
    ∷ connection ConnectionStatus.connected
    ∷ stage_changed history true
    ∷ connection ConnectionStatus.connected
    ∷ code true
    ∷ stage_changed done false
    ∷ []

signalled_all-IsBlocked_example : IsBlocked (signalled_all signals new_screen)
signalled_all-IsBlocked_example =
    signalled_all-IsBlocked signals new_screen (record { blocked = refl })

abbrev types_now : PresenceUpdate
types_now = record {
  chat_jid = "g@g";
  user_jid = "1@s";
  user_name = "Ann";
  online = true;
  typing = true;
  recording = false;
  last_seen = pos 0;
}

abbrev nobody : Shown
nobody = record { presence = λ k. none; timers = λ c u. false }

abbrev happenings : List Happening
happenings = update types_now ∷ expiry "g@g" "2@s" ∷ update types_now ∷ expiry "g@g" "1@s" ∷ []

happen_all-IsTimed_example : IsTimed (happen_all happenings nobody)
happen_all-IsTimed_example = happen_all-IsTimed happenings nobody (record { timed = λ c u. refl })
