-- ===== src/Desktop/Conversation/Map.antt =====
-- apps/desktop/window.go: the open chat as a map from message ids, which is what the events of the
-- daemon say.
use zchat.Prelude.{
  ℕ, String, ◌≡◌, refl, ap, ◌∙◌, subst, Bool, true, false, not, List, [], ◌∷◌, ◌++◌, Option, none,
  some, ◌==◌, eq_iff, arith, if◌then◌else◌,
}
use mathlib.Core.Option
use zchat.Prelude.Rows.{
  find, update, IsUnique, find-update, find-delete, update-IsUnique, delete-IsUnique, key-find,
}
use zchat.Wa.Proto.{ProtoMessage}
use zchat.Desktop.Conversation.Located.{
  id_of, has_id, Located, missing, located, find_message-Located,
}
use zchat.Desktop.Conversation.{Window, refreshed, placed, show_message, dropped, drop_message}

-- The map that a list of messages stands for.
abbrev pub shown : List ProtoMessage → String → Option ProtoMessage
shown ms id = find id_of id ms

-- What an event says of the open chat: a message that is new, a message that has changed, or a
-- message that is gone.
pub data Change : Type 0 where
  received updated : ProtoMessage → Change
  deleted : String → String → Change

-- onEvent, for these three.
unfoldable pub react : Change → Window → Window
react (received m) w = show_message m false w
react (updated m) w = show_message m true w
react (deleted chat_jid id) w = drop_message chat_jid id w

unfoldable pub react_all : List Change → Window → Window
react_all [] w = w
react_all (c ∷ cs) w = react_all cs (react c w)

-- A message after an event of the same id: the text, the sender's name, the time, the status and the
-- attachment are the event's, and all else, the reaction too, is as it was.
abbrev pub revised : ProtoMessage → ProtoMessage → ProtoMessage
revised m old = record {
  id = old.id;
  chat_jid = old.chat_jid;
  sender = old.sender;
  sender_name = m.sender_name;
  body = m.body;
  type = old.type;
  timestamp = m.timestamp;
  outgoing = old.outgoing;
  status = m.status;
  forwarded = old.forwarded;
  reaction = old.reaction;
  media = m.media;
  quoted = old.quoted;
}

-- The same on the map: a message that is there is revised, and one that is not is added if it is new.
abbrev pub entry : Bool → ProtoMessage → Option ProtoMessage → Option ProtoMessage
entry is_update m (some old) = some (revised m old)
entry true m none = none
entry false m none = some m

abbrev pub changed :
    String → Option ProtoMessage → (String → Option ProtoMessage) → String → Option ProtoMessage
changed id o map k = if id == k then o else map k

abbrev pub effect : String → Change → (String → Option ProtoMessage) → String → Option ProtoMessage
effect active (received m) map k =
    if m.chat_jid == active then changed m.id (entry false m (map m.id)) map k else map k
effect active (updated m) map k =
    if m.chat_jid == active then changed m.id (entry true m (map m.id)) map k else map k
effect active (deleted chat_jid id) map k =
    if chat_jid == active then changed id none map k else map k

find-append :
    (k : String) (m : ProtoMessage) (ms : List ProtoMessage)
    → find id_of m.id ms ≡ none
    → find id_of k (ms ++ m ∷ []) ≡ (if m.id == k then some m else find id_of k ms)
unfolding find
find-append k m [] h = refl
find-append k m (x ∷ xs) h =
    ground (arith, find-append k m xs, eq_iff x.id m.id, eq_iff m.id k, eq_iff x.id k)

append-IsUnique :
    (m : ProtoMessage) (ms : List ProtoMessage)
    → find id_of m.id ms ≡ none
    → IsUnique id_of ms
    → IsUnique id_of (ms ++ m ∷ [])
unfolding find
append-IsUnique m [] h u = (refl, tt)
append-IsUnique m (x ∷ xs) h u =
    ground (arith, append-IsUnique m xs, find-append x.id m xs, eq_iff x.id m.id, eq_iff m.id x.id)

-- A list without duplicates that stands for a map.
pub record Agrees (ms : List ProtoMessage) (map : String → Option ProtoMessage) : Type 0 where
  pub unique : IsUnique id_of ms
  pub same : (k : String) → shown ms k ≡ map k

refreshed-id : (m z : ProtoMessage) → (refreshed m z).id ≡ z.id
unfolding refreshed
refreshed-id m z = refl

refreshed_entry :
    (m : ProtoMessage) (ms : List ProtoMessage) (x : ProtoMessage) (k : String)
    (o : Option ProtoMessage)
    → find id_of m.id ms ≡ some x
    → find id_of k ms ≡ o
    → Option.map (λ z. if has_id m.id z then refreshed m z else z) o
      ≡ (if m.id == k then some (refreshed m x) else o)
refreshed_entry m ms x k none h e =
    ground (arith, eq_iff m.id k, ap (λ (j : String). find id_of j ms) {x = m.id} {y = k})
refreshed_entry m ms x k (some z) h e =
    ground (arith, eq_iff m.id k, eq_iff z.id m.id, key-find id_of k ms z e)

find-refreshed :
    (m : ProtoMessage) (ms : List ProtoMessage) (x : ProtoMessage) (k : String)
    → find id_of m.id ms ≡ some x
    → find id_of k (update (has_id m.id) (refreshed m) ms)
      ≡ (if m.id == k then some (refreshed m x) else find id_of k ms)
find-refreshed m ms x k h =
    find-update id_of (refreshed m) (refreshed-id m) (has_id m.id) k ms
    ∙ refreshed_entry m ms x k (find id_of k ms) h refl

find-absent :
    (id : String) (ms : List ProtoMessage) (k : String)
    → find id_of id ms ≡ none
    → shown ms k ≡ changed id none (shown ms) k
find-absent id ms k h =
    ground (arith, eq_iff id k, ap (λ (j : String). find id_of j ms) {x = id} {y = k})

placed-Agrees :
    (m : ProtoMessage) (b : Bool) (ms : List ProtoMessage) (o : Option ℕ)
    → Located m.id ms o
    → IsUnique id_of ms
    → Agrees (placed o m b ms) (changed m.id (entry b m (find id_of m.id ms)) (shown ms))
unfolding refreshed
placed-Agrees m true ms none (missing h) u = record {
  unique = u;
  same = λ k. rw h (find-absent m.id ms k h);
}
placed-Agrees m false ms none (missing h) u = record {
  unique = append-IsUnique m ms h u;
  same = λ k. rw h (find-append k m ms h);
}
placed-Agrees m b ms (some n) (located i x h f d) u = record {
  unique =
      rw (f (refreshed m))
        (update-IsUnique id_of (refreshed m) (refreshed-id m) (has_id m.id) ms u);
  same = λ k. rw (f (refreshed m)) (rw h (find-refreshed m ms x k h));
}

dropped-Agrees :
    (id : String) (ms : List ProtoMessage) (o : Option ℕ)
    → Located id ms o
    → IsUnique id_of ms
    → Agrees (dropped o ms) (changed id none (shown ms))
dropped-Agrees id ms none (missing h) u = record { unique = u; same = λ k. find-absent id ms k h }
dropped-Agrees id ms (some n) (located i x h f d) u = record {
  unique = rw d (delete-IsUnique id_of id ms u);
  same = λ k. rw d (find-delete id_of id k ms);
}

-- An event of another chat changes nothing.
step-Agrees :
    (b : Bool) (w : Window) (ms : List ProtoMessage) (map map' : String → Option ProtoMessage)
    → Agrees w.messages map
    → Agrees ms map'
    → Agrees
        (if not b then w else record w { messages = ms }).messages
        (λ k. if b then map' k else map k)
step-Agrees true w ms map map' h g = record { unique = g.unique; same = g.same }
step-Agrees false w ms map map' h g = record { unique = h.unique; same = h.same }

step-active :
    (b : Bool) (w : Window) (ms : List ProtoMessage)
    → (if not b then w else record w { messages = ms }).active ≡ w.active
step-active true w ms = refl
step-active false w ms = refl

react-active : (c : Change) (w : Window) → (react c w).active ≡ w.active
unfolding react show_message drop_message
react-active (received m) w = step-active (m.chat_jid == w.active) w _
react-active (updated m) w = step-active (m.chat_jid == w.active) w _
react-active (deleted chat_jid id) w = step-active (chat_jid == w.active) w _

shown-Agrees :
    (c : Change) (w : Window)
    → IsUnique id_of w.messages
    → Agrees (react c w).messages (effect w.active c (shown w.messages))
unfolding react show_message drop_message
shown-Agrees (received m) w u =
    step-Agrees (m.chat_jid == w.active) w _ (shown w.messages) _
      (record { unique = u; same = λ k. refl })
      (placed-Agrees m false w.messages _ (find_message-Located m.id w.messages u) u)
shown-Agrees (updated m) w u =
    step-Agrees (m.chat_jid == w.active) w _ (shown w.messages) _
      (record { unique = u; same = λ k. refl })
      (placed-Agrees m true w.messages _ (find_message-Located m.id w.messages u) u)
shown-Agrees (deleted chat_jid id) w u =
    step-Agrees (chat_jid == w.active) w _ (shown w.messages) _
      (record { unique = u; same = λ k. refl })
      (dropped-Agrees id w.messages _ (find_message-Located id w.messages u) u)

-- The events on the map, one after the other.
abbrev pub effects :
    String → List Change → (String → Option ProtoMessage) → String → Option ProtoMessage
effects active [] map = map
effects active (c ∷ cs) map = effects active cs (effect active c map)

react-Agrees :
    (c : Change) (w : Window) (map : String → Option ProtoMessage)
    → Agrees w.messages map
    → Agrees (react c w).messages (effect w.active c map)
react-Agrees c w map h =
    subst (λ (f : String → Option ProtoMessage). Agrees (react c w).messages (effect w.active c f))
      (λ i k. h.same k i) (shown-Agrees c w h.unique)

-- Whatever messages arrive, change and are deleted, in whichever order, the list that onMessage and
-- onMessageDeleted keep stands for the map from ids that the events describe, and no message is
-- twice in it. An event for a message that is shown gives it the event's text, sender's name, time,
-- status and attachment; the reaction stays as it was shown first.
pub react_all-Agrees :
    (cs : List Change) (w : Window) (map : String → Option ProtoMessage)
    → Agrees w.messages map
    → Agrees (react_all cs w).messages (effects w.active cs map)
unfolding react_all
react_all-Agrees [] w map h = h
react_all-Agrees (c ∷ cs) w map h =
    subst
      (λ (a : String).
        Agrees (react_all cs (react c w)).messages (effects a cs (effect w.active c map)))
      (react-active c w)
      (react_all-Agrees cs (react c w) (effect w.active c map) (react-Agrees c w map h))
