-- ===== src/Desktop/Conversation/Paging.antt =====
-- apps/desktop/find.go, scrollToMessage: the walk back through older pages. No other event comes
-- between a page and the next call.
use zchat.Prelude.{
  ℕ, zero, suc, ◌≤◌, String, ◌≡◌, refl, sym, ◌∙◌, subst, Bool, true, false, not, List, [], ◌∷◌,
  ◌++◌, Option, none, some, ◌==◌, eq_iff, eq_refl, length, length-append, get_elem?, arith,
  if◌then◌else◌,
}
use mathlib.Core.List.{append_assoc}
use zchat.Prelude.Int.{ℤ}
use zchat.Wa.Proto.{ProtoMessage}
use zchat.Desktop.Conversation.{Window, page_added}

abbrev pub next_of : Bool → Option ℕ → Option ℕ
next_of true o = some 0
next_of false none = none
next_of false (some i) = some (suc i)

-- The scan of scrollToMessage, from the oldest message on.
abbrev pub index_of : String → List ProtoMessage → Option ℕ
index_of id [] = none
index_of id (m ∷ ms) = next_of (m.id == id) (index_of id ms)

-- findPageLimit
abbrev pub find_page_limit : ℕ
find_page_limit = 10

abbrev pub asks : ℤ → Window → Window
asks oldest w = record w { asked = (w.active, oldest) ∷ w.asked }

-- The answers of the daemon, by the chat and the bound on the time; none is an error.
module _ (answers : String → ℤ → Option (List ProtoMessage)) where
  abbrev pub after_page :
      (Window → Option ℕ × Window) → Option (List ProtoMessage) → Window → Option ℕ × Window
  after_page again none w = (none, page_added w.active none w)
  after_page again (some []) w = (none, page_added w.active (some []) w)
  after_page again (some (m ∷ ms)) w = again (page_added w.active (some (m ∷ ms)) w)

  abbrev pub walk_back :
      (Window → Option ℕ × Window) → List ProtoMessage → Window → Option ℕ × Window
  walk_back again [] w = (none, w)
  walk_back again (m ∷ ms) w = after_page again (answers w.active m.timestamp) (asks m.timestamp w)

  abbrev pub unless_found : (Window → Option ℕ × Window) → Option ℕ → Window → Option ℕ × Window
  unless_found again (some i) w = (some i, w)
  unless_found again none w = if not w.has_client then (none, w) else walk_back again w.messages w

  -- scrollToMessage: the row that is scrolled to, or none with a toast, or with a page that ends the
  -- walk; and the window.
  unfoldable pub scroll_to_message : ℕ → String → Window → Option ℕ × Window
  scroll_to_message zero id w = (index_of id w.messages, w)
  scroll_to_message (suc budget) id w =
      unless_found (scroll_to_message budget id) (index_of id w.messages) w

  abbrev pub Shows : String → Option ℕ → List ProtoMessage → Type 0
  Shows id none ms = index_of id ms ≡ none
  Shows id (some i) ms = (m : ProtoMessage) × (get_elem? ms i ≡ some m) × (m.id ≡ id)

  -- How a walk may end: what was shown is still there, below the pages that came; no more pages than
  -- the budget were asked for; and the row is the message's, or the message is not there.
  pub record Walked (budget : ℕ) (id : String) (w : Window) (out : Option ℕ × Window) : Type 0 where
    pub older : List ProtoMessage
    pub kept : out.1.messages ≡ older ++ w.messages
    pub requests : List (String × ℤ)
    pub asked : out.1.asked ≡ requests ++ w.asked
    pub bounded : length requests ≤ budget
    pub shows : Shows id out.0 out.1.messages

  abbrev Stands : String → Option ℕ → List ProtoMessage → Type 0
  Stands id none ms = Unit {0}
  Stands id (some i) ms = (m : ProtoMessage) × (get_elem? ms i ≡ some m) × (m.id ≡ id)

  next-Stands :
      (id : String) (m : ProtoMessage) (ms : List ProtoMessage) (b : Bool) (o : Option ℕ)
      → (m.id == id) ≡ b
      → Stands id o ms
      → Stands id (next_of b o) (m ∷ ms)
  next-Stands id m ms true o e h = (m, refl, ground (arith, eq_iff m.id id))
  next-Stands id m ms false none e h = tt
  next-Stands id m ms false (some i) e (x, p, q) = (x, p, q)

  index_of-Stands : (id : String) (ms : List ProtoMessage) → Stands id (index_of id ms) ms
  index_of-Stands id [] = tt
  index_of-Stands id (m ∷ ms) =
      next-Stands id m ms (m.id == id) (index_of id ms) refl (index_of-Stands id ms)

  Stands-Shows :
      (id : String) (ms : List ProtoMessage) (o : Option ℕ)
      → index_of id ms ≡ o
      → Stands id o ms
      → Shows id o ms
  Stands-Shows id ms none e h = e
  Stands-Shows id ms (some i) e h = h

  stays :
      (budget : ℕ) (id : String) (w : Window) (o : Option ℕ)
      → index_of id w.messages ≡ o
      → Walked budget id w (o, w)
  stays budget id w o e = record {
    older = [];
    kept = refl;
    requests = [];
    asked = refl;
    bounded = omega arith;
    shows =
        Stands-Shows id w.messages o e
          (subst (λ a. Stands id a w.messages) e (index_of-Stands id w.messages));
  }

  -- The end of the walk at a page that does not come.
  ended :
      (budget : ℕ) (id : String) (w : Window) (oldest : ℤ)
      → index_of id w.messages ≡ none
      → Walked (suc budget) id w (none, record (asks oldest w) { has_older = false })
  ended budget id w oldest e = record {
    older = [];
    kept = refl;
    requests = (w.active, oldest) ∷ [];
    asked = refl;
    bounded = omega arith;
    shows = e;
  }

  -- One page, and the walk from there.
  further :
      (budget : ℕ) (id : String) (w : Window) (oldest : ℤ) (page : List ProtoMessage)
      (out : Option ℕ × Window)
      → Walked budget id (record (asks oldest w) { messages = page ++ w.messages }) out
      → Walked (suc budget) id w out
  further budget id w oldest page out h = record {
    older = h.older ++ page;
    kept = h.kept ∙ sym (append_assoc h.older page w.messages);
    requests = h.requests ++ (w.active, oldest) ∷ [];
    asked = h.asked ∙ sym (append_assoc h.requests ((w.active, oldest) ∷ []) w.asked);
    bounded = omega (arith, length-append h.requests ((w.active, oldest) ∷ []), h.bounded);
    shows = h.shows;
  }

  after_page-Walked :
      (budget : ℕ) (id : String) (w : Window) (oldest : ℤ) (reply : Option (List ProtoMessage))
      → index_of id w.messages ≡ none
      → ((v : Window) → Walked budget id v (scroll_to_message budget id v))
      → Walked (suc budget) id w (after_page (scroll_to_message budget id) reply (asks oldest w))
  after_page-Walked budget id w oldest none e k = ended budget id w oldest e
  after_page-Walked budget id w oldest (some []) e k = ended budget id w oldest e
  after_page-Walked budget id w oldest (some (m ∷ ms)) e k =
      further budget id w oldest (m ∷ ms) _ (rw (eq_refl w.active) (k _))

  walk_back-Walked :
      (budget : ℕ) (id : String) (w : Window) (ms : List ProtoMessage)
      → index_of id w.messages ≡ none
      → ((v : Window) → Walked budget id v (scroll_to_message budget id v))
      → Walked (suc budget) id w (walk_back (scroll_to_message budget id) ms w)
  walk_back-Walked budget id w [] e k = stays (suc budget) id w none e
  walk_back-Walked budget id w (m ∷ ms) e k =
      after_page-Walked budget id w m.timestamp (answers w.active m.timestamp) e k

  unless_found-Walked :
      (budget : ℕ) (id : String) (w : Window) (o : Option ℕ)
      → index_of id w.messages ≡ o
      → ((v : Window) → Walked budget id v (scroll_to_message budget id v))
      → Walked (suc budget) id w (unless_found (scroll_to_message budget id) o w)
  unless_found-Walked budget id w (some i) e k = stays (suc budget) id w (some i) e
  unless_found-Walked budget id w none e k =
      elim w.has_client
        as (λ b.
          Walked (suc budget) id w
            (if not b then (none, w) else walk_back (scroll_to_message budget id) w.messages w)) [
              | true ↦ walk_back-Walked budget id w w.messages e k
              | false ↦ stays (suc budget) id w none e
            ]

  -- From any window and for any daemon: scrollToMessage comes to an end after as many requests for
  -- older pages as its budget at most; it takes no message away; and it scrolls to the row of the
  -- message, or the message is not among those that are loaded.
  pub scroll_to_message-Walked :
      (budget : ℕ) (id : String) (w : Window) → Walked budget id w (scroll_to_message budget id w)
  unfolding scroll_to_message
  scroll_to_message-Walked zero id w = stays 0 id w (index_of id w.messages) refl
  scroll_to_message-Walked (suc budget) id w =
      unless_found-Walked budget id w (index_of id w.messages) refl
        (scroll_to_message-Walked budget id)
