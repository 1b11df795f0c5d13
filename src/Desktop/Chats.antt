-- ===== src/Desktop/Chats.antt =====
-- apps/desktop/window.go: the chats of the sidebar, their index by JID and the list that is shown.
-- The redraws that the functions ask the toolkit for are left out.
pub mod Indexed
pub mod Index
use zchat.Prelude.{
  ℕ, suc, ◌+◌, ◌≤◌, ◌<◌, String, ◌≡◌, refl, sym, ap, ◌∙◌, subst, Bool, true, false, not, ◌&&◌, ◌||◌,
  List, [], ◌∷◌, ◌++◌, Option, none, some, ◌==◌, eq_iff, eq_refl, eqb, same_bool, select, All,
  All-append, All-select, arith, if◌then◌else◌, Bool-cases, Option-cases, inl, inr,
}
use zchat.Prelude.Int.{ltb_ℤ}
use zchat.Prelude.Sort.{sort, IsSorted, IsOrder, sort-perm, sort-IsSorted, All-sort}
use zchat.Store.Types.{Chat}

-- chatOrder and chatIndex hold pointers into `chats`, of which `made` have been allocated.
pub record Sidebar : Type 0 where
  pub chats : ℕ → Chat
  pub made : ℕ
  pub order : List ℕ
  pub index : String → Option ℕ

abbrev pub write : ℕ → Chat → (ℕ → Chat) → ℕ → Chat
write p c chats q = if eqb q p then c else chats q

abbrev pub point : String → Option ℕ → (String → Option ℕ) → String → Option ℕ
point j o index k = if k == j then o else index k

-- copyChatInto: every field but the JID.
unfoldable pub copy_chat_into : Chat → Chat → Chat
copy_chat_into dst src = record src { jid = dst.jid }

abbrev pub upsert_at : Option ℕ → Chat → Sidebar → Sidebar
unfolding copy_chat_into
upsert_at (some p) chat s = record s { chats = write p (copy_chat_into (s.chats p) chat) s.chats }
upsert_at none chat s = record {
  chats = write s.made chat s.chats;
  made = suc s.made;
  order = s.order ++ s.made ∷ [];
  index = point chat.jid (some s.made) s.index;
}

-- upsertChat
unfoldable pub upsert_chat : Chat → Sidebar → Sidebar
unfolding upsert_at
upsert_chat chat s = upsert_at (s.index chat.jid) chat s

-- The loop of removeChat, which ends at the first match.
abbrev pub remove_first : ℕ → List ℕ → List ℕ
remove_first p [] = []
remove_first p (q ∷ qs) = if eqb q p then qs else q ∷ remove_first p qs

abbrev pub remove_at : Option ℕ → String → Sidebar → Sidebar
remove_at none jid s = s
remove_at (some p) jid s = record s {
  index = point jid none s.index;
  order = remove_first p s.order;
}

-- removeChat
unfoldable pub remove_chat : String → Sidebar → Sidebar
remove_chat jid s = remove_at (s.index jid) jid s

pub data Filter : Type 0 where
  direct groups archived : Filter

-- filterMatches
unfoldable pub filter_matches : Filter → Chat → Bool
filter_matches archived c = c.archived
filter_matches groups c = not c.archived && c.is_group
filter_matches direct c = not c.archived && not c.is_group

-- The comparison that rebuildChatModel sorts by.
unfoldable pub chat_above : Chat → Chat → Bool
chat_above a b = if same_bool a.pinned b.pinned then ltb_ℤ b.updated_at a.updated_at else a.pinned

-- The chats that rebuildChatModel shows where nothing is searched for, and the order it leaves.
unfoldable pub rebuilt_order : Sidebar → List ℕ
rebuilt_order s = sort (λ p q. chat_above (s.chats p) (s.chats q)) s.order

unfoldable pub visible : Filter → Sidebar → List ℕ
visible f s = select (λ p. filter_matches f (s.chats p)) (rebuilt_order s)

-- A result of a search: the chat that is known already, with the result's fields, or a new pointer.
abbrev pub result_at : Option ℕ → Chat → Sidebar → ℕ × Sidebar
result_at (some p) c s = (p, record s { chats = write p (copy_chat_into (s.chats p) c) s.chats })
result_at none c s = (s.made, record s { chats = write s.made c s.chats; made = suc s.made })

-- The chats that rebuildChatModel shows for the results of a search.
unfoldable pub search_results : List Chat → Sidebar → List ℕ × Sidebar
search_results [] s = ([], s)
search_results (c ∷ cs) s =
    let (p, s') = result_at (s.index c.jid) c s in
    let (ps, s'') = search_results cs s' in (p ∷ ps, s'')

-- The row that rebuildChatModel selects for the open chat, if it is visible.
unfoldable pub selected : String → (ℕ → Chat) → List ℕ → Option ℕ
selected active chats [] = none
selected active chats (p ∷ ps) =
    if (chats p).jid == active
    then some 0
    else elim (selected active chats ps) [ none ↦ none | some i ↦ some (suc i) ]
