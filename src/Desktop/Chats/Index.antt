-- ===== src/Desktop/Chats/Index.antt =====
-- apps/desktop/window.go, upsertChat, removeChat and the results of a search: the index and the order of
-- the chats agree.
use zchat.Prelude.{
  ℕ, suc, String, ◌≡◌, refl, true, false, List, [], ◌∷◌, Option, none, some, eqb, arith,
}
use zchat.Store.Types.{Chat}
use zchat.Desktop.Chats.{
  Sidebar, write, copy_chat_into, upsert_at, upsert_chat, remove_at, remove_chat, result_at,
  search_results,
}
use zchat.Desktop.Chats.Indexed.{
  holds, IsIndexed, copied-IsIndexed, added-IsIndexed, removed-IsIndexed,
}

pub data Update : Type 0 where
  upserts : Chat → Update
  removes : String → Update
  searches : List Chat → Update

abbrev pub update_all : List Update → Sidebar → Sidebar
update_all [] s = s
update_all (upserts c ∷ us) s = update_all us (upsert_chat c s)
update_all (removes jid ∷ us) s = update_all us (remove_chat jid s)
update_all (searches cs ∷ us) s = update_all us (search_results cs s).1

upsert_at-IsIndexed :
    (o : Option ℕ) (c : Chat) (s : Sidebar)
    → s.index c.jid ≡ o
    → IsIndexed s
    → IsIndexed (upsert_at o c s)
unfolding upsert_at copy_chat_into
upsert_at-IsIndexed none c s e h = added-IsIndexed s c e h
upsert_at-IsIndexed (some p) c s e h = copied-IsIndexed s p (copy_chat_into (s.chats p) c) refl h

remove_at-IsIndexed :
    (o : Option ℕ) (jid : String) (s : Sidebar)
    → s.index jid ≡ o
    → IsIndexed s
    → IsIndexed (remove_at o jid s)
remove_at-IsIndexed none jid s e h = h
remove_at-IsIndexed (some p) jid s e h = removed-IsIndexed s jid p e h

-- A result that is no chat of the sidebar gets a pointer of its own.
allocated-IsIndexed :
    (s : Sidebar) (c : Chat)
    → IsIndexed s
    → IsIndexed (record s { chats = write s.made c s.chats; made = suc s.made })
allocated-IsIndexed s c h = record {
  indexed = λ p g. rw (old p g) (h.indexed p g);
  ordered = λ j p g. let (o, q) = h.ordered j p g in rw (old p o) (o, q);
  distinct = h.distinct;
  allocated = λ p g. ground (arith, h.allocated p g);
}
  where
    old : (p : ℕ) → holds p s.order ≡ true → eqb p s.made ≡ false
    old p g = ground (arith, h.allocated p g)

result_at-IsIndexed :
    (o : Option ℕ) (c : Chat) (s : Sidebar) → IsIndexed s → IsIndexed (result_at o c s).1
unfolding copy_chat_into
result_at-IsIndexed none c s h = allocated-IsIndexed s c h
result_at-IsIndexed (some p) c s h = copied-IsIndexed s p (copy_chat_into (s.chats p) c) refl h

search_results-IsIndexed :
    (cs : List Chat) (s : Sidebar) → IsIndexed s → IsIndexed (search_results cs s).1
unfolding search_results
search_results-IsIndexed [] s h = h
search_results-IsIndexed (c ∷ cs) s h =
    search_results-IsIndexed cs (result_at (s.index c.jid) c s).1
      (result_at-IsIndexed (s.index c.jid) c s h)

-- Whatever chats are upserted, removed and searched for, the index and the order keep holding the
-- same chats:
-- each chat of the order is found under its JID, each entry of the index is in the order under its
-- own JID, and no chat is twice in the order.
pub update_all-IsIndexed :
    (us : List Update) (s : Sidebar) → IsIndexed s → IsIndexed (update_all us s)
unfolding upsert_chat remove_chat
update_all-IsIndexed [] s h = h
update_all-IsIndexed (upserts c ∷ us) s h =
    update_all-IsIndexed us (upsert_chat c s) (upsert_at-IsIndexed (s.index c.jid) c s refl h)
update_all-IsIndexed (removes jid ∷ us) s h =
    update_all-IsIndexed us (remove_chat jid s) (remove_at-IsIndexed (s.index jid) jid s refl h)
update_all-IsIndexed (searches cs ∷ us) s h =
    update_all-IsIndexed us (search_results cs s).1 (search_results-IsIndexed cs s h)
