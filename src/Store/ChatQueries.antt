-- ===== src/Store/ChatQueries.antt =====
-- apps/daemon/store/store.go: the queries on the `chats` table.
use zchat.Prelude.{
  ℕ, String, Bool, ◌&&◌, ◌||◌, not, List, [], ◌∷◌, none, some, ◌==◌, if◌then◌else◌, take, drop,
  select, map, same_bool,
}
use zchat.Prelude.Int.{ℤ, pos, negsuc, ltb_ℤ, leb_ℤ}
use zchat.Prelude.Exec.{not_found, failure, Result, ok, err}
use zchat.Prelude.Rows.{find, count}
use zchat.Prelude.Sort.{sort}
use zchat.Store.Types.{Chat}
use zchat.Store.Db.{Sql, query}
use zchat.Store.Like.{codes, is_like, is_like_escaped, search_pattern, jid_user, same_codes}
use zchat.Store.Chats.{chat_jid}

-- realChatFilter
unfoldable pub is_real_chat : Chat → Bool
unfolding is_like
is_real_chat c =
    is_like (codes "%@s.whatsapp.net") c.jid
    || is_like (codes "%@c.us") c.jid
    || is_like (codes "%@lid") c.jid
    || is_like (codes "%@g.us") c.jid

-- CountChats
unfoldable pub count_chats : Sql ℕ
count_chats = query "count chats" λ db. ok (count is_real_chat db.chats)

-- A database integer fits Go's int32.
unfoldable pub fits_int32 : ℤ → Bool
fits_int32 z = leb_ℤ (negsuc 2147483647) z && leb_ℤ z (pos 2147483647)

-- scanChat: the scan of `unread` into an int32 fails out of its range.
unfoldable pub scan_chat : Chat → Result Chat
unfolding fits_int32
scan_chat c = if fits_int32 c.unread then ok c else err (failure "scan chat")

-- The loop over the rows of a query.
unfoldable pub scan_chats : List Chat → Result (List Chat)
unfolding scan_chat
scan_chats [] = ok []
scan_chats (c ∷ cs) =
    let rest = scan_chats cs in
    elim (scan_chat c) [
      | err e ↦ err e
      | ok a ↦ elim rest [ err e ↦ err e | ok as' ↦ ok (a ∷ as') ]
    ]

-- `ORDER BY pinned DESC, updated_at DESC`: the first comes before the second.
unfoldable pub chat_before : Chat → Chat → Bool
chat_before a b =
    (a.pinned && not b.pinned) || (same_bool a.pinned b.pinned && ltb_ℤ b.updated_at a.updated_at)

-- `LIMIT`: a negative limit is no limit.
abbrev pub limited {ℓ} : {A : Type ℓ} → ℤ → List A → List A
limited (pos n) xs = take n xs
limited (negsuc n) xs = xs

-- `OFFSET`: a negative offset skips nothing.
abbrev pub skipped {ℓ} : {A : Type ℓ} → ℤ → List A → List A
skipped (pos n) xs = drop n xs
skipped (negsuc n) xs = xs

abbrev pub listed : Bool → Chat → Bool
listed archived c = is_real_chat c && same_bool c.archived archived

unfoldable pub list_chat_rows : ℤ → ℤ → Bool → List Chat → List Chat
list_chat_rows limit offset archived cs =
    limited limit (skipped offset (sort chat_before (select (listed archived) cs)))

-- ListChats
unfoldable pub list_chats : ℤ → ℤ → Bool → Sql (List Chat)
list_chats limit offset archived =
    query "list chats" λ db. scan_chats (list_chat_rows limit offset archived db.chats)

-- GetChat
unfoldable pub get_chat : String → Sql Chat
get_chat jid =
    query "get chat"
      λ db. elim (find chat_jid jid db.chats) [ none ↦ err not_found | some c ↦ scan_chat c ]

-- ChatName
unfoldable pub chat_name : String → Sql String
chat_name jid =
    query "get chat name"
      λ db. ok (elim (find chat_jid jid db.chats) [ none ↦ "" | some c ↦ c.name ])

unfoldable pub is_named_by_number : Chat → Bool
unfolding jid_user same_codes
is_named_by_number c =
    not c.is_group && (c.name == "" || same_codes (codes c.name) (jid_user c.jid))

-- ChatsNamedByNumber
unfoldable pub chats_named_by_number : Sql (List String)
chats_named_by_number =
    query "scan chats named by number" λ db. ok (map chat_jid (select is_named_by_number db.chats))

-- LIDChats
unfoldable pub lid_chats : Sql (List String)
lid_chats =
    query "scan lid chats"
      λ db. ok (map chat_jid (select (λ c. is_like (codes "%@lid") c.jid) db.chats))

-- The `WHERE` of SearchChats.
unfoldable pub chat_matches : String → Chat → Bool
unfolding is_real_chat is_like_escaped search_pattern
chat_matches q c =
    is_real_chat c
    && (is_like_escaped (search_pattern q) c.name
        || is_like_escaped (search_pattern q) c.last_message)

-- SearchChats
unfoldable pub search_chats : String → ℤ → Sql (List Chat)
search_chats q limit =
    query "search chats"
      λ db. scan_chats (limited limit (sort chat_before (select (chat_matches q) db.chats)))
