-- ===== src/Store/Pages.antt =====
-- apps/daemon/store/store.go: what the pages of ListMessages and ListChats hold.
use zchat.Prelude.{
  ℕ, ◌≤◌, String, ◌≡◌, refl, sym, ap, Bool, true, false, List, [], ◌∷◌, ◌++◌, arith, eq_iff, ◌⊎◌,
  map, reverse, select, take, drop, length, length-take, length-map, length-reverse,
  take-append-drop, All, All-take, All-drop, All-reverse, All-select,
}
use mathlib.Core.List.{Perm, reverse-cons, map-append}
use zchat.Prelude.Int.{ℤ, pos, ◌≤ℤ◌, ◌<ℤ◌}
use zchat.Prelude.Exec.{ok}
use zchat.Prelude.Sort.{
  sort, IsSorted, IsOrder, sort-perm, sort-IsSorted, All-sort, IsSorted-take, IsSorted-drop,
  IsSorted-reverse, sorted_rest,
}
use zchat.Store.Types.{Chat, Message, MessageRow, MediaRow}
use zchat.Store.Db.{Db, query}
use zchat.Store.Messages.{newer}
use zchat.Store.MessageQueries.{page_matches, page_rows, list_messages, scan_message}
use zchat.Store.ChatQueries.{chat_before, listed, list_chat_rows}
use zchat.Store.Status.{calm}

newer-IsOrder : IsOrder newer
unfolding newer
newer-IsOrder = record { asym = λ x y h. ground arith; trans = λ x y z h k. ground arith }

chat_before-IsOrder : IsOrder chat_before
unfolding chat_before
chat_before-IsOrder = record { asym = λ x y h. ground arith; trans = λ x y z h k. ground arith }

-- Oldest first: no message is newer than one behind it.
abbrev pub IsChronological : List Message → Type 0
IsChronological [] = Unit {0}
IsChronological (x ∷ xs) = All (λ y. x.timestamp ≤ℤ y.timestamp) xs × IsChronological xs

scanned-All :
    (media : List MediaRow) (x : MessageRow) (xs : List MessageRow)
    → All (λ y. newer x y ≡ false) xs
    → All (λ y. x.timestamp ≤ℤ y.timestamp) (map (scan_message media) xs)
unfolding newer scan_message
scanned-All media x [] h = tt
scanned-All media x (y ∷ ys) h = (ground (arith, h.0), scanned-All media x ys h.1)

scanned-IsChronological :
    (media : List MediaRow) (xs : List MessageRow)
    → IsSorted (λ x y. newer y x) xs
    → IsChronological (map (scan_message media) xs)
unfolding scan_message
scanned-IsChronological media [] h = tt
scanned-IsChronological media (x ∷ xs) h =
    (scanned-All media x xs h.0, scanned-IsChronological media xs h.1)

map-reverse : {A B : Type 0} (f : A → B) (xs : List A) → map f (reverse xs) ≡ reverse (map f xs)
map-reverse f [] = refl
map-reverse f (x ∷ xs) =
    rw (reverse-cons x xs, reverse-cons (f x) (map f xs), map-append)
      (ap (λ (ys : List _). ys ++ f x ∷ []) (map-reverse f xs))

abbrev page : String → ℕ → ℤ → Db → List Message
page jid n before db =
    reverse (map (scan_message db.media) (page_rows jid (pos n) before db.messages))

-- The message belongs to the chat and, where a bound is given, is older than it.
abbrev pub IsAsked : String → ℤ → Message → Type 0
IsAsked jid before m = (m.chat_jid ≡ jid) × ((before ≡ pos 0) ⊎ (m.timestamp <ℤ before))

matched-IsAsked :
    (jid : String) (before : ℤ) (m : MessageRow)
    → page_matches jid before m ≡ true
    → (m.chat_jid ≡ jid) × ((before ≡ pos 0) ⊎ (m.timestamp <ℤ before))
unfolding page_matches
matched-IsAsked jid before m h = (ground (arith, eq_iff m.chat_jid jid), ground arith)

map-IsAsked :
    (jid : String) (before : ℤ) (media : List MediaRow) (xs : List MessageRow)
    → All (λ x. page_matches jid before x ≡ true) xs
    → All (IsAsked jid before) (map (scan_message media) xs)
unfolding scan_message
map-IsAsked jid before media [] h = tt
map-IsAsked jid before media (x ∷ xs) h =
    (matched-IsAsked jid before x h.0, map-IsAsked jid before media xs h.1)

page_rows-IsSorted :
    (jid : String) (n : ℕ) (before : ℤ) (ms : List MessageRow)
    → IsSorted newer (page_rows jid (pos n) before ms)
unfolding page_rows
page_rows-IsSorted jid n before ms =
    IsSorted-take newer n _
      (sort-IsSorted newer newer-IsOrder (select (page_matches jid before) ms))

page_rows-matches :
    (jid : String) (n : ℕ) (before : ℤ) (ms : List MessageRow)
    → All (λ x. page_matches jid before x ≡ true) (page_rows jid (pos n) before ms)
unfolding page_rows
page_rows-matches jid n before ms =
    All-take _ n _ (All-sort newer _ _ (All-select (page_matches jid before) ms))

page_rows-length :
    (jid : String) (n : ℕ) (before : ℤ) (ms : List MessageRow)
    → length (page_rows jid (pos n) before ms) ≤ n
unfolding page_rows
page_rows-length jid n before ms =
    omega (arith, length-take n (sort newer (select (page_matches jid before) ms)))

-- Where the driver refuses nothing, ListMessages returns at most `n` messages, all of the chat and
-- older than the bound if one is given, in chronological order.
pub list_messages_page :
    (jid : String) (n : ℕ) (before : ℤ) (db : Db)
    → (msgs : List Message) × (list_messages jid (pos n) before (calm db) ≡ (ok msgs, calm db))
      × IsChronological msgs
      × All (IsAsked jid before) msgs
      × (length msgs ≤ n)
unfolding list_messages query
list_messages_page jid n before db = (
  page jid n before db,
  refl,
  rw (sym (map-reverse (scan_message db.media) (page_rows jid (pos n) before db.messages))) (
      scanned-IsChronological db.media _
        (IsSorted-reverse newer _ (page_rows-IsSorted jid n before db.messages))),
  All-reverse _ _ (map-IsAsked jid before db.media _ (page_rows-matches jid n before db.messages)),
  omega (
    arith,
    length-reverse (map (scan_message db.media) (page_rows jid (pos n) before db.messages)),
    length-map (scan_message db.media) (page_rows jid (pos n) before db.messages),
    page_rows-length jid n before db.messages,
  ),
)

sorted_newest :
    (xs ys : List MessageRow)
    → All (λ x. All (λ y. newer y x ≡ false) ys) xs
    → All (λ x. All (λ y. y.timestamp ≤ℤ x.timestamp) ys) xs
sorted_newest [] ys h = tt
sorted_newest (x ∷ xs) ys h = (each x ys h.0, sorted_newest xs ys h.1)
  where
    each :
        (x : MessageRow) (ys : List MessageRow)
        → All (λ y. newer y x ≡ false) ys
        → All (λ y. y.timestamp ≤ℤ x.timestamp) ys
    each x [] h = tt
    each x (y ∷ ys) h = (unfold newer in ground (arith, h.0), each x ys h.1)

-- The page of ListMessages holds the newest messages asked for: with those left out it makes up
-- all that match, and none of those left out is newer than one in the page.
pub page_rows-newest :
    (jid : String) (n : ℕ) (before : ℤ) (ms : List MessageRow)
    → (rest : List MessageRow) × Perm
        (page_rows jid (pos n) before ms ++ rest)
        (select (page_matches jid before) ms)
      × All (λ x. All (λ y. y.timestamp ≤ℤ x.timestamp) rest) (page_rows jid (pos n) before ms)
unfolding page_rows
page_rows-newest jid n before ms =
    let all = sort newer (select (page_matches jid before) ms) in
    (
      drop n all,
      rw (take-append-drop n all) (sort-perm newer (select (page_matches jid before) ms)),
      sorted_newest (take n all) (drop n all)
          (sorted_rest newer n all (sort-IsSorted newer newer-IsOrder _)),
    )

-- A page of ListChats holds chats of the list asked for, pinned ones first and then the most recently
-- updated, and no more than the limit.
pub list_chat_rows-page :
    (n o : ℕ) (archived : Bool) (cs : List Chat)
    → IsSorted chat_before (list_chat_rows (pos n) (pos o) archived cs)
      × All (λ c. listed archived c ≡ true) (list_chat_rows (pos n) (pos o) archived cs)
      × (length (list_chat_rows (pos n) (pos o) archived cs) ≤ n)
unfolding list_chat_rows
list_chat_rows-page n o archived cs =
    let all = sort chat_before (select (listed archived) cs) in
    (
      IsSorted-take chat_before n _
          (IsSorted-drop chat_before o _ (sort-IsSorted chat_before chat_before-IsOrder _)),
      All-take _ n _ (All-drop _ o _ (All-sort chat_before _ _ (All-select (listed archived) cs))),
      omega (arith, length-take n (drop o all)),
    )
