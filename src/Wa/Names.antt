-- ===== src/Wa/Names.antt =====
-- apps/daemon/wa/names.go: the cache of contact names and phone numbers.
use zchat.Prelude.{String, ◌≡◌, refl, ap, List, [], ◌∷◌, Option, none, some, ◌==◌, if◌then◌else◌}

-- nameCache: its two maps, which answer none at a missing key.
pub record NameCache : Type 0 where
  pub names : String → Option String
  pub numbers : String → Option String

-- newNameCache, and what reset leaves.
abbrev pub new_name_cache : NameCache
new_name_cache = record { names = λ j. none; numbers = λ j. none }

abbrev pub set : String → Option String → (String → Option String) → String → Option String
set k v f x = if x == k then v else f x

-- putName
unfoldable pub put_name : String → String → NameCache → NameCache
put_name jid v c = record c { names = set jid (some v) c.names }

-- putNumber
unfoldable pub put_number : String → String → NameCache → NameCache
put_number jid v c = record c { numbers = set jid (some v) c.numbers }

-- drop, for the JID without its device.
unfoldable pub drop_name : String → NameCache → NameCache
drop_name jid c = record c { names = set jid none c.names }

-- reset
unfoldable pub reset_names : NameCache → NameCache
reset_names c = new_name_cache

pub data Change : Type 0 where
  puts_name puts_number : String → String → Change
  drops : String → Change
  resets : Change

abbrev pub change : Change → NameCache → NameCache
unfolding put_name put_number drop_name reset_names
change (puts_name j v) c = put_name j v c
change (puts_number j v) c = put_number j v c
change (drops j) c = drop_name j c
change resets c = reset_names c

abbrev pub change_all : List Change → NameCache → NameCache
unfolding change
change_all [] c = c
change_all (k ∷ ks) c = change k (change_all ks c)

-- The name that the newest change on it leaves a JID, of changes listed newest first.
abbrev pub known_name : String → List Change → Option String
known_name j [] = none
known_name j (puts_name d v ∷ ks) = if j == d then some v else known_name j ks
known_name j (drops d ∷ ks) = if j == d then none else known_name j ks
known_name j (resets ∷ ks) = none
known_name j (puts_number d v ∷ ks) = known_name j ks

-- Likewise for numbers, which are not dropped with a name.
abbrev pub known_number : String → List Change → Option String
known_number j [] = none
known_number j (puts_number d v ∷ ks) = if j == d then some v else known_number j ks
known_number j (resets ∷ ks) = none
known_number j (puts_name d v ∷ ks) = known_number j ks
known_number j (drops d ∷ ks) = known_number j ks

-- After any changes the cache answers with the newest name that was put for a JID and not dropped
-- since, and with the newest number; a reset forgets all.
pub change_all-known :
    (ks : List Change) (j : String)
    → ((change_all ks new_name_cache).names j ≡ known_name j ks)
      × ((change_all ks new_name_cache).numbers j ≡ known_number j ks)
unfolding change_all change put_name put_number drop_name reset_names
change_all-known [] j = (refl, refl)
change_all-known (puts_name d v ∷ ks) j =
    let (h, k) = change_all-known ks j in
    (ap (λ (o : Option String). if j == d then some v else o) h, k)
change_all-known (puts_number d v ∷ ks) j =
    let (h, k) = change_all-known ks j in
    (h, ap (λ (o : Option String). if j == d then some v else o) k)
change_all-known (drops d ∷ ks) j =
    let (h, k) = change_all-known ks j in
    (ap (λ (o : Option String). if j == d then none else o) h, k)
change_all-known (resets ∷ ks) j = (refl, refl)
