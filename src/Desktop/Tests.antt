-- ===== src/Desktop/Tests.antt =====
-- The theorems on the desktop client at concrete inputs.
use zchat.Prelude.{List, ◌-◌, String, ◌≡◌, false, [], ◌∷◌, ◌++◌, none, eqb, arith, take, drop}
use zchat.Prelude.Int.{pos}
use zchat.Desktop.Media.{IsFitted, preview_size, preview_size-IsFitted}
use zchat.Desktop.Media.Size.{human_size, human_size-panics}
use zchat.Desktop.Splice.{apply_model, apply_model_lem, eqb-eq}
use zchat.Store.Types.{Chat}
use zchat.Desktop.Chats.{Sidebar}
use zchat.Desktop.Chats.Indexed.{IsIndexed}
use zchat.Desktop.Chats.Index.{Update, upserts, removes, searches, update_all, update_all-IsIndexed}
use zchat.Desktop.Emoji.{splice_runes, splice_runes_lem}

preview_size-IsFitted_example : IsFitted false (preview_size "image" (pos 40) (pos 120))
preview_size-IsFitted_example = preview_size-IsFitted "image" (pos 40) (pos 120)

human_size-panics_example : human_size (pos 1125899906842624) ≡ none
human_size-panics_example = human_size-panics 1125899906842624 (omega arith) (omega arith)

apply_model_lem_example :
    apply_model eqb (1 ∷ 2 ∷ 3 ∷ 4 ∷ []) (1 ∷ 3 ∷ 2 ∷ 4 ∷ []) ≡ 1 ∷ 3 ∷ 2 ∷ 4 ∷ []
apply_model_lem_example = apply_model_lem eqb eqb-eq (1 ∷ 2 ∷ 3 ∷ 4 ∷ []) (1 ∷ 3 ∷ 2 ∷ 4 ∷ [])

splice_runes_lem_example :
    let (updated, caret) = splice_runes (1 ∷ 2 ∷ []) (9 ∷ []) (pos 1) in
    (take caret updated ≡ take (caret - 1) updated ++ 9 ∷ [])
    × (take (caret - 1) updated ++ drop caret updated ≡ 1 ∷ 2 ∷ [])
splice_runes_lem_example = splice_runes_lem (1 ∷ 2 ∷ []) (9 ∷ []) (pos 1)

abbrev chat_named : String → Chat
chat_named jid = record {
  jid = jid;
  name = "";
  unread = pos 0;
  archived = false;
  pinned = false;
  last_message = "";
  updated_at = pos 5;
  is_group = false;
  muted_until = pos 0;
}

abbrev no_chats : Sidebar
no_chats = record { chats = λ p. chat_named ""; made = 0; order = []; index = λ j. none }

no_chats-IsIndexed : IsIndexed no_chats
no_chats-IsIndexed = record {
  indexed = λ p g. cc;
  ordered = λ j p g. cc;
  distinct = tt;
  allocated = λ p g. cc;
}

abbrev updates : List Update
updates =
    upserts (chat_named "1@s")
    ∷ upserts (chat_named "2@s")
    ∷ upserts (chat_named "1@s")
    ∷ searches (chat_named "2@s" ∷ chat_named "3@s" ∷ [])
    ∷ removes "2@s"
    ∷ []

update_all-IsIndexed_example : IsIndexed (update_all updates no_chats)
update_all-IsIndexed_example = update_all-IsIndexed updates no_chats no_chats-IsIndexed
