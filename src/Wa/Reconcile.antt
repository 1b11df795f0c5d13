-- ===== src/Wa/Reconcile.antt =====
-- apps/daemon/wa/session.go, reconcileChats: chats keyed by a LID, and chats without a name.
use zchat.Prelude.{String, ◌||◌, List, [], ◌∷◌, Option, none, some, ◌==◌, if◌then◌else◌}
use zchat.Prelude.Exec.{Exec, Result, ok, err, ◌>>=◌, ◌>>◌}
use zchat.Store.Chats.{merge_chat, set_chat_name}
use zchat.Store.ChatQueries.{lid_chats, chats_named_by_number}
use zchat.Wa.Session.{Session, chat_deleted, on_store, emit, publish_chat}
use zchat.Wa.Whatsmeow.{Whatsmeow}
use zchat.Wa.Lookup.{canonical_chat_jid, name_or_number}

module _ (W : Whatsmeow) where
  open W use {Jid, parse_jid, user}

  abbrev pub after_merge : Result (Unit {0}) → String → String → Exec Session (Unit {0})
  after_merge (err e) from to s = (ok tt, s)
  after_merge (ok t) from to s = (emit (chat_deleted from) >> publish_chat to) s

  abbrev pub merge_into : String → String → Exec Session (Unit {0})
  merge_into from to s =
      if to == from
      then (ok tt, s)
      else let (r, s') = on_store (merge_chat from to) s in after_merge r from to s'

  abbrev pub merge_lid_chat : Option Jid → String → Exec Session (Unit {0})
  merge_lid_chat none chat s = (ok tt, s)
  merge_lid_chat (some jid) chat s = merge_into chat (canonical_chat_jid W jid s) s

  abbrev pub merge_all : List String → Exec Session (Unit {0})
  merge_all [] s = (ok tt, s)
  merge_all (chat ∷ chats) s =
      let (r, s') = merge_lid_chat (parse_jid chat) chat s in merge_all chats s'

  abbrev pub rows_or_none : Result (List String) → List String
  rows_or_none (ok xs) = xs
  rows_or_none (err e) = []

  -- mergeLIDChats; the counts are only logged.
  unfoldable pub merge_lid_chats : Exec Session (Unit {0})
  merge_lid_chats s = let (r, s') = on_store lid_chats s in merge_all (rows_or_none r) s'

  abbrev pub after_name : Result (Unit {0}) → String → Exec Session (Unit {0})
  after_name (err e) chat s = (ok tt, s)
  after_name (ok t) chat s = publish_chat chat s

  abbrev pub set_found_name : String → String → Jid → Exec Session (Unit {0})
  set_found_name name chat jid s =
      if name == "" || name == user jid
      then (ok tt, s)
      else let (r, s') = on_store (set_chat_name chat name) s in after_name r chat s'

  abbrev pub name_chat : Option Jid → String → Exec Session (Unit {0})
  name_chat none chat s = (ok tt, s)
  name_chat (some jid) chat s = (name_or_number W jid >>= λ name. set_found_name name chat jid) s

  abbrev pub name_all : List String → Exec Session (Unit {0})
  name_all [] s = (ok tt, s)
  name_all (chat ∷ chats) s = let (r, s') = name_chat (parse_jid chat) chat s in name_all chats s'

  -- backfillChatNames; the counts are only logged.
  unfoldable pub backfill_chat_names : Exec Session (Unit {0})
  backfill_chat_names s =
      let (r, s') = on_store chats_named_by_number s in name_all (rows_or_none r) s'

  -- reconcileChats
  unfoldable pub reconcile_chats : Exec Session (Unit {0})
  unfolding merge_lid_chats backfill_chat_names
  reconcile_chats = merge_lid_chats >> backfill_chat_names
