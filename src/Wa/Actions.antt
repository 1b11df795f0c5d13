-- ===== src/Wa/Actions.antt =====
-- apps/daemon/wa/actions.go: deletion and the flags of chats, from this device and from others.
pub mod Deletion
pub mod Mute
use zchat.Prelude.{
  String, Bool, true, false, not, ◌||◌, List, [], ◌∷◌, ◌++◌, Option, none, some, ◌*◌, ◌/◌, zero,
  suc, if◌then◌else◌,
}
use zchat.Prelude.Int.{ℤ, pos, negsuc}
use zchat.Prelude.Exec.{Exec, Result, ok, err, failure, pure, raise, ◌>>=◌, ◌>>◌}
use zchat.Store.Types.{Chat, Message}
use zchat.Store.Chats.{set_chat_flags}
use zchat.Store.ChatQueries.{get_chat}
use zchat.Store.Messages.{delete_message, refresh_last_message}
use zchat.Store.MessageQueries.{get_message}
use zchat.Wa.Session.{
  Session, Event, chat_updated, message_deleted, Outgoing, revokes, pins, archives, mutes, on_store,
  emit, tell, quietly, publish_chat,
}

-- MuteForever
abbrev pub mute_forever : ℤ
mute_forever = negsuc 0

-- muteUntilFrom of session.go
unfoldable pub mute_until_from : Bool → ℤ → ℤ
mute_until_from false end_ms = pos 0
mute_until_from true (negsuc k) = mute_forever
mute_until_from true (pos zero) = mute_forever
mute_until_from true (pos (suc n)) = pos (suc n / 1000)

-- muteePatch
unfoldable pub mutee_patch : String → ℤ → Outgoing
mutee_patch jid (negsuc k) = mutes jid true none
mutee_patch jid (pos zero) = mutes jid false none
mutee_patch jid (pos (suc n)) = mutes jid true (some (pos (suc n * 1000)))

-- The part that DeleteMessage, onDeleteForMe and onRevoke share.
unfoldable pub announce_deletion : String → String → Exec Session (Unit {0})
announce_deletion id chat = do
  quietly (on_store (refresh_last_message chat))
  emit (message_deleted id chat)
  publish_chat chat

abbrev pub after_deletion : Result (Unit {0}) → String → String → Exec Session (Unit {0})
after_deletion (ok t) id chat s = announce_deletion id chat s
after_deletion (err e) id chat s = (ok tt, s)

-- onRevoke, for the chat's JID and the message's id.
unfoldable pub on_revoke : String → String → Exec Session (Unit {0})
on_revoke chat id s = let (r, s') = on_store (delete_message id) s in after_deletion r id chat s'

-- onDeleteForMe
unfoldable pub on_delete_for_me : String → String → Exec Session (Unit {0})
on_delete_for_me chat id s =
    let (r, s') = on_store (delete_message id) s in after_deletion r id chat s'

abbrev pub after_flags : Result (Unit {0}) → String → Exec Session (Unit {0})
after_flags (ok t) chat s = publish_chat chat s
after_flags (err e) chat s = (ok tt, s)

-- onAppStateChat
unfoldable pub on_app_state_chat :
    String → Option Bool → Option Bool → Option ℤ → Exec Session (Unit {0})
on_app_state_chat chat p a m s =
    let (r, s') = on_store (set_chat_flags chat p a m) s in after_flags r chat s'

abbrev pub patch_of {ℓ} : {A : Type ℓ} → (A → Outgoing) → Option A → List Outgoing
patch_of f none = []
patch_of f (some a) = f a ∷ []

-- The patches of UpdateChat, in their order.
abbrev pub patches : String → ℤ → Option Bool → Option Bool → Option ℤ → List Outgoing
patches jid last p a m =
    patch_of (pins jid) p ++ (patch_of (λ b. archives jid b last) a ++ patch_of (mutee_patch jid) m)

-- The loop over the patches; an error is only logged.
abbrev pub send_patches : List Outgoing → Exec Session (Unit {0})
send_patches [] s = (ok tt, s)
send_patches (r ∷ rs) s =
    let (t, s') = quietly (tell "send app state patch" r) s in send_patches rs s'

-- DeleteMessage, from its call of the store on.
unfoldable pub delete_row : String → String → Exec Session String
delete_row id chat = do on_store (delete_message id); announce_deletion id chat; pure chat

-- `is_jid` tells which texts ParseJID of whatsmeow reads.
module _ (is_jid : String → Bool) where
  -- UpdateChat
  unfoldable pub update_chat : String → Option Bool → Option Bool → Option ℤ → Exec Session Chat
  update_chat jid p a m = if not (is_jid jid) then raise (failure "parse jid") else do
    on_store (set_chat_flags jid p a m)
    chat ← on_store (get_chat jid)
    emit (chat_updated chat)
    λ s.
        if not s.has_client || not s.logged_in
        then (ok chat, s)
        else let (t, s') = send_patches (patches jid chat.updated_at p a m) s in (ok chat, s')

  -- The revocation in DeleteMessage.
  unfoldable pub revoke_own : Message → Exec Session (Unit {0})
  revoke_own row s =
      if not row.outgoing
      then (err (failure "only your own messages can be revoked"), s)
      else if not s.has_client
      then (err (failure "session not started"), s)
      else if not (is_jid row.chat_jid)
      then (err (failure "parse jid"), s)
      else tell "revoke message" (revokes row.chat_jid row.id) s

  -- DeleteMessage, from its check of `revoke` on.
  unfoldable pub delete_found : String → Bool → Message → Exec Session String
  delete_found id revoke row = do
    if revoke then revoke_own row else pure tt
    delete_row id row.chat_jid

  -- DeleteMessage
  unfoldable pub session_delete : String → Bool → Exec Session String
  session_delete id revoke = do row ← on_store (get_message id); delete_found id revoke row
