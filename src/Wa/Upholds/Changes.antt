-- ===== src/Wa/Upholds/Changes.antt =====
-- apps/daemon/wa: deletions, flags, receipts and the repair of the chats.
use zchat.Prelude.{String, Bool, not, ◌||◌, List, [], ◌∷◌, Option, if◌then◌else◌}
use zchat.Prelude.Int.{ℤ}
use zchat.Prelude.Exec.{Result, ok, err, failure, pure, raise}
use zchat.Store.Types.{Message}
use zchat.Store.ChatQueries.{get_chat}
use zchat.Store.MessageQueries.{get_message}
use zchat.Store.Calls.{perform, deletes_message, refreshes_last_message, sets_chat_flags}
use zchat.Wa.Session.{
  chat_updated, message_deleted, Outgoing, revokes, on_store, emit, tell, quietly, publish_chat,
}
use zchat.Wa.Actions.{
  announce_deletion, after_deletion, on_revoke, on_delete_for_me, after_flags, on_app_state_chat,
  patches, send_patches, delete_row, update_chat, revoke_own, delete_found, session_delete,
}
use zchat.Wa.Upholds.{
  Upholds, Upholds-pure, Upholds-raise, Upholds-value, Upholds-test, Upholds-call, Upholds->>=,
  Upholds-then, Upholds-quietly, Upholds-quiet_call, Upholds-emit, Upholds-tell, Upholds-get_chat,
  Upholds-publish_chat,
}
use zchat.Wa.Upholds.Sending.{Upholds-get_message}

Upholds-announce_deletion : (id chat : String) → Upholds (announce_deletion id chat)
unfolding announce_deletion perform
Upholds-announce_deletion id chat =
    Upholds->>= _ _ (Upholds-quiet_call (refreshes_last_message chat)) (λ u.
      Upholds->>= (emit (message_deleted id chat)) (λ v. publish_chat chat) (Upholds-emit _)
        (λ v. Upholds-publish_chat chat))

Upholds-after_deletion :
    (r : Result (Unit {0})) (id chat : String) → Upholds (after_deletion r id chat)
Upholds-after_deletion (ok t) id chat = record { at = (Upholds-announce_deletion id chat).at }
Upholds-after_deletion (err e) id chat = record { at = λ s h. h }

pub Upholds-on_revoke : (chat id : String) → Upholds (on_revoke chat id)
unfolding on_revoke perform
Upholds-on_revoke chat id =
    Upholds-then (on_store (perform (deletes_message id))) (λ r. after_deletion r id chat)
      (Upholds-call (deletes_message id)) (λ r. Upholds-after_deletion r id chat)

pub Upholds-on_delete_for_me : (chat id : String) → Upholds (on_delete_for_me chat id)
unfolding on_delete_for_me perform
Upholds-on_delete_for_me chat id =
    Upholds-then (on_store (perform (deletes_message id))) (λ r. after_deletion r id chat)
      (Upholds-call (deletes_message id)) (λ r. Upholds-after_deletion r id chat)

pub Upholds-on_app_state_chat :
    (chat : String) (p a : Option Bool) (m : Option ℤ) → Upholds (on_app_state_chat chat p a m)
unfolding on_app_state_chat perform
Upholds-on_app_state_chat chat p a m =
    Upholds-then (on_store (perform (sets_chat_flags chat p a m))) (λ r. after_flags r chat)
      (Upholds-call (sets_chat_flags chat p a m)) after
  where
    after : (r : Result (Unit {0})) → Upholds (after_flags r chat)
    after (ok t) = record { at = (Upholds-publish_chat chat).at }
    after (err e) = record { at = λ s h. h }

Upholds-send_patches : (rs : List Outgoing) → Upholds (send_patches rs)
Upholds-send_patches [] = record { at = λ s h. h }
Upholds-send_patches (r ∷ rs) =
    Upholds-then (quietly (tell "send app state patch" r)) (λ t. send_patches rs)
      (Upholds-quietly _ (Upholds-tell _ r)) (λ t. Upholds-send_patches rs)

module _ (is_jid : String → Bool) where
  pub Upholds-update_chat :
      (jid : String) (p a : Option Bool) (m : Option ℤ) → Upholds (update_chat is_jid jid p a m)
  unfolding update_chat perform
  Upholds-update_chat jid p a m =
      Upholds-value (not (is_jid jid)) (raise (failure "parse jid")) _ (Upholds-raise _) (
        Upholds->>= _ _ (Upholds-call (sets_chat_flags jid p a m)) (λ u.
          Upholds->>= (on_store (get_chat jid)) _ (Upholds-get_chat jid) (λ chat.
            Upholds->>= (emit (chat_updated chat)) _ (Upholds-emit _) (λ v.
              Upholds-test (λ s. not s.has_client || not s.logged_in) (pure chat)
                (λ s. (ok chat, (send_patches (patches jid chat.updated_at p a m) s).1))
                (Upholds-pure chat)
                (record { at = (Upholds-send_patches (patches jid chat.updated_at p a m)).at })))))

  Upholds-revoke_own : (row : Message) → Upholds (revoke_own is_jid row)
  unfolding revoke_own
  Upholds-revoke_own row =
      Upholds-test (λ s. not row.outgoing) (raise _) _ (Upholds-raise _)
        (Upholds-test (λ s. not s.has_client) (raise _) _ (Upholds-raise _)
          (Upholds-test (λ s. not (is_jid row.chat_jid)) (raise _) (tell _ _) (Upholds-raise _)
            (Upholds-tell "revoke message" (revokes row.chat_jid row.id))))

  pub Upholds-session_delete :
      (id : String) (revoke : Bool) → Upholds (session_delete is_jid id revoke)
  unfolding session_delete delete_found delete_row perform
  Upholds-session_delete id revoke =
      Upholds->>= (on_store (get_message id)) _ (Upholds-get_message id) (λ row.
        Upholds->>= (if revoke then revoke_own is_jid row else pure tt) _
          (Upholds-value revoke (revoke_own is_jid row) (pure tt) (Upholds-revoke_own row)
            (Upholds-pure tt))
          (λ u. Upholds->>= _ _ (Upholds-call (deletes_message id)) (λ v.
            Upholds->>= (announce_deletion id row.chat_jid) (λ w. pure row.chat_jid)
              (Upholds-announce_deletion id row.chat_jid) (λ w. Upholds-pure _))))
