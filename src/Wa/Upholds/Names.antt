-- ===== src/Wa/Upholds/Names.antt =====
-- apps/daemon/wa/session.go: the lookups of names and contacts, and MarkRead.
use zchat.Prelude.{
  String, Bool, true, false, not, ◌||◌, [], ◌∷◌, Option, none, some, ◌==◌, if◌then◌else◌,
}
use zchat.Prelude.Int.{ℤ, pos}
use zchat.Prelude.Exec.{Result, ok, err, failure, pure, ◌>>=◌}
use zchat.Store.Types.{Chat}
use zchat.Store.ChatQueries.{chat_name, get_chat}
use zchat.Store.MessageQueries.{recent_incoming}
use zchat.Store.Chats.{upsert_chat}
use zchat.Store.Calls.{perform, upserts_chat}
use zchat.Wa.Session.{on_store, attempt, tell, marks_read}
use zchat.Wa.MarkRead.{Groups, mark_groups, group_from, mark_read, capped}
use zchat.Wa.Upholds.{
  Upholds, Upholds-pure, Upholds-raise, Upholds-value, Upholds-test, Upholds-call, Upholds-query,
  Upholds->>=, Upholds-then, Upholds-tell, Upholds-get_chat,
}
use zchat.Wa.Whatsmeow.{Whatsmeow}
use zchat.Wa.Lookup.{
  is_hidden, canonical_chat_jid, cached_name, contact_name, cached_number, display_number,
  name_or_number, display_parsed, display_name, fallback_name, resolve_chat_name, is_good_name,
  or_empty,
}
use zchat.Wa.Contacts.{
  get_contacts, listed_contacts, chat_or_new, start_direct, start_with, start_chat, empty_chat,
  is_direct,
}

module _ (W : Whatsmeow) where
  open W use {Jid, parse_jid, server, to_string, to_non_ad, contacts}

  Upholds-cached_name : (o : Option String) (jid : Jid) → Upholds (cached_name W o jid)
  Upholds-cached_name none jid = record { at = λ s h. h }
  Upholds-cached_name (some n) jid = record { at = λ s h. h }

  pub Upholds-contact_name : (jid : Jid) → Upholds (contact_name W jid)
  unfolding contact_name
  Upholds-contact_name jid =
      Upholds-test (λ s. not s.has_client) (pure "")
        (λ s. cached_name W (s.names.names (to_string (to_non_ad jid))) jid s) (Upholds-pure "")
        (record { at = λ s h. (Upholds-cached_name _ jid).at s h })

  Upholds-cached_number : (o : Option String) (jid : Jid) → Upholds (cached_number W o jid)
  Upholds-cached_number none jid = record { at = λ s h. h }
  Upholds-cached_number (some n) jid = record { at = λ s h. h }

  Upholds-display_number : (jid : Jid) → Upholds (display_number W jid)
  unfolding display_number
  Upholds-display_number jid =
      Upholds-test (λ s. not (is_hidden (server jid))) (pure _)
        (λ s. cached_number W (s.names.numbers (to_string (to_non_ad jid))) jid s) (Upholds-pure _)
        (record { at = λ s h. (Upholds-cached_number _ jid).at s h })

  pub Upholds-name_or_number : (jid : Jid) → Upholds (name_or_number W jid)
  Upholds-name_or_number jid =
      Upholds->>= (contact_name W jid)
        (λ name. if name == "" then display_number W jid else pure name) (Upholds-contact_name jid)
        (λ name.
          Upholds-value (name == "") (display_number W jid) (pure name) (Upholds-display_number jid)
            (Upholds-pure name))

  Upholds-display_parsed : (o : Option Jid) → Upholds (display_parsed W o)
  Upholds-display_parsed none = Upholds-pure ""
  Upholds-display_parsed (some jid) = Upholds-name_or_number jid

  pub Upholds-display_name : (raw : String) → Upholds (display_name W raw)
  unfolding display_name
  Upholds-display_name raw = Upholds-display_parsed (parse_jid raw)

  Upholds-fallback_name : (jid : Jid) (g : Bool) → Upholds (fallback_name W jid g)
  Upholds-fallback_name jid true = record { at = λ s h. h }
  Upholds-fallback_name jid false = record { at = (Upholds-name_or_number jid).at }

  pub Upholds-resolve_chat_name : (jid : Jid) (g : Bool) → Upholds (resolve_chat_name W jid g)
  unfolding resolve_chat_name chat_name
  Upholds-resolve_chat_name jid g =
      Upholds->>= (λ s. attempt (on_store (chat_name (canonical_chat_jid W jid s))) s)
        (λ stored.
          if is_good_name W stored jid then pure (or_empty W stored) else fallback_name W jid g)
        (record { at = λ s h. (Upholds-query _ _).at s h })
        (λ stored.
          Upholds-value (is_good_name W stored jid) (pure (or_empty W stored))
            (fallback_name W jid g) (Upholds-pure _) (Upholds-fallback_name jid g))

  pub Upholds-get_contacts : Upholds (get_contacts W)
  unfolding get_contacts
  Upholds-get_contacts =
      Upholds-test (λ s. not s.has_client) _ (λ s. (listed_contacts W contacts, s))
        (record { at = λ s h. h }) (record { at = λ s h. h })

  Upholds-chat_or_new :
      (r : Result Chat) (jid : Jid) (to : String) → Upholds (chat_or_new W r jid to)
  unfolding perform
  Upholds-chat_or_new (ok c) jid to = record { at = λ s h. h }
  Upholds-chat_or_new (err e) jid to =
      Upholds->>= (contact_name W jid)
        (λ name. on_store (upsert_chat (empty_chat W to name)) >>= λ u. on_store (get_chat to))
        (Upholds-contact_name jid)
        (λ name.
          Upholds->>= (on_store (upsert_chat (empty_chat W to name))) (λ u. on_store (get_chat to))
            (Upholds-call (upserts_chat (empty_chat W to name))) (λ u. Upholds-get_chat to))

  Upholds-start_with : (o : Option Jid) → Upholds (start_with W o)
  Upholds-start_with none = Upholds-raise _
  Upholds-start_with (some jid) =
      Upholds-value (is_direct W (to_non_ad jid)) (start_direct W (to_non_ad jid)) _
        (record {
          at = λ s h.
              (Upholds-then (on_store (get_chat (canonical_chat_jid W (to_non_ad jid) s)))
                  (λ r. chat_or_new W r (to_non_ad jid) (canonical_chat_jid W (to_non_ad jid) s))
                  (Upholds-get_chat _) (λ r. Upholds-chat_or_new r _ _)).at
                s h;
        })
        (Upholds-raise _)

  pub Upholds-start_chat : (recipient : String) → Upholds (start_chat W recipient)
  unfolding start_chat
  Upholds-start_chat recipient =
      Upholds-value (_ == "") _ (start_with W _) (Upholds-raise _) (Upholds-start_with _)

-- MarkRead
Upholds-mark_groups : (chat : String) (gs : Groups) → Upholds (mark_groups chat gs)
Upholds-mark_groups chat [] = record { at = λ s h. h }
Upholds-mark_groups chat ((k, ids) ∷ gs) = record {
  at =
      (Upholds->>= (tell "mark read" (marks_read chat k ids)) (λ u. mark_groups chat gs)
        (Upholds-tell _ _) (λ u. Upholds-mark_groups chat gs)).at;
}

pub Upholds-mark_read :
    (key : String → Option String) (is_jid : String → Bool) (chat : String) (n : ℤ)
    → Upholds (mark_read key is_jid chat n)
unfolding mark_read recent_incoming
Upholds-mark_read key is_jid chat n =
    Upholds-test (λ s. not s.has_client || not s.logged_in) (pure tt) _ (Upholds-pure tt)
      (Upholds-test (λ s. not (is_jid chat)) (λ s. (err (failure "parse jid"), s)) _
        (record { at = λ s h. h })
        (Upholds->>= (on_store (recent_incoming chat (pos (capped n))))
          (λ refs. mark_groups chat (group_from key [] refs)) (Upholds-query _ _)
          (λ refs. Upholds-mark_groups chat _)))
