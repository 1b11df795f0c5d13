-- ===== src/Wa/Lookup/Settled.antt =====
-- apps/daemon/wa/session.go: the lookups of names always answer, and publish and send nothing.
use zchat.Prelude.{String, Bool, true, false, not, Option, none, some, ◌==◌, if◌then◌else◌, refl}
use zchat.Prelude.Exec.{ok, pure}
use zchat.Store.ChatQueries.{chat_name}
use zchat.Wa.Session.{Session, on_store, attempt, to_option}
use zchat.Wa.Quiet.{Settles, Returns-pure, Returns-attempt, Settles->>=, Settles-if}
use zchat.Wa.Whatsmeow.{Whatsmeow}
use zchat.Wa.Lookup.{
  is_hidden, canonical_chat_jid, cached_name, contact_name, cached_number, display_number,
  name_or_number, fallback_name, resolve_chat_name, is_good_name, or_empty, resolved_name,
}

pub Settles-pure : {A : Type 0} (a : A) (s : Session) → Settles s (ok a, s)
Settles-pure a s = (a, Returns-pure a s)

module _ (W : Whatsmeow) where
  open W use {Jid, server, user, to_string, to_non_ad}

  cached_name-Settles :
      (o : Option String) (jid : Jid) (s : Session) → Settles s (cached_name W o jid s)
  cached_name-Settles none jid s =
      (resolved_name W jid, record { value = refl; events = refl; sent = refl })
  cached_name-Settles (some n) jid s = Settles-pure n s

  pub contact_name-Settles : (jid : Jid) (s : Session) → Settles s (contact_name W jid s)
  unfolding contact_name
  contact_name-Settles jid s =
      Settles-if (not s.has_client) s _ _ (Settles-pure "" s) (cached_name-Settles _ jid s)

  cached_number-Settles :
      (o : Option String) (jid : Jid) (s : Session) → Settles s (cached_number W o jid s)
  cached_number-Settles none jid s = (_, record { value = refl; events = refl; sent = refl })
  cached_number-Settles (some n) jid s = Settles-pure n s

  display_number-Settles : (jid : Jid) (s : Session) → Settles s (display_number W jid s)
  unfolding display_number
  display_number-Settles jid s =
      Settles-if (not (is_hidden (server jid))) s _ _ (Settles-pure (user jid) s)
        (cached_number-Settles _ jid s)

  name_or_number-Settles : (jid : Jid) (s : Session) → Settles s (name_or_number W jid s)
  name_or_number-Settles jid s =
      Settles->>= (contact_name W jid)
        (λ name. if name == "" then display_number W jid else pure name) s
        (contact_name-Settles jid s) (λ name t. chosen (name == "") name t)
    where
      chosen :
          (b : Bool) (name : String) (t : Session)
          → Settles t ((if b then display_number W jid else pure name) t)
      chosen true name t = display_number-Settles jid t
      chosen false name t = Settles-pure name t

  fallback_name-Settles : (jid : Jid) (g : Bool) (s : Session) → Settles s (fallback_name W jid g s)
  fallback_name-Settles jid true s = Settles-pure _ s
  fallback_name-Settles jid false s = name_or_number-Settles jid s

  pub resolve_chat_name-Settles :
      (jid : Jid) (g : Bool) (s : Session) → Settles s (resolve_chat_name W jid g s)
  unfolding resolve_chat_name
  resolve_chat_name-Settles jid g s =
      Settles->>= (λ t. attempt (on_store (chat_name (canonical_chat_jid W jid t))) t) _ s
        (
          to_option (chat_name (canonical_chat_jid W jid s) s.conn).0,
          Returns-attempt (chat_name (canonical_chat_jid W jid s)) s,
        )
        (λ stored t. chosen (is_good_name W stored jid) stored t)
    where
      chosen :
          (b : Bool) (stored : Option String) (t : Session)
          → Settles t ((if b then pure (or_empty W stored) else fallback_name W jid g) t)
      chosen true stored t = Settles-pure _ t
      chosen false stored t = fallback_name-Settles jid g t
