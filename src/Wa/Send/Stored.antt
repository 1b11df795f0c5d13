-- ===== src/Wa/Send/Stored.antt =====
-- apps/daemon/wa/session.go, SendText: where nothing is refused, the message ends up in the store.
use zchat.Prelude.{
  String, ◌≡◌, refl, sym, ap, ◌∙◌, subst, Bool, true, false, not, Option, none, some, ◌==◌,
  if◌then◌else◌,
}
use mathlib.Core.Option
use zchat.Prelude.Int.{ℤ}
use zchat.Prelude.Exec.{Exec, Result, ok, err, pure, continue, ◌>>=◌}
use zchat.Prelude.Rows.{find, find-update}
use zchat.Store.Types.{MessageRow, status_sent}
use zchat.Store.Db.{Db, Conn, Sql, exec, query}
use zchat.Store.Messages.{message_id, has_id, update_message_sender, set_sender_rows}
use zchat.Store.ChatQueries.{chat_name}
use zchat.Store.Status.{calm}
use zchat.Wa.Session.{Session, on_store, attempt, quietly}
use zchat.Wa.Whatsmeow.{Whatsmeow}
use zchat.Wa.Lookup.{
  is_hidden, canonical_chat_jid, cached_name, contact_name, cached_number, display_number,
  fallback_name, resolve_chat_name, is_good_name, or_empty,
}

-- A connection on which nothing is refused, to tables that hold a message as sent at a time.
pub record Stored (id chat body : String) (ts : ℤ) (c : Conn) : Type 0 where
  pub db : Db
  pub is_calm : c ≡ calm db
  pub row : MessageRow
  pub found : find message_id id db.messages ≡ some row
  pub chat_jid : row.chat_jid ≡ chat
  pub text : row.body ≡ body
  pub time : row.timestamp ≡ ts
  pub status : row.status ≡ status_sent

abbrev sent_by : String → MessageRow → MessageRow
sent_by sender m = record m { fields = record m.fields { sender = sender } }

-- A handler after which the message is there as before.
pub record Leaves {A : Type 0} (P : Conn → Type 0) (f : Exec Session A) : Type 0 where
  pub at : (s : Session) → P s.conn → P (f s).1.conn

module _ (id chat body : String) (ts : ℤ) where
  abbrev pub Kept : Conn → Type 0
  Kept = Stored id chat body ts

  pub leaves_query :
      {A : Type 0} (what : String) (f : Db → Result A) (c : Conn) → Kept c → Kept (query what f c).1
  unfolding query
  leaves_query what f c h =
      subst (λ (d : Conn). Stored id chat body ts (query what f d).1) (sym h.is_calm)
        (record {
          db = h.db;
          is_calm = refl;
          row = h.row;
          found = h.found;
          chat_jid = h.chat_jid;
          text = h.text;
          time = h.time;
          status = h.status;
        })

  -- A statement that leaves the messages alone.
  pub leaves_exec :
      (what : String) (f : Db → Db) (c : Conn)
      → ((db : Db) → (f db).messages ≡ db.messages)
      → Kept c
      → Kept (exec what f c).1
  unfolding exec
  leaves_exec what f c k h =
      subst (λ (d : Conn). Stored id chat body ts (exec what f d).1) (sym h.is_calm)
        (record {
          db = f h.db;
          is_calm = refl;
          row = h.row;
          found = ap (find message_id id) (k h.db) ∙ h.found;
          chat_jid = h.chat_jid;
          text = h.text;
          time = h.time;
          status = h.status;
        })

  pub leaves_sender :
      (j sender : String) (c : Conn) → Kept c → Kept (update_message_sender j sender c).1
  unfolding exec update_message_sender set_sender_rows
  leaves_sender j sender c h =
      subst (λ (d : Conn). Stored id chat body ts (update_message_sender j sender d).1)
        (sym h.is_calm)
        (corrected (has_id j h.row) (
          find-update message_id (sent_by sender) (λ m. refl) (has_id j) id h.db.messages
          ∙ ap (Option.map (λ x. if has_id j x then sent_by sender x else x)) h.found))
    where
      corrected :
          (b : Bool)
          → find message_id id (set_sender_rows j sender h.db).messages
            ≡ some (if b then sent_by sender h.row else h.row)
          → Stored id chat body ts (calm (set_sender_rows j sender h.db))
      corrected true e = record {
        db = set_sender_rows j sender h.db;
        is_calm = refl;
        row = sent_by sender h.row;
        found = e;
        chat_jid = h.chat_jid;
        text = h.text;
        time = h.time;
        status = h.status;
      }
      corrected false e = record {
        db = set_sender_rows j sender h.db;
        is_calm = refl;
        row = h.row;
        found = e;
        chat_jid = h.chat_jid;
        text = h.text;
        time = h.time;
        status = h.status;
      }

  pub Leaves-pure : {A : Type 0} (a : A) → Leaves Kept (pure a)
  Leaves-pure a = record { at = λ s h. h }

  pub leaves_continue :
      {A B : Type 0} (r : Result A) (f : A → Exec Session B) (s : Session)
      → Kept s.conn
      → ((a : A) → Leaves Kept (f a))
      → Kept (continue r f s).1.conn
  leaves_continue (ok a) f s h k = (k a).at s h
  leaves_continue (err e) f s h k = h

  pub Leaves->>= :
      {A B : Type 0} (m : Exec Session A) (f : A → Exec Session B)
      → Leaves Kept m
      → ((a : A) → Leaves Kept (f a))
      → Leaves Kept (m >>= f)
  Leaves->>= m f hm hf = record { at = λ s h. leaves_continue (m s).0 f (m s).1 (hm.at s h) hf }

  pub Leaves-choice :
      {A : Type 0} (b : Bool) (f g : Exec Session A)
      → Leaves Kept f
      → Leaves Kept g
      → Leaves Kept (if b then f else g)
  Leaves-choice true f g hf hg = record { at = hf.at }
  Leaves-choice false f g hf hg = record { at = hg.at }

  pub Leaves-quietly :
      {A : Type 0} (m : Sql A)
      → ((c : Conn) → Kept c → Kept (m c).1)
      → Leaves Kept (quietly (on_store m))
  unfolding on_store
  Leaves-quietly m k = record { at = λ s h. k s.conn h }

  module _ (W : Whatsmeow) where
    open W use {Jid, server, user, to_string, to_non_ad}

    Leaves-cached_name : (o : Option String) (jid : Jid) → Leaves Kept (cached_name W o jid)
    Leaves-cached_name none jid = record { at = λ s h. h }
    Leaves-cached_name (some n) jid = record { at = λ s h. h }

    Leaves-cached_number : (o : Option String) (jid : Jid) → Leaves Kept (cached_number W o jid)
    Leaves-cached_number none jid = record { at = λ s h. h }
    Leaves-cached_number (some n) jid = record { at = λ s h. h }

    leaves_if :
        {A : Type 0} (b : Bool) (s : Session) (o p : Result A × Session)
        → Kept o.1.conn
        → Kept p.1.conn
        → Kept (if b then o else p).1.conn
    leaves_if true s o p h k = h
    leaves_if false s o p h k = k

    Leaves-contact_name : (jid : Jid) → Leaves Kept (contact_name W jid)
    unfolding contact_name
    Leaves-contact_name jid = record {
      at = λ s h. leaves_if (not s.has_client) s (ok "", s) _ h ((Leaves-cached_name _ jid).at s h);
    }

    Leaves-display_number : (jid : Jid) → Leaves Kept (display_number W jid)
    unfolding display_number
    Leaves-display_number jid = record {
      at = λ s h.
          leaves_if (not (is_hidden (server jid))) s (ok (user jid), s) _ h
            ((Leaves-cached_number _ jid).at s h);
    }

    Leaves-fallback_name : (jid : Jid) (g : Bool) → Leaves Kept (fallback_name W jid g)
    Leaves-fallback_name jid true = record { at = λ s h. h }
    Leaves-fallback_name jid false = record {
      at =
          (Leaves->>= (contact_name W jid)
            (λ name. if name == "" then display_number W jid else pure name)
            (Leaves-contact_name jid)
            (λ name.
              Leaves-choice (name == "") _ _ (Leaves-display_number jid) (Leaves-pure name))).at;
    }

    pub Leaves-resolve_chat_name : (jid : Jid) (g : Bool) → Leaves Kept (resolve_chat_name W jid g)
    unfolding resolve_chat_name on_store chat_name
    Leaves-resolve_chat_name jid g = record {
      at =
          (Leaves->>= (λ s. attempt (on_store (chat_name (canonical_chat_jid W jid s))) s)
            (λ stored.
              if is_good_name W stored jid then pure (or_empty W stored) else fallback_name W jid g)
            stored_name
            (λ stored.
              Leaves-choice (is_good_name W stored jid) _ _ (Leaves-pure _)
                (Leaves-fallback_name jid g))).at;
    }
      where
        stored_name :
            Leaves Kept (λ s. attempt (on_store (chat_name (canonical_chat_jid W jid s))) s)
        stored_name = record { at = λ s h. leaves_query _ _ s.conn h }
