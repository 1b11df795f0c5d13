-- ===== src/Wa/Send/Fitted.antt =====
-- apps/daemon/wa: the replies, the texts and the forwarded payloads are the ones that their
-- specifications ask for.
use zchat.Prelude.{
  ℕ, String, ◌≡◌, refl, sym, subst, Bool, true, false, List, [], ◌∷◌, Option, none, some, ◌==◌,
  if◌then◌else◌,
}
use zchat.Prelude.Exec.{Exec, Result, ok, err, pure, raise, failure, continue}
use zchat.Store.Types.{Media, Message, Quoted}
use zchat.Store.Db.{Conn}
use zchat.Store.MessageQueries.{get_message, media_payload}
use zchat.Wa.Session.{Session, on_store}
use zchat.Wa.Content.{WaMessage, wa, null, extended, no_file, attached, ContextInfo, no_context}
use zchat.Wa.Whatsmeow.{Whatsmeow}
use zchat.Wa.Reply.{quoted_payload, reply_to, reply_context, build_reply, reply_fields}
use zchat.Wa.Send.{text_payload}
use zchat.Wa.Send.Files.{media_context}
use zchat.Wa.Send.Forward.{forward_raw, forward_decoded, forward_content, mark_forwarded}
use zchat.Wa.Send.Fitting.{
  Quotes, Replies, fresh, quoting, text_message, marked, file_of, Forwards, text, file,
}

-- What holds of a value that is returned.
abbrev pub Holds : {A : Type 0} → (A → Type 0) → Result A → Type 0
Holds R (ok a) = R a
Holds R (err e) = Unit {0}

pub Holds-ok : {A : Type 0} (R : A → Type 0) {r : Result A} {a : A} → Holds R r → r ≡ ok a → R a
Holds-ok R h e = subst (Holds R) e h

pub Holds-continue :
    {A B : Type 0} (R : B → Type 0) (r : Result A) (f : A → Exec Session B) (s : Session)
    → ((a : A) → r ≡ ok a → Holds R (f a s).0)
    → Holds R (continue r f s).0
Holds-continue R (ok a) f s h = h a refl
Holds-continue R (err e) f s h = tt

pub Holds-choice :
    {A : Type 0} (R : A → Type 0) (b : Bool) (f g : Exec Session A) (s : Session)
    → (b ≡ true → Holds R (f s).0)
    → (b ≡ false → Holds R (g s).0)
    → Holds R ((if b then f else g) s).0
Holds-choice R true f g s h k = h refl
Holds-choice R false f g s h k = k refl

mark_forwarded_lem : (m : WaMessage) → file_of (mark_forwarded m) ≡ marked (file_of m)
unfolding mark_forwarded
mark_forwarded_lem null = refl
mark_forwarded_lem (wa t e (attached m c) v a d s) = refl
mark_forwarded_lem (wa t e no_file (attached m c) a d s) = refl
mark_forwarded_lem (wa t e no_file no_file (attached m c) d s) = refl
mark_forwarded_lem (wa t e no_file no_file no_file (attached m c) s) = refl
mark_forwarded_lem (wa t e no_file no_file no_file no_file (attached m c)) = refl
mark_forwarded_lem (wa t e no_file no_file no_file no_file no_file) = refl

module _ (W : Whatsmeow) where
  open W use {Jid, parse_jid, to_string, to_non_ad, marshal, unmarshal}

  reply_to-Quotes : (m : Message) (o : Option Jid) (s : Session) → Holds Quotes (reply_to W m o s).0
  reply_to-Quotes m none s = tt
  reply_to-Quotes m (some sender) s =
      Holds-continue _ (quoted_payload W m s).0 _ (quoted_payload W m s).1
        (λ p e. (reply_fields W m sender, p, refl, refl))

  reply_context-Quotes :
      (chat : Jid) (id : String) (s : Session) → Holds Quotes (reply_context W chat id s).0
  unfolding reply_context
  reply_context-Quotes chat id s =
      let o = on_store (get_message id) s in
      Holds-continue _ o.0 _ o.1 (λ m e.
        Holds-choice _ (m.chat_jid == to_string (to_non_ad chat))
          (reply_to W m (parse_jid m.sender))
          (raise (failure "quoted message belongs to another chat")) o.1
          (λ h. reply_to-Quotes m (parse_jid m.sender) o.1) (λ h. tt))

  pub media_context-Replies :
      (jid : Jid) (id : String) (s : Session)
      → Holds (λ (r : Option Quoted × ContextInfo). Replies id r.0 r.1) (media_context W jid id s).0
  media_context-Replies jid id s =
      let o = reply_context W jid id s in
      Holds-choice _ (id == "") (pure (none, no_context)) _ s (λ h. fresh h refl refl)
        (λ h.
          Holds-continue _ o.0 _ o.1
            (λ r e. quoting r.0 h refl (Holds-ok _ (reply_context-Quotes jid id s) e)))

  -- A text's quote and payload.
  abbrev pub Says : String → String → Option Quoted × WaMessage → Type 0
  Says body id (quoted, payload) =
      (ctx : ContextInfo) × Replies id quoted ctx × (payload ≡ text_message body ctx)

  said_quote :
      (body : String) (q : Quoted) (ctx : ContextInfo)
      → Quotes (q, ctx)
      → wa "" (extended body ctx) no_file no_file no_file no_file no_file ≡ text_message body ctx
  said_quote body q ctx (fields, m, e, h) =
      subst
        (λ (x : ContextInfo).
          wa "" (extended body x) no_file no_file no_file no_file no_file ≡ text_message body x)
        (sym e) refl

  pub text_payload-Says :
      (jid : Jid) (body id : String) (s : Session)
      → Holds (Says body id) (text_payload W jid body id s).0
  unfolding build_reply
  text_payload-Says jid body id s =
      let c = reply_context W jid id s in
      let o = build_reply W jid body id s in
      Holds-choice _ (id == "") (pure _) _ s (λ h. (no_context, fresh h refl refl, refl))
        (λ h. Holds-continue _ o.0 _ o.1 (λ r e.
          Holds-ok (λ (x : Quoted × WaMessage). Says body id (some x.0, x.1))
            (Holds-continue _ c.0 _ c.1 (λ p d.
              let q = Holds-ok _ (reply_context-Quotes jid id s) d in
              (p.1, quoting p.0 h refl q, said_quote body p.0 p.1 q)))
            e))

  forwarded_raw :
      (md : Media) (source : Message) (c : Conn) (raw : List ℕ × String) (s : Session)
      → source.media ≡ some md
      → (media_payload source.id c).0 ≡ ok raw
      → Holds (Forwards unmarshal source) (forward_raw W raw s).0
  forwarded_raw md source c ([], path) s e h = tt
  forwarded_raw md source c (b ∷ bs, path) s e h = decoded_as (unmarshal (b ∷ bs)) refl
    where
      decoded_as :
          (o : Option WaMessage)
          → unmarshal (b ∷ bs) ≡ o
          → Holds (Forwards unmarshal source) (forward_decoded W o s).0
      decoded_as none d = tt
      decoded_as (some m) d = file md c (b ∷ bs, path) m e h d (mark_forwarded_lem m)

  pub forward_content-Forwards :
      (o : Option Media) (source : Message) (s : Session)
      → source.media ≡ o
      → Holds (Forwards unmarshal source) (forward_content W o source s).0
  unfolding on_store
  forward_content-Forwards none source s e = text e refl
  forward_content-Forwards (some md) source s e =
      let o = media_payload source.id s.conn in
      Holds-continue _ o.0 _ (record s { conn = o.1 })
        (λ raw h. forwarded_raw md source s.conn raw (record s { conn = o.1 }) e h)
