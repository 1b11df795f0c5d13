-- ===== src/Wa/Lookup/Remembered.antt =====
-- apps/daemon/wa/session.go, contactName: what a failed lookup leaves in the cache.
use zchat.Prelude.{
  String, ◌≡◌, refl, sym, ap, ◌∙◌, subst, true, false, List, [], ◌∷◌, Option, none, some, ◌==◌,
  eq_refl,
}
use zchat.Prelude.Exec.{Error, Result, ok, err}
use zchat.Wa.Names.{put_name, drop_name}
use zchat.Wa.Session.{Session}
use zchat.Wa.Whatsmeow.{Whatsmeow, Contact}
use zchat.Wa.Lookup.{
  contact_text, text_of, found_name, candidates, resolved_name, cached_name, contact_name,
}

-- A lookup that ends in an error.
abbrev pub IsError : Result (Option Contact) → Type 0
IsError r = (e : Error) × (r ≡ err e)

module _ (W : Whatsmeow) where
  open W use {Jid, to_string, to_non_ad, contact, alt_jid}

  text_of-IsError : (r : Result (Option Contact)) → IsError r → text_of W r ≡ ""
  text_of-IsError r (e, h) = rw h refl

  found_name-IsError : (js : List Jid) → ((j : Jid) → IsError (contact j)) → found_name W js ≡ ""
  found_name-IsError [] h = refl
  found_name-IsError (j ∷ js) h = rw (text_of-IsError (contact j) (h j)) (found_name-IsError js h)

  found_name-first :
      (j : Jid) (js : List Jid) (name : String)
      → text_of W (contact j) ≡ name
      → (name == "") ≡ false
      → found_name W (j ∷ js) ≡ name
  found_name-first j js name e h = rw (e, h) refl

  found_name-candidates :
      (j : Jid) (o : Option Jid) (name : String)
      → text_of W (contact j) ≡ name
      → (name == "") ≡ false
      → found_name W (candidates W j o) ≡ name
  found_name-candidates j none name e h = found_name-first j [] name e h
  found_name-candidates j (some alt) name e h = found_name-first j (to_non_ad alt ∷ []) name e h

  full_name_text : (c : Contact) → (c.full_name == "") ≡ false → contact_text c ≡ c.full_name
  unfolding contact_text
  full_name_text c h = rw h refl

  asked :
      (jid : Jid) (s : Session) (o : Option String)
      → s.has_client ≡ true
      → s.names.names (to_string (to_non_ad jid)) ≡ o
      → contact_name W jid s ≡ cached_name W o jid s
  unfolding contact_name
  asked jid s o c h = rw (c, h) refl

  -- The client with other answers of its device store.
  abbrev pub with_answers : (Jid → Result Jid) → (Jid → Result (Option Contact)) → Whatsmeow
  with_answers alts contacts = record W { alt_jid = alts; contact = contacts }

  -- The session after contactName has looked up a name that the cache does not have.
  abbrev put_in : Jid → String → Session → Session
  put_in jid name s = record s { names = put_name (to_string (to_non_ad jid)) name s.names }

  first_answer :
      (jid : Jid) (s : Session)
      → s.has_client ≡ true
      → s.names.names (to_string (to_non_ad jid)) ≡ none
      → ((j : Jid) → IsError (contact j))
      → contact_name W jid s ≡ (ok "", put_in jid "" s)
  unfolding resolved_name
  first_answer jid s c h f =
      asked jid s none c h
      ∙ ap (λ (n : String). (ok n, put_in jid n s)) (found_name-IsError (candidates W _ _) f)

module _ (W : Whatsmeow) where
  open W use {Jid, to_string, to_non_ad, contact}

  kept_answer :
      (jid : Jid) (s : Session)
      → s.has_client ≡ true
      → contact_name W jid (put_in W jid "" s) ≡ (ok "", put_in W jid "" s)
  unfolding put_name
  kept_answer jid s c =
      asked W jid (put_in W jid "" s) (some "") c (rw (eq_refl (to_string (to_non_ad jid))) refl)

  dropped_answer :
      (jid : Jid) (s : Session) (c : Contact)
      → s.has_client ≡ true
      → contact (to_non_ad jid) ≡ ok (some c)
      → (c.full_name == "") ≡ false
      → (contact_name W jid (record s { names = drop_name (to_string (to_non_ad jid)) s.names })).0
        ≡ ok c.full_name
  unfolding drop_name resolved_name
  dropped_answer jid s c h e n =
      ap (λ (o : Result String × Session). o.0)
        (asked W jid (record s { names = drop_name (to_string (to_non_ad jid)) s.names }) none h
          (rw (eq_refl (to_string (to_non_ad jid))) refl))
      ∙ ap ok (
          found_name-candidates W (to_non_ad jid) _ c.full_name
            (ap (text_of W) e ∙ full_name_text W c n) n)

module _ (W : Whatsmeow) where
  open W use {Jid, to_string, to_non_ad, contact}

  -- Where a client is there, the cache has no name of a JID and each lookup of a contact fails,
  -- contactName answers with the empty text and caches it: whatever the device store answers later,
  -- contactName answers with the empty text again, and looks up nothing. Once the JID has been dropped
  -- from the cache it answers with the full name that the store then has for the JID.
  pub contact_name-remembers :
      (jid : Jid) (s : Session) (alts : Jid → Result Jid) (contacts : Jid → Result (Option Contact))
      (c : Contact)
      → s.has_client ≡ true
      → s.names.names (to_string (to_non_ad jid)) ≡ none
      → ((j : Jid) → IsError (contact j))
      → contacts (to_non_ad jid) ≡ ok (some c)
      → (c.full_name == "") ≡ false
      → let later = with_answers W alts contacts in
        let (r, t) = contact_name W jid s in
        (r ≡ ok "")
        × (contact_name later jid t ≡ (ok "", t))
        × ((contact_name later jid
              (record t { names = drop_name (to_string (to_non_ad jid)) t.names })).0
            ≡ ok c.full_name)
  contact_name-remembers jid s alts contacts c h k f e n =
      let later = with_answers W alts contacts in
      subst
        (λ (o : Result String × Session).
          (o.0 ≡ ok "")
          × (contact_name later jid o.1 ≡ (ok "", o.1))
          × ((contact_name later jid
                (record o.1 { names = drop_name (to_string (to_non_ad jid)) o.1.names })).0
              ≡ ok c.full_name))
        (sym (first_answer W jid s h k f))
        (refl, kept_answer later jid s h, dropped_answer later jid (put_in W jid "" s) c h e n)
