-- ===== src/Desktop/Presence/Expiry.antt =====
-- apps/desktop/presence.go: each typing indicator has a timer that ends it.
use zchat.Prelude.{
  String, ◌≡◌, refl, sym, subst, Bool, true, false, ◌&&◌, ◌||◌, List, [], ◌∷◌, Option, none, some,
  ◌==◌, eq_iff, arith, if◌then◌else◌,
}
use zchat.Prelude.Rows.{find, find-upsert, find-delete}
use zchat.Desktop.Presence.{
  Typists, jid_of, ChatPresence, PresenceUpdate, Shown, or_new, put_typist, drop_typist, is_active,
  typed, transition, updated, presence_name, on_presence, without, expire, expired, Happening,
  update, expiry, happen, happen_all,
}

abbrev absent : {A : Type 0} → Option A → Bool
absent none = true
absent (some x) = false

-- Whether a user is not among the typists of a chat.
abbrev pub silent : String → Option ChatPresence → Bool
silent user none = true
silent user (some p) = absent (find jid_of user p.typists)

-- Whoever is shown as typing has a timer.
pub record IsTimed (s : Shown) : Type 0 where
  pub timed : (chat user : String) → silent user (s.presence chat) || s.timers chat user ≡ true

put-timed :
    (j name : String) (ts : Typists) (v : String) (t : Bool)
    → absent (find jid_of v ts) || t ≡ true
    → absent (find jid_of v (put_typist j name ts)) || (if j == v then true else t) ≡ true
put-timed j name ts v t h =
    rw (find-upsert jid_of (λ x. (jid_of x, name)) (λ x. refl) v (j, name) ts) (ground (arith, h))

drop-timed :
    (j : String) (ts : Typists) (v : String) (t : Bool)
    → absent (find jid_of v ts) || t ≡ true
    → absent (find jid_of v (drop_typist j ts)) || t ≡ true
drop-timed j ts v t h = rw (find-delete jid_of j v ts) (ground (arith, h))

typed-timed :
    (b : Bool) (j name : String) (ts : Typists) (v : String) (t : Bool)
    → absent (find jid_of v ts) || t ≡ true
    → absent (find jid_of v (if b then put_typist j name ts else drop_typist j ts))
        || (if b && j == v then true else t)
      ≡ true
typed-timed true j name ts v t h = put-timed j name ts v t h
typed-timed false j name ts v t h = drop-timed j ts v t h

-- The chat that an update is about, for a chat with the contact or another.
update-timed :
    (name : String) (u : PresenceUpdate) (p : ChatPresence) (v : String) (t : Bool)
    → absent (find jid_of v p.typists) || t ≡ true
    → silent v (some (updated name u p)) || (if is_active u && u.user_jid == v then true else t)
      ≡ true
unfolding find
update-timed name u p v t h =
    kept (u.user_jid == u.chat_jid) u.online _
      (typed-timed (is_active u) u.user_jid name p.typists v t h)
  where
    kept :
        (d o x : Bool)
        → absent (find jid_of v (typed name u p.typists)) || x ≡ true
        → silent v (
              some (
                if d
                then transition
                    (record u { online = o })
                    (record p { typists = typed name u p.typists })
                else record p { typists = typed name u p.typists }))
            || x
          ≡ true
    kept true true x e = e
    kept true false x e = refl
    kept false o x e = e

or_new-timed :
    (o : Option ChatPresence) (v : String) (t : Bool)
    → silent v o || t ≡ true
    → absent (find jid_of v (or_new o).typists) || t ≡ true
unfolding find
or_new-timed none v t h = refl
or_new-timed (some p) v t h = h

equal : (a b : String) → (a == b) ≡ true → a ≡ b
equal a b e = ground (arith, eq_iff a b)

-- The chat of an update, or another one.
placed-timed :
    (e a j t : Bool) (v : String) (x : ChatPresence) (o : Option ChatPresence)
    → (e ≡ true → silent v (some x) || (if a && j then true else t) ≡ true)
    → silent v o || t ≡ true
    → silent v (if e then some x else o) || (if a then (if e && j then true else t) else t) ≡ true
placed-timed true true j t v x o h k = h refl
placed-timed true false j t v x o h k = h refl
placed-timed false true j t v x o h k = k
placed-timed false false j t v x o h k = k

on_presence-IsTimed : (u : PresenceUpdate) (s : Shown) → IsTimed s → IsTimed (on_presence u s)
unfolding on_presence
on_presence-IsTimed u s h = record {
  timed = λ chat v.
      placed-timed (u.chat_jid == chat) (is_active u) (u.user_jid == v) (s.timers chat v) v _
        (s.presence chat)
        (λ e.
          update-timed (presence_name u) u (or_new (s.presence u.chat_jid)) v (s.timers chat v) (
            or_new-timed (s.presence u.chat_jid) v (s.timers chat v) (
              subst (λ (c : String). silent v (s.presence c) || s.timers chat v ≡ true)
                (sym (equal u.chat_jid chat e)) (h.timed chat v))))
        (h.timed chat v);
}

without-timed :
    (user v : String) (o : Option ChatPresence) (t : Bool)
    → silent v o || t ≡ true
    → silent v (without user o) || (if user == v then false else t) ≡ true
without-timed user v none t h = refl
without-timed user v (some p) t h = rw (find-delete jid_of user v p.typists) (ground (arith, h))

repointed-timed :
    (e i t : Bool) (v : String) (x o : Option ChatPresence)
    → (e ≡ true → silent v x || (if i then false else t) ≡ true)
    → silent v o || t ≡ true
    → silent v (if e then x else o) || (if e && i then false else t) ≡ true
repointed-timed true i t v x o h k = h refl
repointed-timed false i t v x o h k = k

expire-IsTimed : (chat user : String) (s : Shown) → IsTimed s → IsTimed (expire chat user s)
unfolding expire
expire-IsTimed chat user s h =
    elim (s.timers chat user) as (λ b. IsTimed (if b then expired chat user s else s)) [
      | true ↦ record {
        timed = λ c v.
            repointed-timed (chat == c) (user == v) (s.timers c v) v _ (s.presence c)
              (λ e. without-timed user v (s.presence chat) (s.timers c v) (
                subst (λ (d : String). silent v (s.presence d) || s.timers c v ≡ true)
                  (sym (equal chat c e)) (h.timed c v)))
              (h.timed c v);
      }
      | false ↦ h
    ]

happen-IsTimed : (x : Happening) (s : Shown) → IsTimed s → IsTimed (happen x s)
unfolding happen
happen-IsTimed (update u) s h = on_presence-IsTimed u s h
happen-IsTimed (expiry chat user) s h = expire-IsTimed chat user s h

-- Whatever updates come and whichever timers end, whoever is shown as typing has a timer that runs:
-- no typing indicator stays for ever.
pub happen_all-IsTimed : (hs : List Happening) (s : Shown) → IsTimed s → IsTimed (happen_all hs s)
unfolding happen_all
happen_all-IsTimed [] s h = h
happen_all-IsTimed (x ∷ hs) s h = happen_all-IsTimed hs (happen x s) (happen-IsTimed x s h)
