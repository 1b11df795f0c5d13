-- ===== src/Store/Flags.antt =====
-- apps/daemon/store/store.go, SetChatFlags: which flags of which chat change.
use zchat.Prelude.{
  String, ◌≡◌, refl, Bool, true, false, Option, none, some, arith, ◌==◌, eq_iff, if◌then◌else◌,
  eq_refl, ap, Option-cases, inl, inr,
}
use mathlib.Core.Option
use zchat.Prelude.Int.{ℤ}
use zchat.Prelude.Exec.{ok, err, Result, not_found}
use zchat.Prelude.Rows.{find, find-update, count-find, find-count, key-find}
use zchat.Store.Types.{Chat}
use zchat.Store.Db.{Db, Conn, exec_rows, found_rows}
use zchat.Store.Chats.{
  chat_jid, has_jid, set_flags, set_some, set_chat_flags, set_chat_flags_rows, no_flags,
}
use zchat.Store.Status.{calm}

abbrev found_or_not : Option Chat → Result (Unit {0})
found_or_not none = err not_found
found_or_not (some c) = ok tt

module _ (jid : String) (p a : Option Bool) (m : Option ℤ) (db : Db) where
  find-flags :
      (k : String)
      → find chat_jid k (set_chat_flags_rows jid p a m db).chats ≡ (
          if jid == k
          then Option.map (set_flags p a m) (find chat_jid k db.chats)
          else find chat_jid k db.chats)
  unfolding set_chat_flags_rows set_flags
  find-flags k = elim (Option-cases (find chat_jid k db.chats)) [
    | inl e ↦
        ground (arith, find-update chat_jid (set_flags p a m) (λ c. refl) (has_jid jid) k db.chats)
    | inr (c, e) ↦ ground (
      arith,
      find-update chat_jid (set_flags p a m) (λ c. refl) (has_jid jid) k db.chats,
      key-find chat_jid k db.chats c e,
      eq_iff c.jid jid,
      eq_iff jid k,
    )
  ]

  flags_calm :
      no_flags p a m ≡ false
      → set_chat_flags jid p a m (calm db)
        ≡ (found_or_not (find chat_jid jid db.chats), calm (set_chat_flags_rows jid p a m db))
  unfolding set_chat_flags exec_rows found_rows
  flags_calm h = elim (Option-cases (find chat_jid jid db.chats)) [
    | inl e ↦ rw (h, e, find-count chat_jid jid db.chats e)
    | inr (c, e) ↦ ground (arith, count-find chat_jid jid db.chats)
  ]

  -- Where at least one flag is given and the driver refuses nothing, SetChatFlags changes the row
  -- of that chat and no other, and reports not found exactly for a missing chat.
  pub set_chat_flags_lem :
      no_flags p a m ≡ false
      → (set_chat_flags jid p a m (calm db)
          ≡ (found_or_not (find chat_jid jid db.chats), calm (set_chat_flags_rows jid p a m db)))
        × ((k : String)
            → find chat_jid k (set_chat_flags_rows jid p a m db).chats ≡ (
                if jid == k
                then Option.map (set_flags p a m) (find chat_jid k db.chats)
                else find chat_jid k db.chats))
  set_chat_flags_lem h = (flags_calm h, find-flags)

archive_no_flags : (p : Option Bool) (m : Option ℤ) → no_flags p (some true) m ≡ false
archive_no_flags none m = refl
archive_no_flags (some b) m = refl

archived_db :
    (jid : String) (p : Option Bool) (m : Option ℤ) (db : Db)
    → (set_chat_flags jid p (some true) m (calm db)).1
      ≡ calm (set_chat_flags_rows jid p (some true) m db)
archived_db jid p m db =
    ap (λ (o : Result (Unit {0}) × Conn). o.1)
      (flags_calm jid p (some true) m db (archive_no_flags p m))

-- Where the driver refuses no statement, archiving a stored chat unpins it, whatever is said of the
-- pin; its name, its unread count and its preview stay, and so does the mute where none is given.
pub archive_unpins :
    (jid : String) (p : Option Bool) (m : Option ℤ) (db : Db) (c : Chat)
    → find chat_jid jid db.chats ≡ some c
    → (c' : Chat) × (find chat_jid jid (set_chat_flags jid p (some true) m (calm db)).1.db.chats
        ≡ some c')
      × (c'.archived ≡ true)
      × (c'.pinned ≡ false)
      × (c'.name ≡ c.name)
      × (c'.unread ≡ c.unread)
      × (c'.last_message ≡ c.last_message)
      × (c'.muted_until ≡ set_some m c.muted_until)
unfolding set_flags
archive_unpins jid p m db c h = (
  set_flags p (some true) m c,
  rw (archived_db jid p m db, find-flags jid p (some true) m db jid, h, eq_refl),
  refl,
  refl,
  refl,
  refl,
  refl,
  refl,
)
