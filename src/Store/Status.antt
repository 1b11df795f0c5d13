-- ===== src/Store/Status.antt =====
-- apps/daemon/store/store.go, statusRank and UpdateMessageStatus: the delivery lifecycle.
pub mod Receipts
use zchat.Prelude.{
  ℕ, ◌≤◌, String, ◌≡◌, refl, sym, ap, ◌∙◌, Bool, true, false, List, [], ◌∷◌, Option, none, some,
  arith, ◌==◌, eq_iff, if◌then◌else◌, Bool-cases, Option-cases, inl, inr, leb,
}
use zchat.Prelude.Exec.{not_found, ok, err, Result}
use zchat.Prelude.Rows.{
  find, update, IsUnique, update-agrees, update-id, update_missing, update-update, find-update,
}
use zchat.Store.Types.{MessageRow, status_rank}
use zchat.Store.Db.{Db, Conn, Sql, exec, query, refused}
use zchat.Store.Messages.{
  message_id, has_id, outranks, set_status_rows, advance_status, apply_status,
  update_message_status,
}

-- A status is ranked, and not below a rank.
abbrev pub has_reached : Option ℕ → ℕ → Bool
has_reached none n = false
has_reached (some r) n = leb n r

outranks_lem : (old : String) (n : ℕ) → outranks old n ≡ has_reached (status_rank old) n
unfolding outranks
outranks_lem old n = elim (Option-cases (status_rank old)) [
  | inl e ↦ rw (outranks, e) refl
  | inr (r, e) ↦ rw (outranks, e) refl
]

-- What a message's status becomes: the specification of UpdateMessageStatus.
abbrev pub advance_from : String → String → Option ℕ → String
advance_from old new none = new
advance_from old new (some r) = if has_reached (status_rank old) r then old else new

unfoldable pub advance : String → String → String
advance old new = advance_from old new (status_rank new)

rank-injective : (a b : String) (r : ℕ) → status_rank a ≡ some r → status_rank b ≡ some r → a ≡ b
unfolding status_rank
rank-injective a b r p q = ground (
  arith,
  eq_iff a "pending",
  eq_iff a "sent",
  eq_iff a "delivered",
  eq_iff a "read",
  eq_iff b "pending",
  eq_iff b "sent",
  eq_iff b "delivered",
  eq_iff b "read",
)

reached-between :
    (o : Option ℕ) (r s : ℕ) → has_reached o r ≡ true → has_reached o s ≡ false → leb r s ≡ true
reached-between none r s h k = ground arith
reached-between (some q) r s h k = ground arith

-- The order in which two ranked statuses arrive does not matter.
advance_comm :
    (old a b : String) (r s : ℕ)
    → status_rank a ≡ some r
    → status_rank b ≡ some s
    → advance (advance old a) b ≡ advance (advance old b) a
unfolding advance
advance_comm old a b r s p q =
    rw (p, q)
      (ground (
        arith,
        rank-injective a b r,
        p,
        q,
        ap (λ (o : Option ℕ). has_reached o s) p,
        ap (λ (o : Option ℕ). has_reached o r) q,
        reached-between (status_rank old) r s,
        reached-between (status_rank old) s r,
      ))

-- A ranked status does not lower the rank, where an unranked status counts as the lowest.
abbrev pub rank_or_zero : Option ℕ → ℕ
rank_or_zero none = 0
rank_or_zero (some r) = r

advance-le :
    (old new : String) (r : ℕ)
    → status_rank new ≡ some r
    → rank_or_zero (status_rank old) ≤ rank_or_zero (status_rank (advance old new))
unfolding advance
advance-le old new r p = rw p (ground (arith))

abbrev pub with_status : String → MessageRow → MessageRow
with_status s m = record m { fields = record m.fields { status = s } }

abbrev pub advance_row : Option ℕ → String → MessageRow → MessageRow
advance_row r s m = with_status (advance_from m.status s r) m

-- The tables after a status update that the driver does not refuse.
abbrev pub advanced : String → String → Db → Db
advanced id s db = record db {
  messages = update (has_id id) (advance_row (status_rank s) s) db.messages;
}

abbrev pub calm : Db → Conn
calm db = record { db = db; faults = [] }

-- The error of a status update that the driver does not refuse.
abbrev pub reply_from : Option MessageRow → Option ℕ → Result (Unit {0})
reply_from (some m) r = ok tt
reply_from none none = ok tt
reply_from none (some r) = err not_found

module _ (db : Db) (unique : IsUnique message_id db.messages) (id s : String) where
  set_messages : List MessageRow → Result (Unit {0}) × Conn
  set_messages ms = (ok tt, calm (record db { messages = ms }))

  ranked_found :
      (rank : ℕ) (m : MessageRow)
      → find message_id id db.messages ≡ some m
      → advance_status id s rank (calm db)
        ≡ set_messages (update (has_id id) (advance_row (some rank) s) db.messages)
  unfolding advance_status query exec set_status_rows set_messages
  ranked_found rank m e = elim (Bool-cases (outranks m.status rank)) [
    | inl h ↦
        rw (e, h)
          (ap set_messages (
            sym (
              update-agrees message_id id (advance_row (some rank) s) (λ x. x) db.messages m unique
                e (rw (sym (outranks_lem m.status rank) ∙ h))
              ∙ update-id (has_id id) db.messages)))
    | inr h ↦
        rw (e, h)
          (ap set_messages (
            update-agrees message_id id (with_status s) (advance_row (some rank) s) db.messages m
              unique e (rw (sym (outranks_lem m.status rank) ∙ h))))
  ]

  ranked_missing :
      (rank : ℕ)
      → find message_id id db.messages ≡ none
      → advance_status id s rank (calm db) ≡ (
        err not_found,
        calm (record db { messages = update (has_id id) (advance_row (some rank) s) db.messages }),
      )
  unfolding advance_status query
  ranked_missing rank e =
      rw (e, update_missing message_id id (advance_row (some rank) s) db.messages e)

  apply_status-calm :
      (r : Option ℕ)
      → apply_status id s r (calm db) ≡ (
        reply_from (find message_id id db.messages) r,
        calm (record db { messages = update (has_id id) (advance_row r s) db.messages }),
      )
  unfolding apply_status exec set_status_rows
  apply_status-calm none = elim (Option-cases (find message_id id db.messages)) [
    | inl e ↦ rw e
    | inr (m, e) ↦ rw e
  ]
  apply_status-calm (some rank) = elim (Option-cases (find message_id id db.messages)) [
    | inl e ↦ rw e (ranked_missing rank e)
    | inr (m, e) ↦ unfold set_messages in rw e (ranked_found rank m e)
  ]

  -- Where the driver refuses nothing, UpdateMessageStatus leaves the message at the advanced status
  -- and touches no other row; it fails, as not found, exactly for a ranked status of a missing message.
  pub update_message_status_lem :
      update_message_status id s (calm db)
      ≡ (reply_from (find message_id id db.messages) (status_rank s), calm (advanced id s db))
  unfolding update_message_status
  update_message_status_lem = apply_status-calm (status_rank s)
