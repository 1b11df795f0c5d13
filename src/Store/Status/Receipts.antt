-- ===== src/Store/Status/Receipts.antt =====
-- Sequences of delivery receipts, as UpdateMessageStatus of store.go takes them.
use zchat.Prelude.{
  ℕ, ◌≤◌, String, ◌≡◌, refl, sym, ap, subst, ◌∙◌, false, List, Option, none, some, arith, ◌==◌,
  eq_iff, if◌then◌else◌, Bool-cases, Option-cases, inl, inr, ◌⊎◌,
}
use mathlib.Core.Path.{fun_ext}
use mathlib.Core.Option
use native.Mathlib.Nat.{le_refl}
use zchat.Prelude.Exec.{Result}
use zchat.Prelude.Rows.{
  find, update, IsUnique, find-update, update-update, update_comm_ne, update-IsUnique, key-find,
}
use zchat.Store.Types.{MessageRow, status_rank}
use zchat.Store.Db.{Db, Conn, exec, query, refused, later}
use zchat.Store.Messages.{
  message_id, has_id, outranks, set_status_rows, advance_status, apply_status,
  update_message_status,
}
use zchat.Store.Status.{
  update_message_status_lem, advance, advance_row, advanced, advance_comm, rank_or_zero, calm,
  with_status,
}

-- The rank of a stored message's status; an unranked status or a missing message counts as 0.
abbrev pub rank_in : Option MessageRow → ℕ
rank_in none = 0
rank_in (some m) = rank_or_zero (status_rank m.status)

abbrev pub stored_rank : String → Db → ℕ
stored_rank k db = rank_in (find message_id k db.messages)

row_comm :
    (a b : String) (r s : ℕ) (m : MessageRow)
    → status_rank a ≡ some r
    → status_rank b ≡ some s
    → advance_row (status_rank b) b (advance_row (status_rank a) a m)
      ≡ advance_row (status_rank a) a (advance_row (status_rank b) b m)
unfolding advance
row_comm a b r s m p q = ap (λ (t : String). with_status t m) (advance_comm m.status a b r s p q)

rows_comm :
    (i a b : String) (r s : ℕ) (ms : List MessageRow)
    → status_rank a ≡ some r
    → status_rank b ≡ some s
    → update
        (has_id i)
        (advance_row (status_rank b) b)
        (update (has_id i) (advance_row (status_rank a) a) ms)
      ≡ update
          (has_id i)
          (advance_row (status_rank a) a)
          (update (has_id i) (advance_row (status_rank b) b) ms)
rows_comm i a b r s ms p q =
    update-update message_id i (advance_row (status_rank a) a) (advance_row (status_rank b) b) ms
      (λ m. refl)
    ∙ ap (λ (f : MessageRow → MessageRow). update (has_id i) f ms)
        (fun_ext λ m. row_comm a b r s m p q)
    ∙ sym (
        update-update message_id i (advance_row (status_rank b) b) (advance_row (status_rank a) a)
          ms (λ m. refl))

-- Two ranked statuses, of the same message or of two, leave the same tables in either order.
advanced_comm :
    (db : Db) (i j a b : String) (r s : ℕ)
    → status_rank a ≡ some r
    → status_rank b ≡ some s
    → advanced j b (advanced i a db) ≡ advanced i a (advanced j b db)
advanced_comm db i j a b r s p q =
    ap (λ (ms : List MessageRow). record db { messages = ms })
      (elim (Bool-cases (j == i)) [
        | inl e ↦ rw ((eq_iff j i).0 e) (rows_comm i a b r s db.messages p q)
        | inr e ↦
            update_comm_ne message_id j i (advance_row (status_rank b) b)
              (advance_row (status_rank a) a) db.messages e (λ m. refl) (λ m. refl)
      ])

after_status :
    (db : Db) (id s : String)
    → IsUnique message_id db.messages
    → (update_message_status id s (calm db)).1 ≡ calm (advanced id s db)
after_status db id s u =
    ap (λ (o : Result (Unit {0}) × Conn). o.1) (update_message_status_lem db u id s)

after_two :
    (db : Db) (i j a b : String)
    → IsUnique message_id db.messages
    → (update_message_status j b (update_message_status i a (calm db)).1).1
      ≡ calm (advanced j b (advanced i a db))
after_two db i j a b u = rw (after_status db i a u) (
    after_status (advanced i a db) j b (
      update-IsUnique message_id (advance_row (status_rank a) a) (λ m. refl) (has_id i) db.messages
        u))

-- Where the driver refuses nothing, two receipts leave the same tables whichever comes first.
pub receipts_comm :
    (db : Db) (i j a b : String) (r s : ℕ)
    → IsUnique message_id db.messages
    → status_rank a ≡ some r
    → status_rank b ≡ some s
    → (update_message_status j b (update_message_status i a (calm db)).1).1
      ≡ (update_message_status i a (update_message_status j b (calm db)).1).1
receipts_comm db i j a b r s u p q =
    after_two db i j a b u
    ∙ ap calm (advanced_comm db i j a b r s p q)
    ∙ sym (after_two db j i b a u)

abbrev Raised : String → ℕ → Conn → Conn → Type 0
Raised id rank c d =
    (d.db ≡ c.db)
    ⊎ ((m : MessageRow) × (find message_id id c.db.messages ≡ some m)
        × (outranks m.status rank ≡ false)
        × ((s : String) × (status_rank s ≡ some rank) × (d.db ≡ set_status_rows id s c.db)))

advance_status_cases :
    (id s : String) (rank : ℕ) (c : Conn)
    → status_rank s ≡ some rank
    → Raised id rank c (advance_status id s rank c).1
unfolding advance_status query exec
advance_status_cases id s rank c p = elim (Bool-cases (refused c.faults)) [
  | inl e ↦ rw e (inl refl)
  | inr e ↦ rw e (elim (Option-cases (find message_id id c.db.messages)) [
    | inl f ↦ rw f (inl refl)
    | inr (m, f) ↦ rw f (elim (Bool-cases (outranks m.status rank)) [
      | inl o ↦ rw o (inl refl)
      | inr o ↦ rw o (elim (Bool-cases (refused (later c.faults))) [
        | inl g ↦ rw g (inl refl)
        | inr g ↦ rw g (inr (m, refl, o, (s, p, refl)))
      ])
    ])
  ])
]

set_status-le :
    (id s k : String) (rank : ℕ) (m : MessageRow) (o : Option MessageRow)
    → outranks m.status rank ≡ false
    → status_rank s ≡ some rank
    → ((x : MessageRow) → o ≡ some x → x.id ≡ id → x ≡ m)
    → rank_in o ≤ rank_in (Option.map (λ x. if has_id id x then with_status s x else x) o)
unfolding outranks
set_status-le id s k rank m none h p same = omega arith
set_status-le id s k rank m (some x) h p same = elim (Bool-cases (x.id == id)) [
  | inl e ↦ rw (e, p) (lower (rw (same x refl ((eq_iff x.id id).0 e)) h))
  | inr e ↦ rw e (le_refl (rank_or_zero (status_rank x.status)))
]
  where
    lower : outranks x.status rank ≡ false → rank_or_zero (status_rank x.status) ≤ rank
    lower q = ground arith

same_row :
    (k id : String) (ms : List MessageRow) (x m : MessageRow)
    → find message_id k ms ≡ some x
    → x.id ≡ id
    → find message_id id ms ≡ some m
    → x ≡ m
same_row k id ms x m f g e = cc (key-find message_id k ms x f)

Raised-le :
    (id k : String) (rank : ℕ) (c d : Conn)
    → Raised id rank c d
    → stored_rank k c.db ≤ stored_rank k d.db
unfolding set_status_rows
Raised-le id k rank c d (inl e) = rw e (le_refl (stored_rank k c.db))
Raised-le id k rank c d (inr (m, e, o, (s, p, h))) = rw h (
    subst (λ (o : Option MessageRow). stored_rank k c.db ≤ rank_in o)
      (sym (find-update message_id (with_status s) (λ x. refl) (has_id id) k c.db.messages))
      (set_status-le id s k rank m (find message_id k c.db.messages) o p
        (λ x f g. same_row k id c.db.messages x m f g e)))

-- No status update with a ranked status lowers the rank of any message, whichever statements the
-- driver refuses.
pub stored_rank-le :
    (id s k : String) (rank : ℕ) (c : Conn)
    → status_rank s ≡ some rank
    → stored_rank k c.db ≤ stored_rank k (update_message_status id s c).1.db
unfolding update_message_status apply_status
stored_rank-le id s k rank c p =
    rw p (Raised-le id k rank c (advance_status id s rank c).1 (advance_status_cases id s rank c p))
