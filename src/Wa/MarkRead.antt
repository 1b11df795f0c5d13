-- ===== src/Wa/MarkRead.antt =====
-- apps/daemon/wa/actions.go, MarkRead: the newest messages of a chat are acknowledged by sender.
use mathlib.Core.List.{append_assoc}
use zchat.Prelude.{
  append-nil, ℕ, zero, suc, String, ◌≡◌, refl, sym, ap, ◌∙◌, Bool, false, not, ◌||◌, List, [], ◌∷◌,
  ◌++◌, Option, none, some, ◌==◌, eq_iff, ltb, if◌then◌else◌, Bool-cases, inl, inr, arith,
}
use zchat.Prelude.Int.{ℤ, pos, negsuc}
use zchat.Prelude.Exec.{Exec, ok, err, failure, ◌>>=◌, ◌>>◌}
use zchat.Store.Types.{MessageRef}
use zchat.Store.MessageQueries.{recent_incoming}
use zchat.Wa.Session.{Session, marks_read, on_store, tell}

-- maxReadReceipts
abbrev pub max_read_receipts : ℕ
max_read_receipts = 50

abbrev pub capped : ℤ → ℕ
capped (negsuc k) = max_read_receipts
capped (pos zero) = max_read_receipts
capped (pos (suc n)) = if ltb max_read_receipts (suc n) then max_read_receipts else suc n

-- The map `bySender`, in the order in which `range` visits it.
abbrev pub Groups : Type 0
Groups = List (String × List String)

-- `bySender[k] = append(bySender[k], id)`
abbrev pub add_to : String → String → Groups → Groups
add_to k id [] = (k, id ∷ []) ∷ []
add_to k id ((j, ids) ∷ gs) = if j == k then (j, ids ++ id ∷ []) ∷ gs else (j, ids) ∷ add_to k id gs

abbrev pub add_ref : Option String → String → Groups → Groups
add_ref none id gs = gs
add_ref (some k) id gs = add_to k id gs

-- The loop over the groups, which ends at the first error.
abbrev pub mark_groups : String → Groups → Exec Session (Unit {0})
mark_groups chat [] s = (ok tt, s)
mark_groups chat ((k, ids) ∷ gs) s =
    (tell "mark read" (marks_read chat k ids) >> mark_groups chat gs) s

-- `is_jid` tells which texts ParseJID of whatsmeow reads, `sender_key` what it reads of a sender,
-- without the device.
module _ (sender_key : String → Option String) where
  -- The loop over the references.
  abbrev pub group_from : Groups → List MessageRef → Groups
  group_from gs [] = gs
  group_from gs (r ∷ rs) = group_from (add_ref (sender_key r.sender) r.id gs) rs

  -- MarkRead
  unfoldable pub mark_read : (String → Bool) → String → ℤ → Exec Session (Unit {0})
  mark_read is_jid chat count s =
      if not s.has_client || not s.logged_in
      then (ok tt, s)
      else if not (is_jid chat)
      then (err (failure "parse jid"), s)
      else (on_store (recent_incoming chat (pos (capped count))) >>= λ refs.
            mark_groups chat (group_from [] refs))
          s

  -- The ids that a sender is sent a receipt for.
  abbrev pub ids_of : String → Groups → List String
  ids_of k [] = []
  ids_of k ((j, ids) ∷ gs) = if j == k then ids else ids_of k gs

  abbrev pub is_sender : Option String → String → Bool
  is_sender none k = false
  is_sender (some j) k = j == k

  -- The ids of a sender's messages, in order.
  abbrev pub authored : String → List MessageRef → List String
  authored k [] = []
  authored k (r ∷ rs) =
      if is_sender (sender_key r.sender) k then r.id ∷ authored k rs else authored k rs

  ids_of-add_to :
      (k j id : String) (gs : Groups)
      → ids_of k (add_to j id gs) ≡ (if j == k then ids_of k gs ++ id ∷ [] else ids_of k gs)
  ids_of-add_to k j id [] = ground arith
  ids_of-add_to k j id ((i, ids) ∷ gs) =
      ground (arith, ids_of-add_to k j id gs, eq_iff i j, eq_iff i k, eq_iff j k)

  ids_of-add_ref :
      (k : String) (o : Option String) (id : String) (gs : Groups) (rest : List String)
      → ids_of k (add_ref o id gs) ++ rest
        ≡ ids_of k gs ++ (if is_sender o k then id ∷ rest else rest)
  ids_of-add_ref k none id gs rest = refl
  ids_of-add_ref k (some j) id gs rest = elim (Bool-cases (j == k)) [
    | inl e ↦
        ap (λ (x : List String). x ++ rest) (ids_of-add_to k j id gs)
        ∙ rw e (append_assoc (ids_of k gs) (id ∷ []) rest)
    | inr e ↦ ap (λ (x : List String). x ++ rest) (ids_of-add_to k j id gs) ∙ rw e refl
  ]

  ids_of-group_from :
      (k : String) (rs : List MessageRef) (gs : Groups)
      → ids_of k (group_from gs rs) ≡ ids_of k gs ++ authored k rs
  ids_of-group_from k [] gs = sym (append-nil (ids_of k gs))
  ids_of-group_from k (r ∷ rs) gs =
      ids_of-group_from k rs (add_ref (sender_key r.sender) r.id gs)
      ∙ ids_of-add_ref k (sender_key r.sender) r.id gs (authored k rs)

  -- The receipt of each sender names exactly that sender's messages of the batch, in their order;
  -- messages whose sender is no JID are in none.
  pub groups-authored :
      (k : String) (rs : List MessageRef) → ids_of k (group_from [] rs) ≡ authored k rs
  groups-authored k rs = ids_of-group_from k rs []
