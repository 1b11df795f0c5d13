-- ===== src/Desktop/Conversation/Located.antt =====
-- apps/desktop/window.go, findMessage: the message at the index that it returns.
use zchat.Prelude.{
  ℕ, suc, String, ◌≡◌, refl, Bool, true, false, List, [], ◌∷◌, Option, none, some, ◌==◌, eq_iff,
  arith,
}
use zchat.Prelude.Rows.{find, update, delete, IsUnique, update_missing}
use zchat.Wa.Proto.{ProtoMessage}
use zchat.Desktop.Conversation.{found_newer, find_message, modify_at, delete_at}

abbrev pub id_of : ProtoMessage → String
id_of m = m.id

abbrev pub has_id : String → ProtoMessage → Bool
has_id id m = m.id == id

-- Where findMessage finds the message, a change there is the change of the message with that id.
pub data Located (id : String) (ms : List ProtoMessage) : Option ℕ → Type 0 where
  missing : find id_of id ms ≡ none → Located id ms none
  located :
      (i : ℕ) (m : ProtoMessage)
      → find id_of id ms ≡ some m
      → ((f : ProtoMessage → ProtoMessage) → modify_at f i ms ≡ update (has_id id) f ms)
      → delete_at i ms ≡ delete (has_id id) ms
      → Located id ms (some i)

delete_missing :
    (id : String) (ms : List ProtoMessage) → find id_of id ms ≡ none → delete (has_id id) ms ≡ ms
unfolding find
delete_missing id [] h = refl
delete_missing id (m ∷ ms) h = ground (arith, delete_missing id ms)

found_newer-Located :
    (id : String) (m : ProtoMessage) (ms : List ProtoMessage) (o : Option ℕ) (b : Bool)
    → (m.id == id) ≡ b
    → find id_of m.id ms ≡ none
    → Located id ms o
    → Located id (m ∷ ms) (found_newer o b)
unfolding find
found_newer-Located id m ms none true e u (missing h) =
    located 0 m (ground arith) (λ f. ground (arith, update_missing id_of id f ms h))
      (ground (arith, delete_missing id ms h))
found_newer-Located id m ms none false e u (missing h) = missing (ground arith)
found_newer-Located id m ms (some n) b e u (located i x h k d) =
    located (suc i) x (ground (arith, eq_iff m.id id)) (λ f. ground (arith, eq_iff m.id id, k f))
      (ground (arith, eq_iff m.id id))

pub find_message-Located :
    (id : String) (ms : List ProtoMessage) → IsUnique id_of ms → Located id ms (find_message id ms)
unfolding find_message find
find_message-Located id [] u = missing refl
find_message-Located id (m ∷ ms) (u, us) =
    found_newer-Located id m ms (find_message id ms) (m.id == id) refl u
      (find_message-Located id ms us)
