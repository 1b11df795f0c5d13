-- ===== src/Wa/Connection/Attached.antt =====
-- apps/daemon/service/service.go, StreamEvents: what an attached client knows of the connection.
use mathlib.Core.List.{append_assoc}
use zchat.Prelude.{
  ◌≡◌, refl, sym, ap, ◌∙◌, Bool, true, false, List, [], ◌∷◌, ◌++◌, Option, none, some,
}
use zchat.Wa.Connection.{
  ConnectionState, Device, Notice, state_changed, qr_updated, Link, set_state, QrItem, code_item,
  success, error_item, other_item, consume_qr, Start, no_device, unpaired, paired, start, Event,
  on_connected, on_disconnected, on_logged_out, contacts_complete, handle_connection, unlinked,
  logout,
}

-- What happens to the session's connection.
pub data Step : Type 0 where
  pairing : QrItem → Step
  starting : Start → Step
  event : Event → Step
  logging_out : Bool → Step

unfoldable pub step : Step → Link → Link
unfolding consume_qr start handle_connection logout
step (pairing item) l = consume_qr item l
step (starting s) l = start s l
step (event e) l = handle_connection e l
step (logging_out refuses) l = logout refuses l

unfoldable pub steps : List Step → Link → Link
unfolding step
steps [] l = l
steps (x ∷ xs) l = steps xs (step x l)

-- What a client knows after the events `news`, newest first, if it knew a state before them.
abbrev pub known : List Notice → ConnectionState → ConnectionState
known [] s = s
known (state_changed t ∷ news) s = t
known (qr_updated qr ∷ news) s = known news s

-- A client that was sent the state of `l` when it attached, and then what was published, knows the
-- state of `l'`.
pub record Informed (l l' : Link) : Type 0 where
  pub news : List Notice
  pub published : l'.published ≡ news ++ l.published
  pub current : known news l.state ≡ l'.state

known-append :
    (later news : List Notice) (s : ConnectionState)
    → known (later ++ news) s ≡ known later (known news s)
known-append [] news s = refl
known-append (state_changed t ∷ later) news s = refl
known-append (qr_updated qr ∷ later) news s = known-append later news s

Informed-trans : {l m n : Link} → Informed l m → Informed m n → Informed l n
Informed-trans {l} h k = record {
  news = k.news ++ h.news;
  published =
      k.published
      ∙ ap (λ (es : List Notice). k.news ++ es) h.published
      ∙ sym (append_assoc k.news h.news l.published);
  current = known-append k.news h.news l.state ∙ ap (known k.news) h.current ∙ k.current;
}

-- A step that enters a state, or that publishes nothing and keeps the state.
Informed-enters :
    (l l' : Link) (s : ConnectionState)
    → l'.published ≡ state_changed s ∷ l.published
    → l'.state ≡ s
    → Informed l l'
Informed-enters l l' s p e = record { news = state_changed s ∷ []; published = p; current = sym e }

Informed-silent : (l l' : Link) → l'.published ≡ l.published → l'.state ≡ l.state → Informed l l'
Informed-silent l l' p e = record { news = []; published = p; current = sym e }

unlinked-Informed :
    (o : Option Device) (refuses : Bool) (l : Link) → Informed l (unlinked o refuses l)
unlinked-Informed none refuses l = Informed-silent l _ refl refl
unlinked-Informed (some d) true l = Informed-silent l _ refl refl
unlinked-Informed (some d) false l = Informed-silent l _ refl refl

step-Informed : (x : Step) (l : Link) → Informed l (step x l)
unfolding step consume_qr start handle_connection logout set_state
step-Informed (pairing (code_item qr)) l = record {
  news = qr_updated qr ∷ [];
  published = refl;
  current = refl;
}
step-Informed (pairing success) l = Informed-enters l _ _ refl refl
step-Informed (pairing (error_item e)) l = Informed-enters l _ _ refl refl
step-Informed (pairing (other_item e)) l = Informed-enters l _ _ refl refl
step-Informed (starting no_device) l = Informed-silent l _ refl refl
step-Informed (starting (unpaired d false connects)) l = Informed-silent l _ refl refl
step-Informed (starting (unpaired d true false)) l = Informed-enters l _ _ refl refl
step-Informed (starting (unpaired d true true)) l = Informed-enters l _ _ refl refl
step-Informed (starting (paired d connects)) l = Informed-enters l _ _ refl refl
step-Informed (event on_connected) l = Informed-enters l _ _ refl refl
step-Informed (event on_disconnected) l = Informed-enters l _ _ refl refl
step-Informed (event (on_logged_out reason)) l = Informed-enters l _ _ refl refl
step-Informed (event (contacts_complete n)) l = Informed-silent l _ refl refl
step-Informed (logging_out refuses) l = unlinked-Informed l.device refuses l

-- Whenever a client attaches, and whatever starts, pairings, connection events and logouts follow,
-- one after the other: from the state that it is sent and the events after it, the client knows the
-- session's connection state.
pub steps-Informed : (xs : List Step) (l : Link) → Informed l (steps xs l)
unfolding steps
steps-Informed [] l = Informed-silent l l refl refl
steps-Informed (x ∷ xs) l = Informed-trans (step-Informed x l) (steps-Informed xs (step x l))
