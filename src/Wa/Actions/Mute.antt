-- ===== src/Wa/Actions/Mute.antt =====
-- apps/daemon/wa/actions.go and session.go: a mute on its way to the user's other devices and back.
use native.Mathlib.Nat.{mul-div_cancel}
use zchat.Prelude.{
  ℕ, zero, suc, ◌*◌, ◌/◌, ◌<◌, ◌∙◌, String, ◌≡◌, refl, ap, true, Option, none, some, arith,
}
use zchat.Prelude.Int.{ℤ, pos, negsuc}
use zchat.Wa.Session.{Outgoing, mutes}
use zchat.Wa.Actions.{mute_forever, mute_until_from, mutee_patch}

-- The end of a mute as WhatsApp reports it: 0 where the patch names none.
abbrev pub end_of : Option ℤ → ℤ
end_of none = pos 0
end_of (some t) = t

-- What another device makes of a patch.
abbrev pub understood : Outgoing → ℤ
understood (mutes jid muted end_ms) = mute_until_from muted (end_of end_ms)
understood _ = pos 0

-- A stored mute: none, forever, or up to a time.
abbrev pub canonical : ℤ → ℤ
canonical (negsuc k) = mute_forever
canonical (pos n) = pos n

ends_at : (t : ℕ) → 0 < t → mute_until_from true (pos t) ≡ pos (t / 1000)
unfolding mute_until_from
ends_at zero l = ground arith
ends_at (suc n) l = refl

-- A mute that is sent to the user's other devices is understood there as it is stored here: with no
-- mute, with the same end, or without an end for every negative value.
pub understood-mutee_patch :
    (jid : String) (until : ℤ) → understood (mutee_patch jid until) ≡ canonical until
unfolding mutee_patch mute_until_from
understood-mutee_patch jid (negsuc k) = refl
understood-mutee_patch jid (pos zero) = refl
understood-mutee_patch jid (pos (suc n)) =
    ends_at (suc n * 1000) (omega arith) ∙ ap pos (mul-div_cancel (suc n) (omega arith))
