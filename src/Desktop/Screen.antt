-- ===== src/Desktop/Screen.antt =====
-- apps/desktop/window.go: which page the window shows while the daemon connects and syncs.
use zchat.Prelude.{◌≡◌, refl, Bool, true, false, not, ◌&&◌, List, [], ◌∷◌, if◌then◌else◌}
use zchat.Prelude.{ℕ, suc}
use zchat.Wa.Connection.{ConnectionStatus, unspecified, disconnected, logged_out}
use zchat.Wa.Sync.{Stage, idle, connecting, contacts, history, finalizing, done}

-- The children of mainStack.
pub data Page : Type 0 where
  qr sync chat : Page

-- The fields of window that these functions use; `loads` counts the calls of loadChats, and `pulse`
-- tells whether the timer of syncPulse runs.
pub record Screen : Type 0 where
  pub page : Page
  pub connected : Bool
  pub syncing : Bool
  pub pulse : Bool
  pub loads : ℕ

-- newWindow
abbrev pub new_screen : Screen
new_screen = record { page = qr; connected = false; syncing = false; pulse = false; loads = 0 }

-- Each end of connect, onSyncState and onConnectionState that opens the main view.
abbrev pub opened : Screen → Screen
opened s = record s { page = chat; loads = suc s.loads }

abbrev pub is_linked : ConnectionStatus → Bool
is_linked ConnectionStatus.connected = true
is_linked _ = false

abbrev pub opened_unless_syncing : Screen → Screen
opened_unless_syncing s = if s.connected && not s.syncing then opened s else s

-- onConnectionState
unfoldable pub on_connection_state : ConnectionStatus → Screen → Screen
on_connection_state logged_out s = record s { connected = false; page = qr }
on_connection_state status s = opened_unless_syncing (record s { connected = is_linked status })

abbrev pub synced : Screen → Screen
synced s =
    let ended : Screen = record s { syncing = false; pulse = false } in
    if s.connected then opened ended else ended

-- onSyncState for a running stage; `indeterminate` is the state's.
abbrev pub while_syncing : Bool → Screen → Screen
while_syncing indeterminate s = record s { syncing = true; page = sync; pulse = indeterminate }

-- onSyncState
unfoldable pub on_sync_state : Stage → Bool → Screen → Screen
on_sync_state connecting b s = while_syncing b s
on_sync_state contacts b s = while_syncing b s
on_sync_state history b s = while_syncing b s
on_sync_state finalizing b s = while_syncing b s
on_sync_state idle b s = if not s.syncing then s else synced s
on_sync_state done b s = if not s.syncing then s else synced s

-- showQR, where the code can be drawn or not.
unfoldable pub show_qr : Bool → Screen → Screen
show_qr true s = record s { page = qr }
show_qr false s = s

-- What reaches the window: the three events, and the end of connect.
pub data Signal : Type 0 where
  connection : ConnectionStatus → Signal
  stage_changed : Stage → Bool → Signal
  code : Bool → Signal
  attached : Signal

unfoldable pub signalled : Signal → Screen → Screen
unfolding on_connection_state on_sync_state show_qr
signalled (connection status) s = on_connection_state status s
signalled (stage_changed stage b) s = on_sync_state stage b s
signalled (code drawn) s = show_qr drawn s
signalled attached s = record s { connected = true }

unfoldable pub signalled_all : List Signal → Screen → Screen
unfolding signalled
signalled_all [] s = s
signalled_all (x ∷ xs) s = signalled_all xs (signalled x s)

abbrev is_chat : Page → Bool
is_chat chat = true
is_chat _ = false

-- The main view is not shown during a sync.
pub record IsBlocked (s : Screen) : Type 0 where
  pub blocked : s.syncing && is_chat s.page ≡ false

opened_unless_syncing-IsBlocked :
    (page : Page) (c y p : Bool) (n : ℕ)
    → IsBlocked (record { page = page; connected = c; syncing = y; pulse = p; loads = n })
    → IsBlocked (
        opened_unless_syncing
          (record { page = page; connected = c; syncing = y; pulse = p; loads = n }))
opened_unless_syncing-IsBlocked page true true p n h = record { blocked = h.blocked }
opened_unless_syncing-IsBlocked page true false p n h = record { blocked = refl }
opened_unless_syncing-IsBlocked page false y p n h = record { blocked = h.blocked }

synced-IsBlocked :
    (page : Page) (c y p : Bool) (n : ℕ)
    → IsBlocked (record { page = page; connected = c; syncing = y; pulse = p; loads = n })
    → let s : Screen = record { page = page; connected = c; syncing = y; pulse = p; loads = n } in
      IsBlocked (if not y then s else synced s)
synced-IsBlocked page c false p n h = record { blocked = refl }
synced-IsBlocked page true true p n h = record { blocked = refl }
synced-IsBlocked page false true p n h = record { blocked = refl }

not_chat : (b : Bool) → b && false ≡ false
not_chat true = refl
not_chat false = refl

signalled-IsBlocked : (x : Signal) (s : Screen) → IsBlocked s → IsBlocked (signalled x s)
unfolding signalled on_connection_state on_sync_state show_qr
signalled-IsBlocked (connection logged_out) s h = record { blocked = not_chat s.syncing }
signalled-IsBlocked (connection ConnectionStatus.connected) s h =
    opened_unless_syncing-IsBlocked s.page true s.syncing s.pulse s.loads
      (record { blocked = h.blocked })
signalled-IsBlocked (connection unspecified) s h = record { blocked = h.blocked }
signalled-IsBlocked (connection disconnected) s h = record { blocked = h.blocked }
signalled-IsBlocked (connection ConnectionStatus.connecting) s h = record { blocked = h.blocked }
signalled-IsBlocked (stage_changed connecting b) s h = record { blocked = refl }
signalled-IsBlocked (stage_changed contacts b) s h = record { blocked = refl }
signalled-IsBlocked (stage_changed history b) s h = record { blocked = refl }
signalled-IsBlocked (stage_changed finalizing b) s h = record { blocked = refl }
signalled-IsBlocked (stage_changed idle b) s h =
    synced-IsBlocked s.page s.connected s.syncing s.pulse s.loads (record { blocked = h.blocked })
signalled-IsBlocked (stage_changed done b) s h =
    synced-IsBlocked s.page s.connected s.syncing s.pulse s.loads (record { blocked = h.blocked })
signalled-IsBlocked (code true) s h = record { blocked = not_chat s.syncing }
signalled-IsBlocked (code false) s h = record { blocked = h.blocked }
signalled-IsBlocked attached s h = record { blocked = h.blocked }

-- Whatever the daemon reports, and in whichever order, the window never shows the main view while it
-- takes a sync to be running.
pub signalled_all-IsBlocked :
    (xs : List Signal) (s : Screen) → IsBlocked s → IsBlocked (signalled_all xs s)
unfolding signalled_all
signalled_all-IsBlocked [] s h = h
signalled_all-IsBlocked (x ∷ xs) s h =
    signalled_all-IsBlocked xs (signalled x s) (signalled-IsBlocked x s h)
