-- ===== src/Service/Daemon/Linked.antt =====
-- apps/daemon/wa: the functions of the connection and of the full sync leave consistent tables; of
-- them only Reset and finish write, and they write the flag of the full sync.
use zchat.Prelude.{ℕ, String, Bool, true, false, not, ◌||◌, Option, none, some, if◌then◌else◌}
use zchat.Store.Db.{Conn}
use zchat.Store.Meta.{set_meta}
use zchat.Store.Calls.{perform, sets_meta, perform-IsConsistent}
use zchat.Store.Consistent.{IsConsistent}
use zchat.Wa.Sync.{
  World, begin, connected, contacts_synced, chunk, reset, reset_locked, finish_begin, finish_store,
  finish_end, is_early, is_connecting, meta_sync_completed,
}
use zchat.Wa.Connection.{
  Link, Device, QrItem, code_item, success, error_item, other_item, consume_qr, set_state, Start,
  no_device, unpaired, paired, start, Event, on_connected, on_disconnected, on_logged_out,
  contacts_complete, handle_connection, unlinked, logout,
}

-- The tables that a tracker writes to are consistent.
abbrev pub IsKept : World → Type 0
IsKept w = IsConsistent w.conn.db

IsKept-if : (b : Bool) (w v : World) → IsKept w → IsKept v → IsKept (if b then w else v)
IsKept-if true w v h k = h
IsKept-if false w v h k = k

kept_meta :
    (key value : String) (c : Conn) → IsConsistent c.db → IsConsistent (set_meta key value c).1.db
unfolding perform
kept_meta key value c h = (perform-IsConsistent (sets_meta key value)).at c h

begin-IsKept : (w : World) → IsKept w → IsKept (begin w)
unfolding begin
begin-IsKept w h = IsKept-if (w.completed || w.active) w _ h h

connected-IsKept : (w : World) → IsKept w → IsKept (connected w)
unfolding connected
connected-IsKept w h = IsKept-if (not w.active || not (is_connecting w.stage)) w _ h h

contacts_synced-IsKept : (n : ℕ) (w : World) → IsKept w → IsKept (contacts_synced n w)
unfolding contacts_synced
contacts_synced-IsKept n w h = IsKept-if (not w.active) w _ h (IsKept-if (is_early w.stage) _ _ h h)

pub chunk-IsKept : (c m : ℕ) (w : World) → IsKept w → IsKept (chunk c m w)
unfolding chunk
chunk-IsKept c m w h = IsKept-if (not w.active) w _ h h

reset-IsKept : (w : World) → IsKept w → IsKept (reset w)
unfolding reset reset_locked
reset-IsKept w h = kept_meta meta_sync_completed "" w.conn h

pub finish_begin-IsKept : (w : World) → IsKept w → IsKept (finish_begin w).0
unfolding finish_begin
finish_begin-IsKept w h = begun (not w.active) _ h
  where
    begun :
        (b : Bool) (v : World)
        → IsKept v
        → let o : World × Bool = if b then (w, false) else (v, true) in IsKept o.0
    begun true v k = h
    begun false v k = k

pub finish_end-IsKept : (w : World) → IsKept w → IsKept (finish_end (finish_store w))
unfolding finish_store finish_end
finish_end-IsKept w h = kept_meta meta_sync_completed "1" w.conn h

pub start-IsKept : (how : Start) (l : Link) → IsKept l.full_sync → IsKept (start how l).full_sync
unfolding start set_state
start-IsKept no_device l h = h
start-IsKept (unpaired d true true) l h = reset-IsKept l.full_sync h
start-IsKept (unpaired d true false) l h = h
start-IsKept (unpaired d false connects) l h = h
start-IsKept (paired d connects) l h = begin-IsKept l.full_sync h

pub consume_qr-IsKept :
    (item : QrItem) (l : Link) → IsKept l.full_sync → IsKept (consume_qr item l).full_sync
unfolding consume_qr set_state
consume_qr-IsKept (code_item qr) l h = h
consume_qr-IsKept success l h = begin-IsKept l.full_sync h
consume_qr-IsKept (error_item e) l h = h
consume_qr-IsKept (other_item event) l h = h

pub handle_connection-IsKept :
    (e : Event) (l : Link) → IsKept l.full_sync → IsKept (handle_connection e l).full_sync
unfolding handle_connection set_state
handle_connection-IsKept on_connected l h = connected-IsKept l.full_sync h
handle_connection-IsKept on_disconnected l h = h
handle_connection-IsKept (on_logged_out reason) l h = reset-IsKept l.full_sync h
handle_connection-IsKept (contacts_complete n) l h = contacts_synced-IsKept n l.full_sync h

unlinked-IsKept :
    (o : Option Device) (refuses : Bool) (l : Link)
    → IsKept l.full_sync
    → IsKept (unlinked o refuses l).full_sync
unlinked-IsKept none refuses l h = h
unlinked-IsKept (some d) true l h = h
unlinked-IsKept (some d) false l h = reset-IsKept l.full_sync h

pub logout-IsKept :
    (refuses : Bool) (l : Link) → IsKept l.full_sync → IsKept (logout refuses l).full_sync
unfolding logout
logout-IsKept refuses l h = unlinked-IsKept l.device refuses l h
