-- ===== src/Wa/Sync/Lifecycle.antt =====
-- apps/daemon/wa/sync.go: the life cycle of a full sync, where no other callback runs between the
-- critical sections of finish, and what happens where one does.
use zchat.Prelude.{
  ℕ, String, ◌≡◌, refl, ap, sym, subst, Bool, true, false, List, [], ◌∷◌, none, some, arith,
  Bool-cases, inl, inr, eq_refl,
}
use zchat.Prelude.Exec.{ok}
use zchat.Prelude.Rows.{find, upsert, find-upsert}
use zchat.Store.Db.{Db, Conn, MetaRow, exec, query}
use zchat.Store.Meta.{meta, set_meta, set_meta_rows, meta_key}
use zchat.Store.Status.{calm}
use zchat.Wa.Sync.{
  Stage, connecting, contacts, history, done, Tracker, World, new_tracker, load, begin, connected,
  contacts_synced, chunk, finish, finish_begin, finish_store, finish_end, reset, reset_locked,
  meta_sync_completed, restored,
}

-- What calls the tracker: Session.Start and the QR channel, the event handler, the history worker,
-- the two timers, and Logout. `finishes` carries the effect that the repair of the chats has.
pub data Callback : Type 0 where
  begins connects resets : Callback
  syncs_contacts : ℕ → Callback
  receives_chunk : ℕ → ℕ → Callback
  finishes : (Conn → Conn) → Callback

unfoldable pub react : Callback → World → World
react begins w = begin w
react connects w = connected w
react resets w = reset w
react (syncs_contacts n) w = contacts_synced n w
react (receives_chunk c m) w = chunk c m w
react (finishes r) w = finish r w

abbrev pub is_running : Stage → Bool
is_running connecting = true
is_running contacts = true
is_running history = true
is_running _ = false

-- A sync in progress is at a stage that the client shows as such, has not completed, and is bound
-- to end by its deadline; a completed one has reached the last stage.
pub record IsSound (t : Tracker) : Type 0 where
  pub running : t.active ≡ true → is_running t.stage ≡ true
  pub unfinished : t.active ≡ true → t.completed ≡ false
  pub timed : t.active ≡ true → t.deadline ≡ true
  pub finished : t.completed ≡ true → t.stage ≡ done

ended-IsSound : (t : Tracker) → t.active ≡ false → t.stage ≡ done → IsSound t
ended-IsSound t a s = ground arith

finish-IsSound : (r : Conn → Conn) (w : World) → IsSound w.tracker → IsSound (finish r w).tracker
unfolding finish finish_begin finish_store finish_end
finish-IsSound r w h = elim (Bool-cases w.active) [
  | inl a ↦ rw a (
      ended-IsSound
        (record w.tracker {
          active = false;
          stage = done;
          settle = false;
          deadline = false;
          completed = true;
        })
        refl refl)
  | inr a ↦ simp a h
]

-- Every callback keeps the tracker sound.
pub react-IsSound : (k : Callback) (w : World) → IsSound w.tracker → IsSound (react k w).tracker
unfolding react begin connected contacts_synced chunk reset reset_locked
react-IsSound begins w h = ground arith
react-IsSound connects w h = ground arith
react-IsSound resets w h = ground arith
react-IsSound (syncs_contacts n) w h = ground arith
react-IsSound (receives_chunk c m) w h = ground arith
react-IsSound (finishes r) w h = finish-IsSound r w h

unfoldable pub react_all : List Callback → World → World
react_all [] w = w
react_all (k ∷ ks) w = react_all ks (react k w)

-- So it is sound after any sequence of callbacks.
pub react_all-IsSound :
    (ks : List Callback) (w : World) → IsSound w.tracker → IsSound (react_all ks w).tracker
unfolding react_all
react_all-IsSound [] w h = h
react_all-IsSound (k ∷ ks) w h = react_all-IsSound ks (react k w) (react-IsSound k w h)

-- A daemon that starts over with the store that another left behind.
abbrev pub restarted : Conn → World
restarted c = load (record { tracker = new_tracker; published = []; conn = c })

flag_value :
    (v : String) (ms : List MetaRow)
    → elim (find meta_key meta_sync_completed (
        upsert meta_key
          (record { key = meta_sync_completed; value = v })
          (λ r. record r { value = v })
          ms)) [ none ↦ "" | some r ↦ r.value ]
      ≡ v
flag_value v ms = ground (
  arith,
  find-upsert meta_key (λ r. record r { value = v }) (λ r. refl) meta_sync_completed
      (record { key = meta_sync_completed; value = v }) ms,
  eq_refl meta_sync_completed,
)

flag_calm :
    (v : String) (db : Db)
    → meta meta_sync_completed (set_meta meta_sync_completed v (calm db)).1
      ≡ (ok v, (set_meta meta_sync_completed v (calm db)).1)
unfolding meta set_meta set_meta_rows query exec
flag_calm v db =
    ap (λ (x : String). (ok x, calm (set_meta_rows meta_sync_completed v db)))
      (flag_value v db.meta)

stored_flag :
    (v : String) (c : Conn)
    → c.faults ≡ []
    → meta meta_sync_completed (set_meta meta_sync_completed v c).1
      ≡ (ok v, (set_meta meta_sync_completed v c).1)
stored_flag v c e =
    subst
      (λ (fs : List Bool).
        let d : Conn = record c { faults = fs } in
        meta meta_sync_completed (set_meta meta_sync_completed v d).1
        ≡ (ok v, (set_meta meta_sync_completed v d).1))
      (sym e) (flag_calm v c.db)

restart_with :
    (v : String) (c : Conn)
    → c.faults ≡ []
    → (restarted (set_meta meta_sync_completed v c).1).tracker ≡ restored (ok v) new_tracker
unfolding load
restart_with v c e = rw (stored_flag v c e)

finish_conn :
    (r : Conn → Conn) (w : World)
    → w.active ≡ true
    → (finish r w).conn ≡ (set_meta meta_sync_completed "1" (r w.conn)).1
unfolding finish finish_begin finish_store finish_end
finish_conn r w a = rw a

completed_begin : (w : World) → w.completed ≡ true → begin w ≡ w
unfolding begin
completed_begin w e = rw e

idle_begin :
    (w : World)
    → w.completed ≡ false
    → w.active ≡ false
    → ((begin w).active ≡ true) × ((begin w).stage ≡ connecting)
unfolding begin
idle_begin w c a = rw (c, a) (refl, refl)

set_meta-faults : (k v : String) (c : Conn) → c.faults ≡ [] → (set_meta k v c).1.faults ≡ []
unfolding set_meta exec
set_meta-faults k v c e = rw e refl

-- A full sync that ended is remembered across a restart: the new tracker is at the last stage, and
-- Begin does not start another sync.
pub finish_restart :
    (r : Conn → Conn) (w : World)
    → w.active ≡ true
    → (r w.conn).faults ≡ []
    → ((restarted (finish r w).conn).completed ≡ true)
      × ((restarted (finish r w).conn).stage ≡ done)
      × (begin (restarted (finish r w).conn) ≡ restarted (finish r w).conn)
finish_restart r w a e =
    let t : (restarted (finish r w).conn).tracker ≡ restored (ok "1") new_tracker =
      rw (finish_conn r w a) (restart_with "1" (r w.conn) e) in
    (
      ap (λ (x : Tracker). x.completed) t,
      ap (λ (x : Tracker). x.stage) t,
      completed_begin (restarted (finish r w).conn) (ap (λ (x : Tracker). x.completed) t),
    )

-- After a Reset the restarted tracker knows of no completed sync, and Begin starts one.
pub reset_restart :
    (w : World)
    → w.conn.faults ≡ []
    → ((restarted (reset w).conn).completed ≡ false)
      × ((begin (restarted (reset w).conn)).active ≡ true)
      × ((begin (restarted (reset w).conn)).stage ≡ connecting)
unfolding reset reset_locked
reset_restart w e =
    let t : (restarted (reset w).conn).tracker ≡ restored (ok "") new_tracker =
      restart_with "" w.conn e in
    let c = ap (λ (x : Tracker). x.completed) t in
    let b = idle_begin (restarted (reset w).conn) c (ap (λ (x : Tracker). x.active) t) in
    (c, b.0, b.1)

-- A Reset that comes between the two critical sections of finish is undone by the second: the
-- tracker then holds the sync for completed and says so, and Begin does not start the sync that the
-- next pairing needs. Where the driver refuses no statement, a restart depends on the order: after a
-- Reset before finish has stored its flag the restarted tracker holds the sync for completed too,
-- and after one behind it the restarted tracker knows of no completed sync.
pub reset_within_finish :
    (w v : World)
    → finish_begin w ≡ (v, true)
    → v.conn.faults ≡ []
    → let before = finish_end (finish_store (reset v)) in
      let behind = finish_end (reset (finish_store v)) in
      (before.completed ≡ true)
      × (before.stage ≡ done)
      × (begin before ≡ before)
      × ((restarted before.conn).completed ≡ true)
      × (behind.completed ≡ true)
      × (behind.stage ≡ done)
      × (begin behind ≡ behind)
      × ((restarted behind.conn).completed ≡ false)
unfolding finish_store finish_end reset reset_locked load begin
reset_within_finish w v h e = (
  refl,
  refl,
  refl,
  ap (λ (x : Tracker). x.completed)
      (restart_with "1" (set_meta meta_sync_completed "" v.conn).1
        (set_meta-faults meta_sync_completed "" v.conn e)),
  refl,
  refl,
  refl,
  ap (λ (x : Tracker). x.completed)
      (restart_with "" (set_meta meta_sync_completed "1" v.conn).1
        (set_meta-faults meta_sync_completed "1" v.conn e)),
)
