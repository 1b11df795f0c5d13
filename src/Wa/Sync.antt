-- ===== src/Wa/Sync.antt =====
-- apps/daemon/wa/sync.go: the tracker of the full sync. Each function below is one critical section
-- of the tracker's mutex; finish has two of them, with the repair of the chats in between.
pub mod Lifecycle
pub mod Progress
use zchat.Prelude.{
  ℕ, suc, ◌+◌, ◌-◌, ◌*◌, ◌%◌, String, Bool, true, false, ◌||◌, not, List, ◌∷◌, ◌==◌, eqb, ltb, min,
  if◌then◌else◌,
}
use zchat.Prelude.Int.{ℤ, pos, negsuc}
use zchat.Prelude.Exec.{Result, ok, err}
use zchat.Store.Db.{Conn}
use zchat.Store.Meta.{meta, set_meta}

-- SyncStage
pub data Stage : Type 0 where
  idle connecting contacts history finalizing done : Stage

-- The `detail` texts, with the counts that are printed into them.
pub data Detail : Type 0 where
  text : String → Detail
  syncing_contacts : ℕ → Detail
  syncing_chats : ℕ → ℕ → Detail

-- SyncState, with the progress fraction in units of 1/800.
pub record SyncState : Type 0 where
  pub stage : Stage
  pub progress : ℕ
  pub indeterminate : Bool
  pub detail : Detail
  pub chats_synced : ℤ
  pub messages_synced : ℤ
  pub contacts_synced : ℤ

-- syncTracker. A timer is armed from its start until it is stopped or its callback has taken the
-- mutex.
pub record Tracker : Type 0 where
  pub active : Bool
  pub stage : Stage
  pub chunks : ℕ
  pub chats : ℕ
  pub messages : ℕ
  pub contact_count : ℕ
  pub settle : Bool
  pub deadline : Bool
  pub completed : Bool

-- The tracker with what it reaches through its session: the store and the published events, newest
-- first.
pub record World : Type 0 where
  pub tracker : Tracker
  pub open tracker use *
  pub published : List SyncState
  pub conn : Conn

abbrev pub meta_sync_completed : String
meta_sync_completed = "full_sync_completed"

-- progressContacts, progressHistory - progressContacts, expectedChunks and the others, times 800.
abbrev pub progress_contacts : ℕ
progress_contacts = 80

abbrev pub progress_finalizing : ℕ
progress_finalizing = 760

abbrev pub progress_done : ℕ
progress_done = 800

abbrev pub expected_chunks : ℕ
expected_chunks = 8

abbrev pub progress_per_chunk : ℕ
progress_per_chunk = 75

-- newSyncTracker
abbrev pub new_tracker : Tracker
new_tracker = record {
  active = false;
  stage = idle;
  chunks = 0;
  chats = 0;
  messages = 0;
  contact_count = 0;
  settle = false;
  deadline = false;
  completed = false;
}

-- Go's int32(n).
unfoldable pub to_int32 : ℕ → ℤ
to_int32 n = let r = n % 4294967296 in if ltb r 2147483648 then pos r else negsuc (4294967295 - r)

abbrev pub is_connecting : Stage → Bool
is_connecting connecting = true
is_connecting _ = false

abbrev pub is_early : Stage → Bool
is_early connecting = true
is_early contacts = true
is_early _ = false

abbrev pub progress_of : Stage → ℕ → ℕ
progress_of idle n = 0
progress_of connecting n = 0
progress_of contacts n = progress_contacts
progress_of history n = progress_contacts + progress_per_chunk * min n expected_chunks
progress_of finalizing n = progress_finalizing
progress_of done n = progress_done

abbrev pub detail_of : Tracker → Stage → Detail
detail_of t idle = text "Up to date"
detail_of t connecting = text "Connecting to WhatsApp"
detail_of t contacts = syncing_contacts t.contact_count
detail_of t history = syncing_chats t.chats t.messages
detail_of t finalizing = text "Tidying up your conversations"
detail_of t done = text "Sync complete"

-- stateLocked
unfoldable pub state_locked : Tracker → SyncState
unfolding to_int32
state_locked t = record {
  stage = t.stage;
  progress = progress_of t.stage t.chunks;
  indeterminate = is_connecting t.stage;
  detail = detail_of t t.stage;
  chats_synced = to_int32 t.chats;
  messages_synced = to_int32 t.messages;
  contacts_synced = to_int32 t.contact_count;
}

-- publishLocked, of the tracker as it is now.
abbrev pub publish_locked : Tracker → World → World
publish_locked t w = record w { tracker = t; published = state_locked t ∷ w.published }

abbrev pub restored : Result String → Tracker → Tracker
restored (err e) t = t
restored (ok value) t =
    if value == "1"
    then record t { completed = true; stage = done }
    else record t { completed = false }

-- Load
unfoldable pub load : World → World
load w =
    let (r, c) = meta meta_sync_completed w.conn in
    record w { tracker = restored r w.tracker; conn = c }

-- Begin
unfoldable pub begin : World → World
begin w =
    if w.completed || w.active
    then w
    else publish_locked (record w.tracker { active = true; stage = connecting; deadline = true }) w

-- armSettleLocked
abbrev pub arm_settle : Tracker → Tracker
arm_settle t = record t { settle = true }

-- Connected: the state is published before the timer is armed, which it does not show.
unfoldable pub connected : World → World
connected w =
    if not w.active || not (is_connecting w.stage)
    then w
    else publish_locked (arm_settle (record w.tracker { stage = contacts })) w

abbrev with_tracker : Tracker → World → World
with_tracker t w = record w { tracker = t }

-- Contacts
unfoldable pub contacts_synced : ℕ → World → World
contacts_synced n w =
    if not w.active
    then w
    else if is_early w.stage
    then publish_locked (arm_settle (record w.tracker { contact_count = n; stage = contacts })) w
    else with_tracker (arm_settle (record w.tracker { contact_count = n })) w

-- Chunk
unfoldable pub chunk : ℕ → ℕ → World → World
chunk chat_count message_count w =
    if not w.active
    then w
    else publish_locked
        (arm_settle (record w.tracker {
          chunks = suc w.chunks;
          chats = w.chats + chat_count;
          messages = w.messages + message_count;
          stage = history;
        }))
        w

-- The first critical section of finish; its result tells whether finish goes on.
unfoldable pub finish_begin : World → World × Bool
finish_begin w = if not w.active then (w, false) else (
  publish_locked
      (record w.tracker { active = false; stage = finalizing; settle = false; deadline = false }) w,
  true,
)

-- What finish does between its critical sections, after the repair of the chats: SetMeta, whose
-- error is only logged.
unfoldable pub finish_store : World → World
finish_store w = record w { conn = (set_meta meta_sync_completed "1" w.conn).1 }

-- The second critical section of finish.
unfoldable pub finish_end : World → World
finish_end w = publish_locked (record w.tracker { completed = true; stage = done }) w

-- finish, where no other callback takes the mutex between its critical sections. `reconcile` is the
-- repair of the chats, which works on the store.
unfoldable pub finish : (Conn → Conn) → World → World
finish reconcile w =
    let (w', goes_on) = finish_begin w in
    if goes_on then finish_end (finish_store (record w' { conn = reconcile w'.conn })) else w'

-- The critical section of Reset.
unfoldable pub reset_locked : World → World
reset_locked w =
    publish_locked
      (record w.tracker {
        active = false;
        completed = false;
        stage = idle;
        chunks = 0;
        chats = 0;
        messages = 0;
        contact_count = 0;
        settle = false;
        deadline = false;
      })
      w

-- Reset: the flag in the store is cleared after the mutex is released.
unfoldable pub reset : World → World
reset w =
    let w' = reset_locked w in record w' { conn = (set_meta meta_sync_completed "" w'.conn).1 }
