-- ===== src/Wa/Sync/Progress.antt =====
-- apps/daemon/wa/sync.go: the progress fraction that the tracker reports, in units of 1/800.
use zchat.Prelude.{
  ℕ, suc, ◌≤◌, ◌≡◌, ◌⊎◌, refl, subst, sym, Bool, true, false, List, [], ◌∷◌, arith, Bool-cases, inl,
  inr, All,
}
use zchat.Wa.Sync.{
  Stage, idle, connecting, contacts, history, finalizing, done, World, begin, connected,
  contacts_synced, chunk, finish, finish_begin, finish_store, finish_end, state_locked, progress_of,
  is_early, is_connecting,
}
use zchat.Wa.Sync.Lifecycle.{
  Callback, begins, connects, resets, syncs_contacts, receives_chunk, finishes, react, react_all,
  IsSound, react-IsSound, is_running,
}

abbrev is_reset : Callback → Bool
is_reset resets = true
is_reset _ = false

-- The progress of the state that the client is shown.
abbrev pub shown_progress : World → ℕ
unfolding state_locked
shown_progress w = (state_locked w.tracker).progress

-- A sync is in progress or has ended.
abbrev pub IsUnderway : World → Type 0
IsUnderway w = (w.active ≡ true) ⊎ (w.completed ≡ true)

chunk-progress :
    (s : Stage) (n : ℕ) → is_running s ≡ true → progress_of s n ≤ progress_of history (suc n)
chunk-progress connecting n h = omega arith
chunk-progress contacts n h = omega arith
chunk-progress history n h = omega arith
chunk-progress idle n h = ground arith
chunk-progress finalizing n h = ground arith
chunk-progress done n h = ground arith

early-progress : (s : Stage) (n : ℕ) → is_early s ≡ true → progress_of s n ≤ 80
early-progress connecting n h = omega arith
early-progress contacts n h = omega arith
early-progress _ n h = ground arith

progress-bound : (s : Stage) (n : ℕ) → progress_of s n ≤ 800
progress-bound idle n = omega arith
progress-bound connecting n = omega arith
progress-bound contacts n = omega arith
progress-bound history n = omega arith
progress-bound finalizing n = omega arith
progress-bound done n = omega arith

connecting-is_early : (s : Stage) → is_connecting s ≡ true → is_early s ≡ true
connecting-is_early connecting h = refl
connecting-is_early _ h = ground arith

connected_step :
    (w : World)
    → w.active ≡ true
    → IsUnderway (connected w) × (shown_progress w ≤ shown_progress (connected w))
unfolding connected shown_progress
connected_step w a = elim (Bool-cases (is_connecting w.stage)) [
  | inl e ↦ simp (a, e) (inl refl, early-progress w.stage w.chunks (connecting-is_early w.stage e))
  | inr e ↦ simp (a, e) (inl refl, omega arith)
]

begin_step :
    (w : World)
    → IsSound w.tracker
    → w.active ≡ true
    → IsUnderway (begin w) × (shown_progress w ≤ shown_progress (begin w))
unfolding begin shown_progress
begin_step w h a = simp (h.unfinished a, a) (inl refl, omega arith)

contacts_step :
    (n : ℕ) (w : World)
    → w.active ≡ true
    → IsUnderway (contacts_synced n w) × (shown_progress w ≤ shown_progress (contacts_synced n w))
unfolding contacts_synced shown_progress
contacts_step n w a = elim (Bool-cases (is_early w.stage)) [
  | inl e ↦ simp (a, e) (inl refl, early-progress w.stage w.chunks e)
  | inr e ↦ simp (a, e) (inl refl, omega arith)
]

-- A callback that finds a sync in progress leaves it in progress or ends it, and its progress does
-- not fall.
active_step :
    (k : Callback) (w : World)
    → is_reset k ≡ false
    → IsSound w.tracker
    → w.active ≡ true
    → IsUnderway (react k w) × (shown_progress w ≤ shown_progress (react k w))
unfolding react begin chunk finish finish_begin finish_store finish_end shown_progress
active_step begins w n h a = begin_step w h a
active_step connects w n h a = connected_step w a
active_step resets w n h a = ground arith
active_step (syncs_contacts m) w n h a = contacts_step m w a
active_step (receives_chunk c m) w n h a =
    simp a (inl refl, chunk-progress w.stage w.chunks (h.running a))
active_step (finishes r) w n h a = rw a (inr refl, progress-bound w.stage w.chunks)

-- A callback other than a reset does nothing to a sync that has ended.
ended_step :
    (k : Callback) (w : World)
    → is_reset k ≡ false
    → w.active ≡ false
    → w.completed ≡ true
    → react k w ≡ w
unfolding react begin connected contacts_synced chunk finish finish_begin
ended_step begins w n a c = simp (a, c)
ended_step connects w n a c = simp (a, c)
ended_step resets w n a c = ground arith
ended_step (syncs_contacts m) w n a c = simp (a, c)
ended_step (receives_chunk i m) w n a c = simp (a, c)
ended_step (finishes r) w n a c = simp (a, c)

IsUnderway-step :
    (k : Callback) (w : World)
    → is_reset k ≡ false
    → IsSound w.tracker
    → IsUnderway w
    → IsUnderway (react k w) × (shown_progress w ≤ shown_progress (react k w))
IsUnderway-step k w n h u = elim (Bool-cases w.active) [
  | inl a ↦ active_step k w n h a
  | inr a ↦
      let c : w.completed ≡ true = ground (arith, u) in
      subst (λ (v : World). IsUnderway v × (shown_progress w ≤ shown_progress v))
        (sym (ended_step k w n a c)) (inr c, omega arith)
]

-- From a sync in progress on, until the next reset, the progress that the client is shown never
-- falls, and it never passes 800/800, whatever the callbacks and their order.
pub progress_never_falls :
    (ks : List Callback) (w : World)
    → All (λ k. is_reset k ≡ false) ks
    → IsSound w.tracker
    → IsUnderway w
    → (shown_progress w ≤ shown_progress (react_all ks w)) × (shown_progress (react_all ks w) ≤ 800)
unfolding react_all shown_progress
progress_never_falls [] w n h u = (omega arith, progress-bound w.stage w.chunks)
progress_never_falls (k ∷ ks) w (n, ns) h u =
    let (u', le) = IsUnderway-step k w n h u in
    let (le', bound) = progress_never_falls ks (react k w) ns (react-IsSound k w h) u' in
    (omega arith, bound)
