-- ===== src/Persist/Tests.antt =====
-- Runs of the persister of persist.rs, and its theorems at them.
use rsbtd.Events.{Bytes}
use rsbtd.Base.{inl, Option, ◌≡◌, refl, ◌⊎◌, true, false, List, [], ◌∷◌, none, some}
use rsbtd.Base.Set
use rsbtd.Inflight.{Process, alive, aborted, dec}
use native.Mathlib.Decide.{ℕ_discrete}
use rsbtd.Persist.{
  mark, session_state, resume_file, tmp, FilePath-discrete, Disk, put, Faults, write_atomic,
  PersistOp, write_resume, delete_resume, write_session_state, Blocking, returned, Persister,
  process, run_persister, blocking_write, settle, release, send_ack,
}
use rsbtd.Persist.Atomic.{write_atomic-atomic, write_atomic_result}
use rsbtd.Persist.Queue.{run_persister-alive, run_persister-contents}

abbrev smooth : Faults
smooth = record { creates = true; short_write = none; syncs = true; renames = true; unlinks = true }

-- The disk is full: three bytes fit.
abbrev full : Faults
full = record smooth { short_write = some (1 ∷ 2 ∷ 3 ∷ []) }

abbrev empty_disk : Disk
empty_disk p = none

abbrev start : Persister
start = record {
  disk = empty_disk;
  pid = 42;
  tmp_seq = 0;
  dirty = [];
  inflight = 2;
  events = [];
  acks = [];
}

abbrev queue : List (PersistOp × Blocking)
queue =
    (write_resume 1 (7 ∷ []) (some 5), returned smooth)
    ∷ (delete_resume 1, returned smooth)
    ∷ (write_resume 2 (8 ∷ []) none, returned smooth)
    ∷ (write_session_state (9 ∷ []) none, returned smooth)
    ∷ []

smooth_write_lands :
    (write_atomic session_state (tmp session_state 42 0) (9 ∷ []) smooth empty_disk).disk
      session_state
    ≡ some (9 ∷ [])
unfolding write_atomic put FilePath-discrete ℕ_discrete
smooth_write_lands = refl

-- A crash in the middle of a smooth write, behind its fsync.
write_atomic-atomic_example :
    let c : Option Bytes = some (9 ∷ []) in (c ≡ empty_disk session_state) ⊎ (c ≡ some (9 ∷ []))
unfolding write_atomic put mark FilePath-discrete ℕ_discrete
write_atomic-atomic_example =
    write_atomic-atomic session_state 42 0 (9 ∷ []) smooth empty_disk (some (9 ∷ []))
      (inl (inl refl))

write_atomic_result_example :
    let w = write_atomic session_state (tmp session_state 42 0) (9 ∷ []) full empty_disk in
    (w.disk (resume_file 1) ≡ none)
    × (((w.ok ≡ true)
          × (w.disk session_state ≡ some (9 ∷ []))
          × (w.disk (tmp session_state 42 0) ≡ none))
        ⊎ ((w.ok ≡ false) × (w.disk session_state ≡ none)))
write_atomic_result_example =
    write_atomic_result session_state 42 0 (9 ∷ []) full empty_disk (resume_file 1) (λ e. cc)
      (λ e. cc)

run_persister-alive_example :
    (t : Persister) × (run_persister queue start ≡ alive t) × (t.inflight ≡ 0)
run_persister-alive_example = run_persister-alive queue start 0 refl

-- What the queue leaves behind.
abbrev value_or_start : Process Persister → Persister
value_or_start (alive s) = s
value_or_start aborted = start

abbrev finished : Persister
finished = value_or_start (run_persister queue start)

queue_finishes : run_persister queue start ≡ alive finished
unfolding run_persister process release dec settle blocking_write write_atomic send_ack
queue_finishes = refl

finished_clean : Set.contains 1 finished.dirty ≡ false
unfolding run_persister process release dec blocking_write settle send_ack Set.contains Set.remove
    write_atomic
finished_clean = refl

run_persister-contents_example : finished.disk (resume_file 1) ≡ none
unfolding Set.contains
run_persister-contents_example =
    run_persister-contents queue start finished 1 none (tt, (refl, (tt, (tt, tt)))) queue_finishes
      (λ h. refl) finished_clean
