-- ===== src/Jobs/Tests.antt =====
-- The theorems on creation jobs at concrete runs.
use rsbtd.Base.{
  ℕ, suc, ◌≡◌, ◌≢◌, refl, ◌⊎◌, Bool, true, false, List, [], ◌∷◌, none, some, ltb, if◌then◌else◌,
  ◌==◌, ◌-◌, ◌++◌,
}
use rsbtd.Base.Map
use rsbtd.Jobs.{
  finished, cancelled, is_terminal, JobEntry, JobManager, initial, get_job, ok, err, shutting_down,
  exists, absent, start, cancel_all, cancel_job, new, prune, job_ttl, commit_terminal, admit,
  prune_one,
}
use rsbtd.Jobs.Worker.{
  built, building, ended, Job, begins_hashing, hashes_piece, build_returns, advances,
  sets_cancel_flag, commits_cancel, JobEvent, run_events, advance, on_event, update, advance_from,
  deliver, publish_output,
}
use rsbtd.Jobs.Outcome.{begin, Delivered, job_outcome, cancel_discards, first_terminal_wins}
use rsbtd.Jobs.Manager.{
  Request, starts, lists, cancels, works, on_request, run_requests, Stopped, shutdown_is_final,
  start_registers,
}
use rsbtd.Jobs.Pruning.{ended_kept}

-- Two pieces are hashed and the torrent is written to the path 4.
abbrev hashed : List JobEvent
hashed = begins_hashing 2 ∷ hashes_piece 0 ∷ hashes_piece 1 ∷ build_returns (built (7 ∷ [])) ∷ []

abbrev three_steps : List JobEvent
three_steps = advances true true ∷ advances true true ∷ advances true true ∷ []

-- A file was at the output path before the job.
abbrev at_start : Job
at_start = begin 1 (some 4) 9 (some (5 ∷ []))

job_outcome_example :
    let j = run_events (hashed ++ three_steps) at_start in
    ((j.entry.snapshot.state ≡ finished) × Delivered (7 ∷ []) j)
    ⊎ ((j.entry.snapshot.state ≢ finished)
        × (j.entry.snapshot.torrent ≡ none)
        × ((j.output ≡ some (5 ∷ [])) ⊎ (j.output ≡ none))
        × ((is_terminal j.entry.snapshot.state ≡ true) ⊎ (j.entry.cancel ≡ true)))
unfolding run_events on_event update advance advance_from deliver publish_output commit_terminal
    is_terminal
job_outcome_example =
    job_outcome (7 ∷ []) (hashed ++ three_steps) 1 (some 4) 9 (some (5 ∷ []))
      (tt, (tt, (tt, (refl, (refl, (refl, (refl, tt))))))) refl

-- The cancel comes while the output is being written.
cancel_discards_example :
    let j = run_events (hashed ++ (advances true true ∷ advances true true ∷ [])) at_start in
    let k = run_events three_steps (run_events (sets_cancel_flag ∷ commits_cancel ∷ []) j) in
    (k.entry.snapshot.state ≡ cancelled)
    × (k.entry.snapshot.torrent ≡ none)
    × ((k.phase ≢ ended) ⊎ (k.output ≡ some (5 ∷ [])) ⊎ (k.output ≡ none))
unfolding run_events on_event update advance advance_from deliver publish_output commit_terminal
    is_terminal
cancel_discards_example =
    cancel_discards (7 ∷ []) (hashed ++ (advances true true ∷ advances true true ∷ [])) three_steps
      1 (some 4) 9 (some (5 ∷ [])) (tt, (tt, (tt, (refl, (refl, (refl, tt))))))
      (refl, (refl, (refl, tt))) refl

abbrev cancelled_entry : JobEntry
cancelled_entry = record {
  snapshot = record (initial 1 none) { state = cancelled };
  cancel = true;
  worker = some 9;
  terminal_seen = none;
}

abbrev cancelled_job : Job
cancelled_job = record { entry = cancelled_entry; phase = building; output = none }

first_terminal_wins_example :
    (run_events (hashed ++ three_steps) cancelled_job).entry.snapshot ≡ cancelled_entry.snapshot
unfolding is_terminal
first_terminal_wins_example = first_terminal_wins (hashed ++ three_steps) cancelled_job refl

-- No thread has ended, or all have.
abbrev none_done : ℕ → Bool
none_done w = false

abbrev all_done : ℕ → Bool
all_done w = true

abbrev one_job : JobManager
one_job = record { jobs = (1, cancelled_entry) ∷ []; next_id = 1; stopping = false }

ended_kept_example :
    (get_job 1 4000 all_done (get_job 2 50 all_done one_job).0).1
    ≡ (if ltb (4000 - 50) job_ttl then some cancelled_entry.snapshot else none)
unfolding Map.get is_terminal
ended_kept_example =
    ended_kept 1 2 50 4000 all_done all_done one_job cancelled_entry (refl, tt) refl refl refl refl
      refl

abbrev history : List Request
history =
    starts exists (some 4) 9 0 none_done
    ∷ starts absent none 10 0 none_done
    ∷ works 1 (begins_hashing 2) building none
    ∷ starts exists none 11 0 none_done
    ∷ cancels 2
    ∷ []

abbrev after_shutdown : JobManager
after_shutdown =
    run_requests (starts exists none 12 5 none_done ∷ lists 5 none_done ∷ [])
      (cancel_all (run_requests history new))

abbrev first_job : JobEntry
first_job = record {
  snapshot = record (initial 1 (some 4)) { state = cancelled; pieces_total = 2 };
  cancel = true;
  worker = some 9;
  terminal_seen = none;
}

shutdown_is_final_example :
    Stopped (Map.get 1 after_shutdown.jobs)
    × ((start exists none 13 6 none_done after_shutdown).1 ≡ err shutting_down)
    × ((start exists none 13 6 none_done after_shutdown).0.jobs ≡ after_shutdown.jobs)
shutdown_is_final_example =
    shutdown_is_final history (starts exists none 12 5 none_done ∷ lists 5 none_done ∷ []) 1 none 13
      6 none_done

start_registers_example :
    let m = run_requests history new in
    let r = start exists none 13 6 none_done m in
    (Map.get (suc m.next_id) m.jobs ≡ none)
    × (r.1 ≡ ok (initial (suc m.next_id) none))
    × ((get_job (suc m.next_id) 7 none_done r.0).1 ≡ some (initial (suc m.next_id) none))
    × ((1 == suc m.next_id) ≡ false → Map.get 1 r.0.jobs ≡ Map.get 1 (prune 6 none_done m.jobs))
unfolding run_requests on_request start admit cancel_job new Map.get Map.insert Map.retain prune_one
    is_terminal on_event update
start_registers_example = start_registers history none 13 6 7 none_done none_done 1 refl
