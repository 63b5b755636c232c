-- ===== src/Jobs/Pruning.antt =====
-- How long a job stays known (`prune` of rsbtd/src/engine/jobs.rs).
use rsbtd.Base.{ℕ, ◌≡◌, ◌-◌, Bool, true, false, none, some, arith, ltb, if◌then◌else◌, ◌⊎◌}
use rsbtd.Base.Map
use rsbtd.Base.Map.{Map, Distinct}
use rsbtd.Jobs.{is_terminal, JobEntry, JobManager, job_ttl, is_running, prune_one, prune, get_job}

-- What a lookup finds behind `prune`.
pub get-prune :
    (id now : ℕ) (done : ℕ → Bool) (jobs : Map JobEntry)
    → Distinct jobs
    → Map.get id (prune now done jobs)
      ≡ elim (Map.get id jobs) [ none ↦ none | some job ↦ prune_one now done job ]
get-prune id now done jobs d = Map.get-retain (prune_one now done) id jobs d

-- A job that is not terminal, or whose worker has not ended, is never dropped and its entry does not
-- change, whatever the time and whichever job is asked for.
pub running_kept :
    (id other now : ℕ) (done : ℕ → Bool) (m : JobManager) (job : JobEntry)
    → Distinct m.jobs
    → Map.get id m.jobs ≡ some job
    → (is_terminal job.snapshot.state ≡ false) ⊎ (is_running done job.worker ≡ true)
    → (Map.get id (get_job other now done m).0.jobs ≡ some job)
      × ((get_job id now done m).1 ≡ some job.snapshot)
unfolding get_job prune_one
running_kept id other now done m job d h r = ground (arith, get-prune id now done m.jobs d)

-- A job that has ended stays known for `job_ttl` seconds from the first lookup that sees it so, and
-- not longer: a lookup of any job at `now` starts the time, one at `later` finds the job exactly if
-- less has passed.
pub ended_kept :
    (id other now later : ℕ) (done done' : ℕ → Bool) (m : JobManager) (job : JobEntry)
    → Distinct m.jobs
    → Map.get id m.jobs ≡ some job
    → is_terminal job.snapshot.state ≡ true
    → is_running done job.worker ≡ false
    → is_running done' job.worker ≡ false
    → job.terminal_seen ≡ none
    → (get_job id later done' (get_job other now done m).0).1
      ≡ (if ltb (later - now) job_ttl then some job.snapshot else none)
unfolding get_job prune_one
ended_kept id other now later done done' m job d h t r r' s = ground (
  arith,
  get-prune id now done m.jobs d,
  get-prune id later done' (prune now done m.jobs)
      (Map.retain-Distinct (prune_one now done) m.jobs d),
)
