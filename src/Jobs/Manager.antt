-- ===== src/Jobs/Manager.antt =====
-- The operations of the job manager (rsbtd/src/engine/jobs.rs) and the order of a shutdown.
use rsbtd.Base.{
  ℕ, suc, ◌≡◌, refl, ◌≤◌, Bool, true, false, not, List, [], ◌∷◌, Option, none, some, arith,
  if◌then◌else◌, ◌==◌, inl, inr, Option-cases, if-cases,
}
use rsbtd.Base.Map
use rsbtd.Base.Map.{Map, Distinct}
use rsbtd.Events.{Bytes}
use rsbtd.Jobs.{
  cancelled, is_terminal, JobEntry, JobManager, prune, prune_one, commit_terminal, shutting_down,
  SourceCheck, exists, absent, inaccessible, Started, ok, err, admit, start, initial, fresh_entry,
  get_job, list_jobs, cancel_entry, cancel_job, cancel_all, new,
}
use rsbtd.Jobs.Worker.{
  Phase, JobEvent, update, on_event, advance, advance_from, deliver, publish_output, commit,
  begins_hashing, hashes_piece, build_returns, advances, sets_cancel_flag, commits_cancel,
}
use rsbtd.Jobs.Pruning.{get-prune}

-- What holds of the entry of the job `id`.
abbrev EntryOk : ℕ → Bool → ℕ → JobEntry → Type 0
EntryOk next_id stopping id job =
    (job.snapshot.id ≡ id)
    × (id ≤ next_id)
    × (stopping ≡ true → (is_terminal job.snapshot.state ≡ true) × (job.cancel ≡ true))

-- Each id stands once and is its job's; ids come from the counter; where the manager is stopping,
-- every job is terminal and its cancel flag is set.
pub record Inv (m : JobManager) : Type 0 where
  pub distinct : Distinct m.jobs
  pub entries :
      (id : ℕ) (job : JobEntry) → Map.get id m.jobs ≡ some job → EntryOk m.next_id m.stopping id job

-- What an event of a job does to its entry, wherever the worker is.
abbrev entry_after : JobEvent → Phase → Option Bytes → JobEntry → JobEntry
entry_after e phase output job =
    (on_event e (record { entry = job; phase = phase; output = output })).entry

on_event-entry :
    (e : JobEvent) (phase : Phase) (output : Option Bytes) (job : JobEntry)
    → ((entry_after e phase output job).snapshot.id ≡ job.snapshot.id)
      × (is_terminal job.snapshot.state ≡ true
          → (entry_after e phase output job).snapshot ≡ job.snapshot)
      × (job.cancel ≡ true → (entry_after e phase output job).cancel ≡ true)
unfolding on_event update commit_terminal cancel_entry is_terminal advance advance_from deliver
    publish_output commit
on_event-entry (begins_hashing n) p o job = ground arith
on_event-entry (hashes_piece n) p o job = ground arith
on_event-entry (build_returns n) p o job = ground arith
on_event-entry (advances w u) p o job = ground arith
on_event-entry sets_cancel_flag p o job = ground arith
on_event-entry commits_cancel p o job = ground arith

-- What happens to the manager: the calls, and an event of the worker of a job.
pub data Request : Type 0 where
  starts : SourceCheck → Option ℕ → ℕ → ℕ → (ℕ → Bool) → Request
  gets : ℕ → ℕ → (ℕ → Bool) → Request
  lists : ℕ → (ℕ → Bool) → Request
  cancels : ℕ → Request
  cancels_all : Request
  works : ℕ → JobEvent → Phase → Option Bytes → Request

unfoldable pub on_request : Request → JobManager → JobManager
on_request (starts check path thread now done) m = (start check path thread now done m).0
on_request (gets id now done) m = (get_job id now done m).0
on_request (lists now done) m = (list_jobs now done m).0
on_request (cancels id) m = (cancel_job id m).0
on_request cancels_all m = cancel_all m
on_request (works id e phase output) m = elim (Map.get id m.jobs) [
  | none ↦ m
  | some job ↦ record m { jobs = Map.insert id (entry_after e phase output job) m.jobs }
]

unfoldable pub run_requests : List Request → JobManager → JobManager
run_requests [] m = m
run_requests (r ∷ rs) m = run_requests rs (on_request r m)

prune-Inv :
    (now : ℕ) (done : ℕ → Bool) (m : JobManager)
    → Inv m
    → Inv (record m { jobs = prune now done m.jobs })
unfolding prune_one
prune-Inv now done m h = record {
  distinct = Map.retain-Distinct (prune_one now done) m.jobs h.distinct;
  entries = λ id job e. elim (Option-cases (Map.get id m.jobs)) [
    | inl n ↦ ground (arith, get-prune id now done m.jobs h.distinct)
    | inr (x, f) ↦ ground (arith, get-prune id now done m.jobs h.distinct, h.entries id x f)
  ];
}

insert-Inv :
    (id : ℕ) (job : JobEntry) (m : JobManager)
    → EntryOk m.next_id m.stopping id job
    → Inv m
    → Inv (record m { jobs = Map.insert id job m.jobs })
insert-Inv id job m k h = record {
  distinct = Map.insert-Distinct id job m.jobs h.distinct;
  entries = λ j x e. ground (arith, Map.get-insert id j job m.jobs, h.entries j x);
}

count-Inv : (m : JobManager) → Inv m → Inv (record m { next_id = suc m.next_id })
count-Inv m h = record {
  distinct = h.distinct;
  entries = λ id job e. ground (arith, h.entries id job e);
}

cancel_all-Inv : (m : JobManager) → Inv m → Inv (cancel_all m)
unfolding cancel_all cancel_entry commit_terminal is_terminal
cancel_all-Inv m h = record {
  distinct = Map.update_values-Distinct (λ job. (cancel_entry job).0) m.jobs h.distinct;
  entries = λ id job e. elim (Option-cases (Map.get id m.jobs)) [
    | inl n ↦ ground (arith, Map.get-update_values (λ job. (cancel_entry job).0) id m.jobs)
    | inr (x, f) ↦
        ground
          (arith, Map.get-update_values (λ job. (cancel_entry job).0) id m.jobs, h.entries id x f)
  ];
}

cancel_entry-EntryOk :
    (id : ℕ) (m : JobManager) (job : JobEntry)
    → EntryOk m.next_id m.stopping id job
    → EntryOk m.next_id m.stopping id (cancel_entry job).0
unfolding cancel_entry commit_terminal is_terminal
cancel_entry-EntryOk id m job h = ground arith

-- Every call and every event of a worker preserves the manager's invariant.
pub on_request-Inv : (r : Request) (m : JobManager) → Inv m → Inv (on_request r m)
unfolding on_request start admit get_job list_jobs cancel_job
on_request-Inv (starts absent path thread now done) m h = h
on_request-Inv (starts inaccessible path thread now done) m h = h
on_request-Inv (starts exists path thread now done) m h =
    let n : JobManager = record m { next_id = suc m.next_id } in
    if-cases (λ (r : JobManager × Started). Inv r.0) m.stopping (λ e. count-Inv m h)
      (λ e.
        insert-Inv (suc m.next_id) (fresh_entry (suc m.next_id) path thread)
          (record n { jobs = prune now done m.jobs }) (ground arith)
          (prune-Inv now done n (count-Inv m h)))
on_request-Inv (gets id now done) m h = prune-Inv now done m h
on_request-Inv (lists now done) m h = prune-Inv now done m h
on_request-Inv (cancels id) m h = elim (Option-cases (Map.get id m.jobs)) [
  | inl n ↦ rw (n, on_request, cancel_job) h
  | inr (job, f) ↦
      rw (f, on_request, cancel_job)
        (insert-Inv id (cancel_entry job).0 m (cancel_entry-EntryOk id m job (h.entries id job f))
          h)
]
on_request-Inv cancels_all m h = cancel_all-Inv m h
on_request-Inv (works id e phase output) m h = elim (Option-cases (Map.get id m.jobs)) [
  | inl n ↦ rw (n, on_request) h
  | inr (job, f) ↦
      rw (f, on_request)
        (insert-Inv id (entry_after e phase output job) m
          (ground (arith, on_event-entry e phase output job, h.entries id job f)) h)
]

pub run_requests-Inv : (rs : List Request) (m : JobManager) → Inv m → Inv (run_requests rs m)
unfolding run_requests
run_requests-Inv [] m h = h
run_requests-Inv (r ∷ rs) m h = run_requests-Inv rs (on_request r m) (on_request-Inv r m h)

on_request-stopping :
    (r : Request) (m : JobManager) → m.stopping ≡ true → (on_request r m).stopping ≡ true
unfolding on_request start admit get_job list_jobs cancel_job cancel_all
on_request-stopping (starts c path thread now done) m h = ground arith
on_request-stopping (gets id now done) m h = ground arith
on_request-stopping (lists now done) m h = ground arith
on_request-stopping (cancels id) m h = ground arith
on_request-stopping cancels_all m h = ground arith
on_request-stopping (works id e phase output) m h = ground arith

run_requests-stopping :
    (rs : List Request) (m : JobManager) → m.stopping ≡ true → (run_requests rs m).stopping ≡ true
unfolding run_requests
run_requests-stopping [] m h = h
run_requests-stopping (r ∷ rs) m h =
    run_requests-stopping rs (on_request r m) (on_request-stopping r m h)

pub new-Inv : Inv new
unfolding new Map.get
new-Inv = record { distinct = tt; entries = λ id job e. cc }

-- A cancel answers true exactly for a job that is there and not terminal. It then stands cancelled
-- with its flag set; a terminal job keeps its snapshot, and no other job changes.
pub cancel_job_lem :
    (id other : ℕ) (m : JobManager)
    → ((cancel_job id m).1 ≡ elim (Map.get id m.jobs) [
      | none ↦ false
      | some job ↦ not (is_terminal job.snapshot.state)
    ])
      × (Map.get other (cancel_job id m).0.jobs ≡ elim (Map.get id m.jobs) [
        | none ↦ Map.get other m.jobs
        | some job ↦
            if id == other
            then some (record job {
              snapshot =
                  if is_terminal job.snapshot.state
                  then job.snapshot
                  else record (job.snapshot) { state = cancelled };
              cancel = true;
            })
            else Map.get other m.jobs
      ])
unfolding cancel_job cancel_entry commit_terminal
cancel_job_lem id other m = elim (Option-cases (Map.get id m.jobs)) [
  | inl n ↦ ground arith
  | inr (job, f) ↦ ground (arith, Map.get-insert id other (cancel_entry job).0 m.jobs)
]

-- A job, if there is one, is terminal and its cancel flag is set.
abbrev pub Stopped : Option JobEntry → Type 0
Stopped none = Unit
Stopped (some job) = (is_terminal job.snapshot.state ≡ true) × (job.cancel ≡ true)

Inv-Stopped :
    (m : JobManager) (id : ℕ) (o : Option JobEntry)
    → Inv m
    → m.stopping ≡ true
    → Map.get id m.jobs ≡ o
    → Stopped o
Inv-Stopped m id none v s e = tt
Inv-Stopped m id (some job) v s e = ground (arith, v.entries id job e)

-- Shutdown is final. Whatever came before `cancel_all` and whatever comes behind it: every job that the
-- manager still has is terminal and its cancel flag is set, and a start of an existing source is
-- refused and adds no job, be there jobs or none.
pub shutdown_is_final :
    (rs ss : List Request) (id : ℕ) (path : Option ℕ) (thread now : ℕ) (done : ℕ → Bool)
    → let m = run_requests ss (cancel_all (run_requests rs new)) in
      Stopped (Map.get id m.jobs)
      × ((start exists path thread now done m).1 ≡ err shutting_down)
      × ((start exists path thread now done m).0.jobs ≡ m.jobs)
unfolding start admit cancel_all
shutdown_is_final rs ss id path thread now done =
    let c = cancel_all (run_requests rs new) in
    let m = run_requests ss c in
    let v =
      run_requests-Inv ss c
        (cancel_all-Inv (run_requests rs new) (run_requests-Inv rs new new-Inv)) in
    let s = run_requests-stopping ss c refl in
    (Inv-Stopped m id (Map.get id m.jobs) v s refl, ground arith, ground arith)

-- The next id is no job's.
fresh-unused : (m : JobManager) → Inv m → Map.get (suc m.next_id) m.jobs ≡ none
fresh-unused m v = elim (Option-cases (Map.get (suc m.next_id) m.jobs)) [
  | inl n ↦ n
  | inr (job, f) ↦ absurd (ground (arith, v.entries (suc m.next_id) job f))
]

-- In every reachable state that is not stopping, a start of an existing source gives the job an id
-- that no job has; the job can be found at once, and no other job changes but by `prune`.
pub start_registers :
    (rs : List Request) (path : Option ℕ) (thread now later : ℕ) (done done' : ℕ → Bool) (other : ℕ)
    → let m = run_requests rs new in
      m.stopping ≡ false
      → let r = start exists path thread now done m in
        let id = suc m.next_id in
        (Map.get id m.jobs ≡ none)
        × (r.1 ≡ ok (initial id path))
        × ((get_job id later done' r.0).1 ≡ some (initial id path))
        × ((other == id) ≡ false → Map.get other r.0.jobs ≡ Map.get other (prune now done m.jobs))
unfolding start admit get_job prune_one is_terminal run_requests on_request
start_registers rs path thread now later done done' other h =
    let m = run_requests rs new in
    let id = suc m.next_id in
    let v = run_requests-Inv rs new new-Inv in
    let w = on_request-Inv (starts exists path thread now done) m v in
    ground (
      arith,
      fresh-unused m v,
      get-prune id later done' (start exists path thread now done m).0.jobs w.distinct,
      Map.get-insert id id (fresh_entry id path thread) (prune now done m.jobs),
      Map.get-insert id other (fresh_entry id path thread) (prune now done m.jobs),
    )
