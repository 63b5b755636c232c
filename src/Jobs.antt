-- ===== src/Jobs.antt =====
-- rsbtd/src/engine/jobs.rs: the manager of torrent-creation jobs. The worker thread of a job is in
-- `Jobs/Worker.antt`.
-- A thread is a number, and `done` says which threads have ended; `now` is the clock in
-- seconds. Ids do not wrap. An error text is the number of its form.
pub mod Worker
pub mod Outcome
pub mod Manager
pub mod Pruning
pub mod Listing
mod Tests
use rsbtd.Base.{
  ℕ, suc, ◌+◌, ◌-◌, Bool, true, false, not, List, [], ◌∷◌, ◌++◌, Option, none, some, ltb, leb,
  if◌then◌else◌, is_some,
}
use rsbtd.Base.Map
use rsbtd.Base.Map.{Map}
use rsbtd.Events.{Bytes}

abbrev pub job_ttl : ℕ
job_ttl = 3600

pub data JobState : Type 0 where
  listing hashing finished failed cancelled : JobState

unfoldable pub is_terminal : JobState → Bool
is_terminal finished = true
is_terminal failed = true
is_terminal cancelled = true
is_terminal listing = false
is_terminal hashing = false

pub record JobSnapshot : Type 0 where
  pub id : ℕ
  pub state : JobState
  pub pieces_done : ℕ
  pub pieces_total : ℕ
  pub error : Option ℕ
  pub torrent : Option Bytes
  pub output_path : Option ℕ

pub record JobEntry : Type 0 where
  pub snapshot : JobSnapshot
  pub cancel : Bool
  pub worker : Option ℕ
  pub terminal_seen : Option ℕ

pub record JobManager : Type 0 where
  pub jobs : Map JobEntry
  pub next_id : ℕ
  pub stopping : Bool

unfoldable pub new : JobManager
new = record { jobs = []; next_id = 0; stopping = false }

-- The first terminal state wins; the Boolean says whether this commit did.
unfoldable pub commit_terminal : JobSnapshot → (JobSnapshot → JobSnapshot) → JobSnapshot × Bool
commit_terminal s apply = if is_terminal s.state then (s, false) else (apply s, true)

abbrev pub cancel_snapshot : JobSnapshot → JobSnapshot
cancel_snapshot s = record s { state = cancelled }

-- `worker.as_ref().is_some_and(|w| !w.is_finished())`.
abbrev pub is_running : (ℕ → Bool) → Option ℕ → Bool
is_running done none = false
is_running done (some w) = not (done w)

-- What `retain` makes of one entry: `none` drops it.
unfoldable pub prune_one : ℕ → (ℕ → Bool) → JobEntry → Option JobEntry
prune_one now done job =
    if not (is_terminal job.snapshot.state)
    then some job
    else if is_running done job.worker
    then some job
    else elim job.terminal_seen [
      | none ↦ some (record job { terminal_seen = some now })
      | some seen ↦ if ltb (now - seen) job_ttl then some job else none
    ]

abbrev pub prune : ℕ → (ℕ → Bool) → Map JobEntry → Map JobEntry
prune now done = Map.retain (prune_one now done)

-- What the lookup of the source path found.
pub data SourceCheck : Type 0 where
  exists absent inaccessible : SourceCheck

pub data StartError : Type 0 where
  invalid : SourceCheck → StartError
  shutting_down : StartError

pub data Started : Type 0 where
  ok : JobSnapshot → Started
  err : StartError → Started

abbrev pub initial : ℕ → Option ℕ → JobSnapshot
initial id output_path = record {
  id = id;
  state = listing;
  pieces_done = 0;
  pieces_total = 0;
  error = none;
  torrent = none;
  output_path = output_path;
}

abbrev pub fresh_entry : ℕ → Option ℕ → ℕ → JobEntry
fresh_entry id output_path thread = record {
  snapshot = initial id output_path;
  cancel = false;
  worker = some thread;
  terminal_seen = none;
}

-- `start` behind the check of the source; `thread` is the worker that is spawned.
unfoldable pub admit : Option ℕ → ℕ → ℕ → (ℕ → Bool) → JobManager → JobManager × Started
admit output_path thread now done m =
    let id = suc m.next_id in
    let n : JobManager = record m { next_id = id } in
    if m.stopping then (n, err shutting_down) else (
      record n { jobs = Map.insert id (fresh_entry id output_path thread) (prune now done m.jobs) },
      ok (initial id output_path),
    )

unfoldable pub start :
    SourceCheck → Option ℕ → ℕ → ℕ → (ℕ → Bool) → JobManager → JobManager × Started
start exists output_path thread now done m = admit output_path thread now done m
start absent output_path thread now done m = (m, err (invalid absent))
start inaccessible output_path thread now done m = (m, err (invalid inaccessible))

unfoldable pub get_job : ℕ → ℕ → (ℕ → Bool) → JobManager → JobManager × Option JobSnapshot
get_job id now done m =
    let jobs = prune now done m.jobs in
    (
      record m { jobs = jobs },
      elim (Map.get id jobs) [ none ↦ none | some job ↦ some job.snapshot ],
    )

-- `sort_by_key(|s| s.id)`.
unfoldable pub insert_sorted : JobSnapshot → List JobSnapshot → List JobSnapshot
insert_sorted s [] = s ∷ []
insert_sorted s (t ∷ ts) = if leb s.id t.id then s ∷ t ∷ ts else t ∷ insert_sorted s ts

unfoldable pub sort_by_id : List JobSnapshot → List JobSnapshot
sort_by_id [] = []
sort_by_id (s ∷ ss) = insert_sorted s (sort_by_id ss)

unfoldable pub snapshots : Map JobEntry → List JobSnapshot
snapshots [] = []
snapshots ((id, job) ∷ jobs) = job.snapshot ∷ snapshots jobs

unfoldable pub list_jobs : ℕ → (ℕ → Bool) → JobManager → JobManager × List JobSnapshot
list_jobs now done m =
    let jobs = prune now done m.jobs in (record m { jobs = jobs }, sort_by_id (snapshots jobs))

unfoldable pub cancel_entry : JobEntry → JobEntry × Bool
cancel_entry job =
    let (s, won) = commit_terminal job.snapshot cancel_snapshot in
    (record job { snapshot = s; cancel = true }, won)

unfoldable pub cancel_job : ℕ → JobManager → JobManager × Bool
cancel_job id m = elim (Map.get id m.jobs) [
  | none ↦ (m, false)
  | some job ↦
      let (job', won) = cancel_entry job in (record m { jobs = Map.insert id job' m.jobs }, won)
]

abbrev pub cancel_entries : Map JobEntry → Map JobEntry
cancel_entries = Map.update_values (λ job. (cancel_entry job).0)

unfoldable pub cancel_all : JobManager → JobManager
cancel_all m = record m { jobs = cancel_entries m.jobs; stopping = true }

-- The workers that shutdown takes out of the entries to join them.
unfoldable pub take_workers : Map JobEntry → Map JobEntry × List (ℕ × ℕ)
take_workers [] = ([], [])
take_workers ((id, job) ∷ jobs) =
    let (rest, workers) = take_workers jobs in
    (
      (id, record job { worker = none }) ∷ rest,
      elim job.worker [ none ↦ workers | some w ↦ (id, w) ∷ workers ],
    )
