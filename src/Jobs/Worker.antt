-- ===== src/Jobs/Worker.antt =====
-- `run_job` and the progress updates of `build` (rsbtd/src/engine/jobs.rs), as the events of one
-- job: the worker thread advances between them, and the user may cancel at any moment. Hashing is
-- rbtorrent's; what `build` returns is an event.
use rsbtd.Base.{ℕ, suc, Bool, true, false, List, [], ◌∷◌, Option, none, some, if◌then◌else◌}
use rsbtd.Events.{Bytes}
use rsbtd.Jobs.{
  hashing, finished, failed, is_terminal, JobSnapshot, JobEntry, commit_terminal, cancel_entry,
}

pub data BuildResult : Type 0 where
  built : Bytes → BuildResult
  broken : ℕ → BuildResult

-- How far the worker is: `build` runs; its result is there; the flag was read and was not set; the
-- output is written; the thread has ended.
pub data Phase : Type 0 where
  building : Phase
  returned : BuildResult → Phase
  accepted : BuildResult → Phase
  written : Phase
  ended : Phase

-- `output` is the content of the file at the job's output path.
pub record Job : Type 0 where
  pub entry : JobEntry
  pub phase : Phase
  pub output : Option Bytes

abbrev pub with_snapshot : Job → JobSnapshot → Phase → Job
with_snapshot j s phase = record j { entry = record (j.entry) { snapshot = s }; phase = phase }

-- `send_if_modified`, which no terminal state lets through.
unfoldable pub update : JobSnapshot → (JobSnapshot → JobSnapshot) → JobSnapshot
update s apply = if is_terminal s.state then s else apply s

abbrev pub finish : JobSnapshot → JobSnapshot
finish s = record s { state = finished; pieces_done = s.pieces_total }

abbrev pub keep_torrent : Bytes → JobSnapshot → JobSnapshot
keep_torrent b s = record (finish s) { torrent = some b }

abbrev pub give_up : ℕ → JobSnapshot → JobSnapshot
give_up e s = record s { state = failed; error = some e }

-- The text of a failed `write_atomic`.
abbrev pub cannot_write : ℕ
cannot_write = 0

unfoldable pub commit : Job → (JobSnapshot → JobSnapshot) → Job
commit j apply = with_snapshot j (commit_terminal j.entry.snapshot apply).0 ended

-- The part of `run_job` that has a result and found the flag unset.
unfoldable pub deliver : BuildResult → Option ℕ → Bool → Job → Job
unfolding commit
deliver (broken e) path writes j = commit j (give_up e)
deliver (built b) none writes j = commit j (keep_torrent b)
deliver (built b) (some path) true j = record j { output = some b; phase = written }
deliver (built b) (some path) false j = commit j (give_up cannot_write)

-- The commit behind the write: if a cancel was first the output is removed again.
unfoldable pub publish_output : Bool → Job → Job
publish_output unlinks j =
    let (s, won) = commit_terminal j.entry.snapshot finish in
    let q = with_snapshot j s ended in
    if won then q else if unlinks then record q { output = none } else q

-- The next step of the worker; the Booleans say whether a write and an unlink would succeed.
unfoldable pub advance_from : Phase → Bool → Bool → Job → Job
unfolding deliver publish_output
advance_from building writes unlinks j = j
advance_from (returned r) writes unlinks j = record j {
  phase = if j.entry.cancel then ended else accepted r;
}
advance_from (accepted r) writes unlinks j = deliver r j.entry.snapshot.output_path writes j
advance_from written writes unlinks j = publish_output unlinks j
advance_from ended writes unlinks j = j

unfoldable pub advance : Bool → Bool → Job → Job
unfolding advance_from
advance writes unlinks j = advance_from j.phase writes unlinks j

-- `cancel` sets the flag and then commits; the worker may move between the two.
pub data JobEvent : Type 0 where
  begins_hashing : ℕ → JobEvent
  hashes_piece : ℕ → JobEvent
  build_returns : BuildResult → JobEvent
  advances : Bool → Bool → JobEvent
  sets_cancel_flag : JobEvent
  commits_cancel : JobEvent

-- An update of the running build.
abbrev pub while_building : Phase → (JobSnapshot → JobSnapshot) → Job → Job
while_building building apply j = with_snapshot j (update j.entry.snapshot apply) building
while_building _ apply j = j

abbrev pub return_from : Phase → BuildResult → Job → Job
return_from building r j = record j { phase = returned r }
return_from _ r j = j

unfoldable pub on_event : JobEvent → Job → Job
unfolding advance
on_event (begins_hashing total) j =
    while_building j.phase (λ s. record s { state = hashing; pieces_total = total }) j
on_event (hashes_piece piece) j =
    while_building j.phase (λ s. record s { pieces_done = suc piece }) j
on_event (build_returns r) j = return_from j.phase r j
on_event (advances writes unlinks) j = advance writes unlinks j
on_event sets_cancel_flag j = record j { entry = record (j.entry) { cancel = true } }
on_event commits_cancel j =
    if j.entry.cancel then record j { entry = (cancel_entry j.entry).0 } else j

unfoldable pub run_events : List JobEvent → Job → Job
run_events [] j = j
run_events (e ∷ es) j = run_events es (on_event e j)
