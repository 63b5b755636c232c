-- ===== src/Jobs/Outcome.antt =====
-- How a creation job ends (rsbtd/src/engine/jobs.rs), whatever the order of its worker's steps and
-- of a cancel.
use rsbtd.Base.{
  ℕ, ◌≡◌, ◌≢◌, refl, ap, ◌∙◌, ◌⊎◌, inl, inr, Bool, true, false, List, [], ◌∷◌, Option, none, some,
  arith, is_some, All,
}
use rsbtd.Events.{Bytes}
use rsbtd.Jobs.{
  JobState, listing, hashing, finished, failed, cancelled, is_terminal, JobSnapshot,
  commit_terminal, cancel_entry, fresh_entry,
}
use rsbtd.Jobs.Worker.{
  built, broken, Phase, building, returned, accepted, written, ended, Job, update, deliver,
  publish_output, commit, advance_from, advance, JobEvent, begins_hashing, hashes_piece,
  build_returns, advances, sets_cancel_flag, commits_cancel, on_event, run_events,
}

-- A terminal snapshot is final: no event changes it.
on_event-terminal :
    (e : JobEvent) (j : Job)
    → is_terminal j.entry.snapshot.state ≡ true
    → (on_event e j).entry.snapshot ≡ j.entry.snapshot
unfolding on_event update commit_terminal cancel_entry is_terminal
on_event-terminal (begins_hashing n) j h = ground arith
on_event-terminal (hashes_piece n) j h = ground arith
on_event-terminal (build_returns n) j h = ground arith
on_event-terminal (advances w u) j h = ground arith
on_event-terminal sets_cancel_flag j h = ground arith
on_event-terminal commits_cancel j h = ground arith

-- What a phase knows: a result in hand is the bytes `b`, and the output is as before until it is
-- written with them.
abbrev pub PhaseOk : Bytes → Option Bytes → Phase → Option ℕ → Option Bytes → Type 0
PhaseOk b before building path output = output ≡ before
PhaseOk b before (returned (built c)) path output = (output ≡ before) × (c ≡ b)
PhaseOk b before (returned (broken e)) path output = output ≡ before
PhaseOk b before (accepted (built c)) path output = (output ≡ before) × (c ≡ b)
PhaseOk b before (accepted (broken e)) path output = output ≡ before
PhaseOk b before written path output = (output ≡ some b) × (is_some path ≡ true)
PhaseOk b before ended path output = Unit

-- A finished job has its torrent where it was asked for, and all its pieces.
abbrev pub Delivered : Bytes → Job → Type 0
Delivered b j =
    (((j.entry.snapshot.output_path ≡ none) × (j.entry.snapshot.torrent ≡ some b))
      ⊎ ((is_some j.entry.snapshot.output_path ≡ true)
          × (j.entry.snapshot.torrent ≡ none)
          × (j.output ≡ some b)))
    × (j.entry.snapshot.pieces_done ≡ j.entry.snapshot.pieces_total)

-- What holds of a job at each moment, for a build that can only return the bytes `b`. `before` is
-- what stood at the output path when it started.
pub record Inv (b : Bytes) (before : Option Bytes) (j : Job) : Type 0 where
  pub phase_ok : PhaseOk b before j.phase j.entry.snapshot.output_path j.output
  pub live :
      j.phase ≢ ended
      → is_terminal j.entry.snapshot.state ≡ true
      → j.entry.snapshot.state ≡ cancelled
  pub flagged : j.entry.snapshot.state ≡ cancelled → j.entry.cancel ≡ true
  pub ends : j.phase ≡ ended → (is_terminal j.entry.snapshot.state ≡ true) ⊎ (j.entry.cancel ≡ true)
  pub no_torrent : j.entry.snapshot.state ≢ finished → j.entry.snapshot.torrent ≡ none
  pub delivered : j.entry.snapshot.state ≡ finished → Delivered b j
  pub discarded :
      j.phase ≡ ended → j.entry.snapshot.state ≢ finished → (j.output ≡ before) ⊎ (j.output ≡ none)

-- Each build returns the bytes `b` or fails, and unlinks succeed; writes may fail.
abbrev pub Fits : Bytes → JobEvent → Type 0
Fits b (build_returns (built c)) = c ≡ b
Fits b (advances writes unlinks) = unlinks ≡ true
Fits b _ = Unit

on_event-Inv :
    (b : Bytes) (before : Option Bytes) (e : JobEvent) (j : Job)
    → Fits b e
    → Inv b before j
    → Inv b before (on_event e j)
unfolding on_event update commit_terminal cancel_entry is_terminal
on_event-Inv b before (begins_hashing n) j f h = ground arith
on_event-Inv b before (hashes_piece n) j f h = ground arith
on_event-Inv b before (build_returns (built c)) j f h = ground arith
on_event-Inv b before (build_returns (broken e)) j f h = ground arith
on_event-Inv b before (advances w u) j f h = ground arith
on_event-Inv b before sets_cancel_flag j f h = ground arith
on_event-Inv b before commits_cancel j f h = ground arith

run_events-Inv :
    (b : Bytes) (before : Option Bytes) (es : List JobEvent) (j : Job)
    → All (Fits b) es
    → Inv b before j
    → Inv b before (run_events es j)
unfolding run_events
run_events-Inv b before [] j fs h = h
run_events-Inv b before (e ∷ es) j (f, fs) h =
    run_events-Inv b before es (on_event e j) fs (on_event-Inv b before e j f h)

is_finished : (s : JobState) → (s ≡ finished) ⊎ (s ≢ finished)
is_finished finished = inl refl
is_finished listing = inr (λ e. cc)
is_finished hashing = inr (λ e. cc)
is_finished failed = inr (λ e. cc)
is_finished cancelled = inr (λ e. cc)

-- The first terminal state wins: no later event of the worker, the build or a cancel changes
-- anything in the snapshot.
pub first_terminal_wins :
    (es : List JobEvent) (j : Job)
    → is_terminal j.entry.snapshot.state ≡ true
    → (run_events es j).entry.snapshot ≡ j.entry.snapshot
unfolding run_events
first_terminal_wins [] j h = refl
first_terminal_wins (e ∷ es) j h =
    let same = on_event-terminal e j h in
    first_terminal_wins es (on_event e j) (ap (λ (s : JobSnapshot). is_terminal s.state) same ∙ h)
    ∙ same

-- A job as `start` leaves it, with what stands at its output path.
abbrev pub begin : ℕ → Option ℕ → ℕ → Option Bytes → Job
begin id path thread before = record {
  entry = fresh_entry id path thread;
  phase = building;
  output = before;
}

begin-Inv :
    (b : Bytes) (id : ℕ) (path : Option ℕ) (thread : ℕ) (before : Option Bytes)
    → Inv b before (begin id path thread before)
unfolding is_terminal
begin-Inv b id path thread before = ground arith

-- Where the worker of a job has ended, in any order of its steps and of cancels, for a build that
-- returns the bytes `b` or fails, and if unlinks succeed, one of two things holds. The job is finished,
-- all its pieces are done, and the bytes are in the snapshot, or at the output path if one was given.
-- Or the job is not finished, the snapshot has no torrent, and the output path has what it had before
-- or nothing. In the second case it is failed or cancelled, or the cancel flag is set and the commit of
-- that cancel is still to come.
pub job_outcome :
    (b : Bytes) (es : List JobEvent) (id : ℕ) (path : Option ℕ) (thread : ℕ) (before : Option Bytes)
    → All (Fits b) es
    → (run_events es (begin id path thread before)).phase ≡ ended
    → let j = run_events es (begin id path thread before) in
      ((j.entry.snapshot.state ≡ finished) × Delivered b j)
      ⊎ ((j.entry.snapshot.state ≢ finished)
          × (j.entry.snapshot.torrent ≡ none)
          × ((j.output ≡ before) ⊎ (j.output ≡ none))
          × ((is_terminal j.entry.snapshot.state ≡ true) ⊎ (j.entry.cancel ≡ true)))
job_outcome b es id path thread before fs end =
    let j = run_events es (begin id path thread before) in
    let v =
      run_events-Inv b before es (begin id path thread before) fs
        (begin-Inv b id path thread before) in
    elim (is_finished j.entry.snapshot.state) [
      | inl y ↦ inl (y, v.delivered y)
      | inr n ↦ inr (n, v.no_torrent n, v.discarded end n, v.ends end)
    ]

is_ended : (p : Phase) → (p ≡ ended) ⊎ (p ≢ ended)
is_ended ended = inl refl
is_ended building = inr (λ e. cc)
is_ended (returned r) = inr (λ e. cc)
is_ended (accepted r) = inr (λ e. cc)
is_ended written = inr (λ e. cc)

-- A cancel that meets a job which is not terminal cancels it.
cancel-running :
    (j : Job)
    → is_terminal j.entry.snapshot.state ≡ false
    → (run_events (sets_cancel_flag ∷ commits_cancel ∷ []) j).entry.snapshot.state ≡ cancelled
unfolding run_events on_event commit_terminal cancel_entry
cancel-running j h = ground arith

-- A cancel of a job that is not terminal is final: in every continuation the job is cancelled and has
-- no torrent, and once the worker has ended the output path has what it had before or nothing. This is
-- for builds that return the bytes `b` or fail, and if unlinks succeed.
pub cancel_discards :
    (b : Bytes) (es fs : List JobEvent) (id : ℕ) (path : Option ℕ) (thread : ℕ)
    (before : Option Bytes)
    → All (Fits b) es
    → All (Fits b) fs
    → is_terminal (run_events es (begin id path thread before)).entry.snapshot.state ≡ false
    → let j = run_events es (begin id path thread before) in
      let k = run_events fs (run_events (sets_cancel_flag ∷ commits_cancel ∷ []) j) in
      (k.entry.snapshot.state ≡ cancelled)
      × (k.entry.snapshot.torrent ≡ none)
      × ((k.phase ≢ ended) ⊎ (k.output ≡ before) ⊎ (k.output ≡ none))
unfolding is_terminal
cancel_discards b es fs id path thread before he hf h =
    let j = run_events es (begin id path thread before) in
    let u =
      run_events-Inv b before es (begin id path thread before) he
        (begin-Inv b id path thread before) in
    let c = run_events (sets_cancel_flag ∷ commits_cancel ∷ []) j in
    let k = run_events fs c in
    let w = run_events-Inv b before (sets_cancel_flag ∷ commits_cancel ∷ []) j (tt, (tt, tt)) u in
    let v = run_events-Inv b before fs c hf w in
    let s = cancel-running j h in
    let e : k.entry.snapshot.state ≡ cancelled =
      ap (λ (s : JobSnapshot). s.state) (first_terminal_wins fs c (ap is_terminal s)) ∙ s in
    let n : k.entry.snapshot.state ≢ finished = λ d. cc in
    (e, v.no_torrent n, elim (is_ended k.phase) [ inl y ↦ inr (v.discarded y n) | inr y ↦ inl y ])

-- From the return of the build on, three steps of the worker end it if nothing else moves in between,
-- whichever writes and unlinks fail.
pub three_steps_end :
    (j : Job) (w x y u v z : Bool)
    → j.phase ≢ building
    → (advance y z (advance x v (advance w u j))).phase ≡ ended
unfolding advance advance_from deliver publish_output commit commit_terminal
three_steps_end j w x y u v z h = ground arith
