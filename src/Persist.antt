-- ===== src/Persist.antt =====
-- rsbtd/src/engine/persist.rs: atomic file writes and the persister task.
-- A path is known by the part it plays, and two parts are two names: `session.state`,
-- `torrents/<uuid>.resume`, `<target>.<pid>.<n>.tmp` for the `n`-th temporary file, a `.resume` file
-- under any other name, and `<name>.corrupt`.
-- What the operating system does to one call is the argument `Faults`; a panic of the blocking
-- task leaves any disk at all. A crash is not a step: the moments of a write say what one could leave.
-- The fsync of the directory is left out: behind a crash the rename may or may not have happened.
pub mod Atomic
pub mod Operation
pub mod Queue
mod Tests
use mathlib.Core.Logic.{ite}
use native.Mathlib.Decide.{ℕ_discrete}
use rsbtd.Base.{
  ℕ, suc, ◌≡◌, Bool, true, false, List, [], ◌∷◌, ◌++◌, Option, none, some, if◌then◌else◌,
}
use rsbtd.Base.Set
use rsbtd.Events.{Bytes, Event, EventKind, resume_data_saved, resume_data_failed, not_written}
use rsbtd.Inflight.{Process, alive, aborted, ◌>>=◌, dec}

pub data FilePath : Type 0 where
  session_state : FilePath
  resume_file : ℕ → FilePath
  tmp : FilePath → ℕ → ℕ → FilePath
  stray : ℕ → FilePath
  corrupt : FilePath → FilePath

unfoldable pub FilePath-discrete : Discrete FilePath
FilePath-discrete = hlevel ℕ_discrete

abbrev pub Disk : Type 0
Disk = FilePath → Option Bytes

unfoldable pub put : FilePath → Option Bytes → Disk → Disk
put p content d q = ite (FilePath-discrete p q) content (d q)

-- Which system calls of one `write_atomic` succeed. A failing `write_all` leaves a part of the
-- bytes in the file.
pub record Faults : Type 0 where
  pub creates : Bool
  pub short_write : Option Bytes
  pub syncs : Bool
  pub renames : Bool
  pub unlinks : Bool

-- The files whose content may not be on the medium yet: a write puts a file there, an fsync takes it
-- out.
abbrev pub Volatile : Type 0
Volatile = FilePath → Bool

unfoldable pub mark : FilePath → Bool → Volatile → Volatile
mark p unsynced v q = ite (FilePath-discrete p q) unsynced (v q)

-- A moment of a write: the disk as the programs see it, and what of it a crash may lose.
pub record Moment : Type 0 where
  pub disk : Disk
  pub volatile : Volatile

-- A write in progress: the disk, every moment that there was on the way (the newest first), and
-- whether the last call succeeded.
pub record Writing : Type 0 where
  pub disk : Disk
  pub volatile : Volatile
  pub seen : List Moment
  pub ok : Bool

abbrev step : Disk → Volatile → Writing → Writing
step d v w = record {
  disk = d;
  volatile = v;
  seen = record { disk = d; volatile = v } ∷ w.seen;
  ok = true;
}

abbrev fail : Writing → Writing
fail w = record w { ok = false }

-- The files that were there before are on the medium.
create_tmp : FilePath → Faults → Disk → Writing
create_tmp t f d =
    let v : Volatile = λ q. false in
    let w : Writing = record {
      disk = d;
      volatile = v;
      seen = record { disk = d; volatile = v } ∷ [];
      ok = true;
    } in
    if f.creates then step (put t (some []) d) (mark t true v) w else fail w

-- `?`: the later calls are made only behind a success.
write_all : FilePath → Bytes → Faults → Writing → Writing
write_all t bytes f w =
    if w.ok
    then elim f.short_write [
      | none ↦ step (put t (some bytes) w.disk) (mark t true w.volatile) w
      | some part ↦ fail (step (put t (some part) w.disk) (mark t true w.volatile) w)
    ]
    else w

sync_all : FilePath → Faults → Writing → Writing
sync_all t f w =
    if w.ok then if f.syncs then step w.disk (mark t false w.volatile) w else fail w else w

-- The target takes over the content of `t`, and with it what a crash may lose.
rename_over : FilePath → FilePath → Faults → Writing → Writing
rename_over t path f w =
    if w.ok
    then if f.renames
      then step (put t none (put path (w.disk t) w.disk))
          (mark t false (mark path (w.volatile t) w.volatile)) w
      else fail w
    else w

-- The temporary file of a failed write is unlinked, as far as that succeeds.
clean_up : FilePath → Faults → Writing → Writing
clean_up t f w =
    if w.ok
    then w
    else if f.unlinks
    then fail (step (put t none w.disk) (mark t false w.volatile) w)
    else w

unfoldable pub write_atomic : FilePath → FilePath → Bytes → Faults → Disk → Writing
unfolding create_tmp write_all sync_all rename_over clean_up
write_atomic path t bytes f d =
    clean_up t f (rename_over t path f (sync_all t f (write_all t bytes f (create_tmp t f d))))

-- `ack` is the number of the oneshot channel that awaits the result.
pub data PersistOp : Type 0 where
  write_resume : ℕ → Bytes → Option ℕ → PersistOp
  delete_resume : ℕ → PersistOp
  write_session_state : Bytes → Option ℕ → PersistOp

-- How a `spawn_blocking` ends.
pub data Blocking : Type 0 where
  returned : Faults → Blocking
  panicked : Disk → Blocking

pub record Persister : Type 0 where
  pub disk : Disk
  pub pid : ℕ
  pub tmp_seq : ℕ
  pub dirty : List ℕ
  pub inflight : ℕ
  pub events : List Event
  pub acks : List (ℕ × Bool)

-- The write in a blocking task: the persister behind it, and the result.
unfoldable pub blocking_write : FilePath → Bytes → Blocking → Persister → Persister × Bool
blocking_write path bytes (panicked d) s = (record s { disk = d; tmp_seq = suc s.tmp_seq }, false)
blocking_write path bytes (returned f) s =
    let w = write_atomic path (tmp path s.pid s.tmp_seq) bytes f s.disk in
    (record s { disk = w.disk; tmp_seq = suc s.tmp_seq }, w.ok)

unfoldable pub send_ack : Option ℕ → Bool → Persister → Persister
send_ack none result s = s
send_ack (some k) result s = record s { acks = s.acks ++ ((k, result) ∷ []) }

-- The bookkeeping of a resume write, by its result.
unfoldable pub settle : ℕ → Bool → Persister → Persister
settle uuid true s = record s {
  dirty = Set.remove uuid s.dirty;
  events = s.events ++ (record { torrent = some uuid; kind = resume_data_saved } ∷ []);
}
settle uuid false s = record s {
  dirty = Set.insert uuid s.dirty;
  events = s.events ++ (record { torrent = some uuid; kind = resume_data_failed not_written } ∷ []);
}

unfoldable pub release : Persister → Process Persister
release s = do n ← dec s.inflight; alive (record s { inflight = n })

unfoldable pub process : PersistOp → Blocking → Persister → Process Persister
process (write_resume uuid bytes ack) b s =
    let (s', result) = blocking_write (resume_file uuid) bytes b s in
    do t ← release (settle uuid result s'); alive (send_ack ack result t)
process (delete_resume uuid) (panicked d) s = alive (record s { disk = d })
process (delete_resume uuid) (returned f) s =
    alive (if f.unlinks then record s { disk = put (resume_file uuid) none s.disk } else s)
process (write_session_state bytes ack) b s =
    let (s', result) = blocking_write session_state bytes b s in alive (send_ack ack result s')

-- The loop over the queue; each operation comes with what happens to its blocking task.
unfoldable pub run_persister : List (PersistOp × Blocking) → Persister → Process Persister
run_persister [] s = alive s
run_persister ((op, b) ∷ rest) s = do t ← process op b s; run_persister rest t
