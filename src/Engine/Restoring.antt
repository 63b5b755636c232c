-- ===== src/Engine/Restoring.antt =====
-- `restore` and `quarantine` of rsbtd/src/engine/mod.rs: the resume files at the start of the engine.
-- What rbtorrent reads in a file, and what the operating system does to each call, are arguments.
use mathlib.Core.Logic.{ite}
use rsbtd.Base.{ℕ, suc, Bool, true, false, List, [], ◌∷◌, ◌++◌, none, ◌==◌, if◌then◌else◌}
use rsbtd.Events.{Bytes}
use rsbtd.Errors.{Result, ok, err}
use rsbtd.Persist.{
  FilePath, FilePath-discrete, resume_file, corrupt, tmp, Disk, put, write_atomic, Blocking,
  returned, panicked,
}
use rsbtd.Registry.{Registry, upsert}

-- A resume file by its client data: with a uuid, without any (written before uuids existed), or
-- unreadable as resume data or as client data.
pub data ResumeRecord : Type 0 where
  identified : ℕ → ResumeRecord
  legacy : ResumeRecord
  malformed : ResumeRecord

-- What meets one file: whether it can be read, its record, the uuid that would be minted for it, the
-- record with that uuid in it, how its write ends, and whether the renames succeed.
pub record Visit : Type 0 where
  pub readable : Bool
  pub record_ : ResumeRecord
  pub minted : ℕ
  pub spliced : Result Bytes
  pub written : Blocking
  pub renames : Bool
  pub quarantines : Bool

-- `adds` are the uuids whose torrents were posted to the session, in order.
pub record Restoring : Type 0 where
  pub disk : Disk
  pub pid : ℕ
  pub tmp_seq : ℕ
  pub adds : List ℕ

unfoldable pub rename : FilePath → FilePath → Disk → Disk
rename from to d = put from none (put to (d from) d)

unfoldable pub quarantine : FilePath → Bool → Restoring → Restoring
quarantine path true s = record s { disk = rename path (corrupt path) s.disk }
quarantine path false s = s

abbrev pub post_add : ℕ → Restoring → Restoring
post_add uuid s = record s { adds = s.adds ++ (uuid ∷ []) }

-- The file gets its canonical name before the torrent is added.
unfoldable pub canonicalize : FilePath → ℕ → Bool → Restoring → Restoring
canonicalize path uuid renames s =
    ite (FilePath-discrete path (resume_file uuid)) (post_add uuid s) (
      if renames
      then post_add uuid (record s { disk = rename path (resume_file uuid) s.disk })
      else s)

-- A legacy record gets its uuid durably, under the old name.
unfoldable pub splice : FilePath → Visit → Blocking → Bytes → Restoring → Restoring
splice path v (panicked d) bytes s = record s { disk = d; tmp_seq = suc s.tmp_seq }
splice path v (returned f) bytes s =
    let w = write_atomic path (tmp path s.pid s.tmp_seq) bytes f s.disk in
    let t : Restoring = record s { disk = w.disk; tmp_seq = suc s.tmp_seq } in
    if w.ok then canonicalize path v.minted v.renames t else t

abbrev pub restore_record : FilePath → Visit → ResumeRecord → Result Bytes → Restoring → Restoring
restore_record path v malformed spliced s = quarantine path v.quarantines s
restore_record path v (identified uuid) spliced s = canonicalize path uuid v.renames s
restore_record path v legacy (err e) s = s
restore_record path v legacy (ok bytes) s = splice path v v.written bytes s

unfoldable pub restore_file : FilePath → Visit → Restoring → Restoring
restore_file path v s = if v.readable then restore_record path v v.record_ v.spliced s else s

unfoldable pub restore_files : List (FilePath × Visit) → Restoring → Restoring
restore_files [] s = s
restore_files ((path, v) ∷ files) s = restore_files files (restore_file path v s)

-- What a posted add brings: the handle's id and its token, and whether an unlink would succeed.
pub record Added : Type 0 where
  pub uuid : ℕ
  pub handle : Result ℕ
  pub token : Result ℕ
  pub unlinks : Bool

-- Two records of one torrent: the first file won, and the other one is deleted.
unfoldable pub settle_add : Added → ℕ → ℕ → ℕ → Registry × Disk → Registry × Disk
settle_add a id token now (r, d) =
    let (q, entry) = upsert r id token a.uuid now in
    if entry.uuid == a.uuid
    then (q, d)
    else (q, if a.unlinks then put (resume_file a.uuid) none d else d)

unfoldable pub restore_add : Added → ℕ → Registry × Disk → Registry × Disk
restore_add a now s = elim a.handle [
  | err e ↦ s
  | ok id ↦ elim a.token [ err e ↦ s | ok token ↦ settle_add a id token now s ]
]

unfoldable pub restore_adds : List (Added × ℕ) → Registry × Disk → Registry × Disk
restore_adds [] s = s
restore_adds ((a, now) ∷ adds) s = restore_adds adds (restore_add a now s)
