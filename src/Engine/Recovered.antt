-- ===== src/Engine/Recovered.antt =====
-- What a restore of rsbtd/src/engine/mod.rs does to the resume files.
use rsbtd.Base.{
  ℕ, suc, ◌≡◌, ◌≢◌, refl, sym, ◌∙◌, ◌⊎◌, inl, inr, ap, Bool, true, false, [], ◌∷◌, ◌++◌, Option,
  none, some, arith, if-cases,
}
use rsbtd.Events.{Bytes}
use rsbtd.Errors.{Result, ok, err}
use rsbtd.Persist.{
  FilePath, session_state, resume_file, corrupt, tmp, stray, put, write_atomic, Blocking, returned,
  panicked,
}
use rsbtd.Persist.Atomic.{write_atomic_result}
use rsbtd.Engine.Restoring.{
  ResumeRecord, identified, legacy, malformed, Visit, Restoring, rename, quarantine, canonicalize,
  splice, restore_record, restore_file,
}

-- The record of the visited file behind the visit, under `name`, if the torrent has this uuid: a record
-- that names its uuid is unchanged, and one from before uuids has got the minted one.
abbrev pub Identified : FilePath → ℕ → Bytes → Visit → Restoring → Type 0
Identified name uuid bytes v t =
    ((v.record_ ≡ identified uuid) × (t.disk name ≡ some bytes))
    ⊎ ((v.record_ ≡ legacy)
        × (uuid ≡ v.minted)
        × ((new : Bytes) × (v.spliced ≡ ok new) × (t.disk name ≡ some new)))

-- The record that the file `path` held as `bytes`, behind its visit. Either no torrent was added, and
-- the record is under its name, as it was or, if it had no uuid, with the minted one, or, if it was
-- malformed, beside it as `.corrupt`. Or the torrent of the record's uuid, or of the minted one if it
-- had none, was added, and the record is under the canonical name of that uuid and under no other.
abbrev pub Restored : FilePath → Bytes → Visit → Restoring → Restoring → Type 0
Restored path bytes v s t =
    ((t.adds ≡ s.adds)
      × ((t.disk path ≡ some bytes)
          ⊎ ((v.record_ ≡ malformed) × (t.disk (corrupt path) ≡ some bytes))
          ⊎ ((uuid : ℕ) × Identified path uuid bytes v t)))
    ⊎ ((uuid : ℕ) × (t.adds ≡ (s.adds ++ (uuid ∷ [])))
        × Identified (resume_file uuid) uuid bytes v t
        × ((path ≡ resume_file uuid) ⊎ (t.disk path ≡ none)))

-- No panic of the write, which would leave any disk.
abbrev pub Returns : Blocking → Type 0
Returns (returned f) = Unit
Returns (panicked d) = ⊥

rename_to : (a b : FilePath) (d : FilePath → Option Bytes) → a ≢ b → rename a b d b ≡ d a
unfolding rename put
rename_to a b d n = ground arith

rename_from : (a b : FilePath) (d : FilePath → Option Bytes) → rename a b d a ≡ none
unfolding rename put
rename_from a b d = ground arith

abbrev depth : FilePath → ℕ
depth session_state = 0
depth (resume_file u) = 0
depth (stray n) = 0
depth (tmp p pid n) = depth p
depth (corrupt p) = suc (depth p)

corrupt-ne : (p : FilePath) → p ≢ corrupt p
corrupt-ne p h = absurd (omega (arith, ap depth h))

-- The canonical name, or the old one where the rename fails.
abbrev Canonical : FilePath → ℕ → Bytes → Restoring → Restoring → Type 0
Canonical path uuid bytes s t =
    ((t.adds ≡ s.adds) × (t.disk path ≡ some bytes))
    ⊎ ((t.adds ≡ (s.adds ++ (uuid ∷ [])))
        × (t.disk (resume_file uuid) ≡ some bytes)
        × ((path ≡ resume_file uuid) ⊎ (t.disk path ≡ none)))

canonicalize-Canonical :
    (path : FilePath) (uuid : ℕ) (bytes : Bytes) (renames : Bool) (s : Restoring)
    → s.disk path ≡ some bytes
    → Canonical path uuid bytes s (canonicalize path uuid renames s)
unfolding canonicalize
canonicalize-Canonical path uuid bytes renames s h =
    ground
      (arith, rename_to path (resume_file uuid) s.disk, rename_from path (resume_file uuid) s.disk)

-- What the visit knows of the record that it goes on with: the old one, or the new one of a record
-- that had no uuid.
abbrev Origin : Visit → ℕ → Bytes → Bytes → Type 0
Origin v uuid bytes old =
    ((v.record_ ≡ identified uuid) × (bytes ≡ old))
    ⊎ ((v.record_ ≡ legacy) × (uuid ≡ v.minted) × (v.spliced ≡ ok bytes))

Origin-Identified :
    (name : FilePath) (uuid : ℕ) (bytes old : Bytes) (v : Visit) (t : Restoring)
    → Origin v uuid bytes old
    → t.disk name ≡ some bytes
    → Identified name uuid old v t
Origin-Identified name uuid bytes old v t (inl (k, e)) d = inl (k, d ∙ ap some e)
Origin-Identified name uuid bytes old v t (inr (k, m, e)) d = inr (k, m, (bytes, e, d))

Canonical-Restored :
    (path : FilePath) (uuid : ℕ) (bytes old : Bytes) (v : Visit) (s r t : Restoring)
    → r.adds ≡ s.adds
    → Origin v uuid bytes old
    → Canonical path uuid bytes r t
    → Restored path old v s t
Canonical-Restored path uuid bytes old v s r t a o (inl (c, d)) =
    inl (c ∙ a, inr (inr (uuid, Origin-Identified path uuid bytes old v t o d)))
Canonical-Restored path uuid bytes old v s r t a o (inr (c, d, g)) = inr (
  uuid,
  c ∙ ap (λ l. l ++ (uuid ∷ [])) a,
  Origin-Identified (resume_file uuid) uuid bytes old v t o d,
  g,
)

quarantine-Restored :
    (path : FilePath) (bytes : Bytes) (b : Bool) (v : Visit) (s : Restoring)
    → v.record_ ≡ malformed
    → s.disk path ≡ some bytes
    → Restored path bytes v s (quarantine path b s)
unfolding quarantine
quarantine-Restored path bytes true v s k h =
    inl (refl, inr (inl (k, rename_to path (corrupt path) s.disk (corrupt-ne path) ∙ h)))
quarantine-Restored path bytes false v s k h = inl (refl, inl h)

splice-Restored :
    (path : FilePath) (v : Visit) (b : Blocking) (new bytes : Bytes) (s : Restoring)
    → Returns b
    → v.record_ ≡ legacy
    → v.spliced ≡ ok new
    → s.disk path ≡ some bytes
    → Restored path bytes v s (splice path v b new s)
unfolding splice
splice-Restored path v (panicked d) new bytes s r k e h = absurd r
splice-Restored path v (returned f) new bytes s r k e h =
    let w = write_atomic path (tmp path s.pid s.tmp_seq) new f s.disk in
    let t : Restoring = record s { disk = w.disk; tmp_seq = suc s.tmp_seq } in
    let done =
      write_atomic_result path s.pid s.tmp_seq new f s.disk (corrupt path)
        (λ q. corrupt-ne path (sym q)) (λ q. cc) in
    if-cases (Restored path bytes v s) w.ok
      (λ o.
        Canonical-Restored path v.minted new bytes v s t (canonicalize path v.minted v.renames t)
          refl (inr (k, refl, e))
          (canonicalize-Canonical path v.minted new v.renames t (ground (arith, done))))
      (λ o. inl (refl, inl (ground (arith, done))))

restore_record-Restored :
    (path : FilePath) (v : Visit) (k : ResumeRecord) (spliced : Result Bytes) (bytes : Bytes)
    (s : Restoring)
    → Returns v.written
    → v.record_ ≡ k
    → v.spliced ≡ spliced
    → s.disk path ≡ some bytes
    → Restored path bytes v s (restore_record path v k spliced s)
restore_record-Restored path v malformed spliced bytes s r k e h =
    quarantine-Restored path bytes v.quarantines v s k h
restore_record-Restored path v (identified uuid) spliced bytes s r k e h =
    Canonical-Restored path uuid bytes bytes v s s (canonicalize path uuid v.renames s) refl
      (inl (k, refl)) (canonicalize-Canonical path uuid bytes v.renames s h)
restore_record-Restored path v legacy (err e) bytes s r k q h = inl (refl, inl h)
restore_record-Restored path v legacy (ok new) bytes s r k e h =
    splice-Restored path v v.written new bytes s r k e h

-- The visit of a resume file does not lose its record, whatever rbtorrent reads in it and whichever
-- calls fail, as long as the write of a legacy record does not panic. Where it adds no torrent, the
-- record is still under its name, as it was or, if it had no uuid, with the minted one, or, if it was
-- malformed, beside it as `.corrupt`. Where it adds one, that is the torrent of the uuid in the record,
-- or of the minted one if it had none, and the record is under the canonical name of this uuid and under
-- no other, so that a later removal of the torrent deletes it.
pub restore_file-Restored :
    (path : FilePath) (v : Visit) (bytes : Bytes) (s : Restoring)
    → Returns v.written
    → s.disk path ≡ some bytes
    → Restored path bytes v s (restore_file path v s)
unfolding restore_file
restore_file-Restored path v bytes s r h =
    if-cases (Restored path bytes v s) v.readable
      (λ e. restore_record-Restored path v v.record_ v.spliced bytes s r refl refl h)
      (λ e. inl (refl, inl h))
